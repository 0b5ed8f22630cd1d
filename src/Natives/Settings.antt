-- ===== src/Natives/Settings.antt =====
-- `mysql_config_set` of src/natives.cpp, with its reads of the script's memory.
use mathlib.Core.Option
use omp_my_sql.Prelude.{
  ℕ, Bool, true, false, Bytes, Option, none, some, ◌==◌, ◌≡◌, ◌≢◌, refl, sym, ap, arith,
  if◌then◌else◌, Bool-cases, Option-cases, ==_iff, inl, inr,
}
use omp_my_sql.Prelude.Int.{ℤ, pos, negsuc}
use omp_my_sql.Prelude.Map.{Map, lookup, put, lookup-put}
use omp_my_sql.Amx.{Amx}
use omp_my_sql.Connection.Options.{
  ConnectionOptions, SslMode, option_is_string, apply_int_option, apply_string_option,
}
use omp_my_sql.Component.{Component}
use omp_my_sql.Component.Registry.{add_options, get_options}

apply_string_option-ssl_mode :
    (o : ConnectionOptions) (type : ℕ) (v : Bytes)
    → (apply_string_option o type v).ssl_mode ≡ o.ssl_mode
unfolding apply_string_option
apply_string_option-ssl_mode o type v = ground arith

apply_int_option-ssl_mode :
    (o : ConnectionOptions) (type : ℕ) (v : ℤ)
    → type ≢ 7
    → (apply_int_option o type v).ssl_mode ≡ o.ssl_mode
unfolding apply_int_option
apply_int_option-ssl_mode o type v h = ground arith

-- The SSL mode of a set of options.
abbrev pub mode_in : Map ConnectionOptions → ℕ → Option SslMode
mode_in m handle = Option.map (λ o. o.ssl_mode) (lookup handle m)

-- A set that is stored again with the same mode.
mode_in-put :
    (m : Map ConnectionOptions) (k handle : ℕ) (o o' : ConnectionOptions)
    → lookup k m ≡ some o
    → o'.ssl_mode ≡ o.ssl_mode
    → mode_in (put k o' m) handle ≡ mode_in m handle
mode_in-put m k handle o o' e same = elim (Bool-cases (k == handle)) [
  | inl q ↦
      let here : lookup handle m ≡ some o = rw (sym ((==_iff k handle).0 q)) e in
      rw (lookup-put k handle o' m, q, here) (ap some same)
  | inr q ↦ rw (lookup-put k handle o' m, q) refl
]

module _ (a : Amx) (mem : a.Memory) where
  -- The options with the value that the script passes by reference; `none` where a string cannot be
  -- reached. An integer that cannot be reached is 0.
  unfoldable pub set_value : ConnectionOptions → ℕ → ℤ → Option ConnectionOptions
  set_value o type param =
      let text : Option ConnectionOptions = elim (a.address mem param) [
        | none ↦ none
        | some p ↦ some (apply_string_option o type (a.string_at mem p))
      ] in
      let number : ℤ = elim (a.address mem param) [ none ↦ pos 0 | some p ↦ a.cell_at mem p ] in
      if option_is_string type then text else some (apply_int_option o type number)

  -- `mysql_config_set`; no option has a negative type.
  unfoldable pub mysql_config_set : Component → ℕ → ℤ → ℤ → Component × Bool
  unfolding get_options set_value
  mysql_config_set c options (negsuc type) param = elim (get_options c options) [
    | none ↦ (c, false)
    | some o ↦ (c, true)
  ]
  mysql_config_set c options (pos type) param = elim (get_options c options) [
    | none ↦ (c, false)
    | some o ↦ elim (set_value o type param) [
      | none ↦ (c, false)
      | some o' ↦ (record c { options = put options o' c.options }, true)
    ]
  ]

  set_value-ssl_mode :
      (o o' : ConnectionOptions) (type : ℕ) (param : ℤ)
      → type ≢ 7
      → set_value o type param ≡ some o'
      → o'.ssl_mode ≡ o.ssl_mode
  unfolding set_value
  set_value-ssl_mode o o' type param h e = elim (Option-cases (a.address mem param)) [
    | inl lost ↦
        let number = apply_int_option-ssl_mode o type (pos 0) h in ground (arith, lost, number)
    | inr (p, found) ↦
        let text = apply_string_option-ssl_mode o type (a.string_at mem p) in
        let number = apply_int_option-ssl_mode o type (a.cell_at mem p) h in
        ground (arith, found, text, number)
  ]

  -- Whatever the script passes, a call that does not name `OPT_SSL_MODE` leaves the sets of options
  -- that there are, and the SSL mode of each.
  pub mysql_config_set-mode_in :
      (c : Component) (options handle : ℕ) (type param : ℤ)
      → type ≢ pos 7
      → mode_in (mysql_config_set c options type param).0.options handle ≡ mode_in c.options handle
  unfolding mysql_config_set get_options
  mysql_config_set-mode_in c options handle (negsuc type) param h =
      elim (Option-cases (lookup options c.options)) [
        | inl e ↦ rw (mysql_config_set, e) refl
        | inr (o, e) ↦ rw (mysql_config_set, e) refl
      ]
  mysql_config_set-mode_in c options handle (pos type) param h =
      elim (Option-cases (lookup options c.options)) [
        | inl e ↦ rw (mysql_config_set, e) refl
        | inr (o, e) ↦ elim (Option-cases (set_value o type param)) [
          | inl f ↦ rw (mysql_config_set, e, f) refl
          | inr (o', f) ↦
              let same = set_value-ssl_mode o o' type param (λ q. h (ap pos q)) f in
              rw (mysql_config_set, e, f) (mode_in-put c.options options handle o o' e same)
        ]
      ]

-- `mysql_config_create`
unfoldable pub mysql_config_create : Component → Component × ℕ
unfolding add_options
mysql_config_create c = add_options c
