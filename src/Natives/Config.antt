-- ===== src/Natives/Config.antt =====
-- The configuration file of `mysql_connect_config`, and the native itself, of src/natives.cpp. The
-- environment, the content of the file and the address of the new connection object are parameters.
-- The debug output that the file can turn on is left out.
pub mod Entries
use omp_my_sql.Prelude.{
  ℕ, Bool, true, false, List, [], ◌∷◌, Bytes, codes, eq_bytes, Option, none, some, ◌≡◌, refl, ◌⊎◌,
  ◌||◌, if◌then◌else◌, ◌∙◌, inl, inr, Option-cases, arith,
}
use omp_my_sql.Prelude.Int.{ℤ, pos, negsuc}
use omp_my_sql.Prelude.Map.{KeysBelow}
use omp_my_sql.Connection.Options.{ConnectionOptions, default_options, with_ssl_mode, to_unsigned}
use omp_my_sql.Connection.Open.{Build}
use omp_my_sql.Connection.Client.{Driver, Connection}
use omp_my_sql.Component.{Component, get_connection, multi_statements_allowed}
use omp_my_sql.Component.Cache.Cells.{parse_int}
use omp_my_sql.Natives.Environment.{expand_env}
use omp_my_sql.Natives.Obfuscation.{cfg_decode_if_needed}
use omp_my_sql.Natives.Connect.{do_connect, do_connect-registered}
use omp_my_sql.Natives.Config.Entries.{lines, entry}

-- `val == "1" || val == "true"`
abbrev is_true : Bytes → Bool
is_true val = eq_bytes val (codes "1") || eq_bytes val (codes "true")

-- What an entry of the file sets.
unfoldable pub apply_entry : Bytes → Bytes → ConnectionOptions → ConnectionOptions
unfolding parse_int with_ssl_mode
apply_entry key val o =
    if eq_bytes key (codes "host")
    then record o { host = val }
    else if eq_bytes key (codes "user")
    then record o { user = val }
    else if eq_bytes key (codes "password")
    then record o { password = val }
    else if eq_bytes key (codes "database")
    then record o { database = val }
    else if eq_bytes key (codes "port")
    then record o { port = to_unsigned (parse_int val) }
    else if eq_bytes key (codes "ssl_mode")
    then with_ssl_mode o (parse_int val)
    else if eq_bytes key (codes "ssl_ca")
    then record o { ssl_ca = val }
    else if eq_bytes key (codes "ssl_cert")
    then record o { ssl_cert = val }
    else if eq_bytes key (codes "ssl_key")
    then record o { ssl_key = val }
    else if eq_bytes key (codes "ssl_crl")
    then record o { ssl_crl = val }
    else if eq_bytes key (codes "tls_version")
    then record o { tls_version = val }
    else if eq_bytes key (codes "compression")
    then record o { compression = val }
    else if eq_bytes key (codes "auto_reconnect")
    then record o { auto_reconnect = is_true val }
    else o

-- A round of the loop of `mysql_connect_config`.
unfoldable pub config_line : (Bytes → Option Bytes) → Bytes → ConnectionOptions → ConnectionOptions
unfolding entry apply_entry
config_line env line o = elim (entry line) [
  | none ↦ o
  | some e ↦ apply_entry e.0 (expand_env env e.1) o
]

-- The loop, over the lines of the decoded file.
unfoldable pub config_loop :
    (Bytes → Option Bytes) → List Bytes → ConnectionOptions → ConnectionOptions
unfolding config_line
config_loop env [] o = o
config_loop env (line ∷ rest) o = config_loop env rest (config_line env line o)

-- The options that a file gives.
unfoldable pub config_options : (Bytes → Option Bytes) → Bytes → ConnectionOptions
unfolding config_loop lines cfg_decode_if_needed
config_options env raw =
    config_loop env (lines (cfg_decode_if_needed (env (codes "OMP_CFG_KEY")) raw)) default_options

-- `mysql_connect_config`; the file is `none` if it cannot be opened.
unfoldable pub mysql_connect_config :
    (d : Driver)
    → Build
    → (Bytes → Option Bytes)
    → Component
    → ℕ
    → Option Bytes
    → Component × ℕ × Option (Connection d)
unfolding do_connect config_options
mysql_connect_config d build env c address none = (c, 0, none)
mysql_connect_config d build env c address (some raw) =
    let (c', handle, conn) = do_connect d build c address (config_options env raw) in
    (c', handle, some conn)

with_ssl_mode-multi :
    (o : ConnectionOptions) (v : ℤ) → (with_ssl_mode o v).multi_statements ≡ o.multi_statements
unfolding with_ssl_mode
with_ssl_mode-multi o (negsuc n) = refl
with_ssl_mode-multi o (pos n) = ground arith

-- No entry asks for multi-statements.
apply_entry-multi :
    (key val : Bytes) (o : ConnectionOptions)
    → (apply_entry key val o).multi_statements ≡ o.multi_statements
unfolding apply_entry
apply_entry-multi key val o = ground (arith, with_ssl_mode-multi o (parse_int val))

config_loop-multi :
    (env : Bytes → Option Bytes) (text : List Bytes) (o : ConnectionOptions)
    → (config_loop env text o).multi_statements ≡ o.multi_statements
unfolding config_loop config_line
config_loop-multi env [] o = refl
config_loop-multi env (line ∷ rest) o = elim (Option-cases (entry line)) [
  | inl e ↦ config_loop-multi env rest (config_line env line o) ∙ rw (config_line, e) refl
  | inr (e, found) ↦
      config_loop-multi env rest (config_line env line o)
      ∙ rw (config_line, found) (apply_entry-multi e.0 (expand_env env e.1) o)
]

config_options-multi :
    (env : Bytes → Option Bytes) (raw : Bytes) → (config_options env raw).multi_statements ≡ false
unfolding config_options
config_options-multi env raw =
    config_loop-multi env (lines (cfg_decode_if_needed (env (codes "OMP_CFG_KEY")) raw))
      default_options

-- Whatever the file and the environment hold, the component, whose connections are numbered below its
-- next handle, either is as it was, and the handle is 0; or the handle stands for the new connection,
-- and multi-statements are not allowed on it.
pub mysql_connect_config-single :
    (d : Driver) (build : Build) (env : Bytes → Option Bytes) (c : Component) (address : ℕ)
    (file : Option Bytes)
    → KeysBelow c.next_handle c.connections
    → let (c', handle, conn) = mysql_connect_config d build env c address file in
      ((handle ≡ 0) × (c' ≡ c))
      ⊎ ((get_connection c' handle ≡ some address) × (multi_statements_allowed c' handle ≡ false))
unfolding mysql_connect_config
mysql_connect_config-single d build env c address none below = inl (refl, refl)
mysql_connect_config-single d build env c address (some raw) below =
    elim (do_connect-registered d build c address (config_options env raw) below) [
      | inl refused ↦ inl refused
      | inr (opened, known, free, taken, allowed) ↦
          inr (taken, allowed ∙ config_options-multi env raw)
    ]
