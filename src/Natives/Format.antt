-- ===== src/Natives/Format.antt =====
-- `mysql_format` of src/natives.cpp. The loop's accumulated output is its result; the flag says that
-- the byte before was a `%`. Values are argument cells, which the AMX passes by reference.
pub mod Safe
use omp_my_sql.Prelude.{
  ℕ, suc, Bool, true, false, not, ◌&&◌, ◌||◌, List, [], ◌∷◌, ◌++◌, Bytes, codes, length, ◌==◌,
  Option, none, some, if◌then◌else◌,
}
use omp_my_sql.Prelude.Int.{ℤ, pos, negsuc}
use omp_my_sql.Prelude.Decimal.{to_string}
use omp_my_sql.Amx.{Amx}
use omp_my_sql.Model.Literals.{escaped}

-- The loop of `%q`: every backtick is doubled.
unfoldable pub doubled_ticks : Bytes → Bytes
doubled_ticks [] = []
doubled_ticks (c ∷ s) =
    let rest = doubled_ticks s in if c == b'`' then b'`' ∷ c ∷ rest else c ∷ rest

-- The specifiers that take a value.
abbrev pub takes_value : ℕ → Bool
takes_value spec =
    spec == b'd' || spec == b'i' || spec == b'f' || spec == b's' || spec == b'e' || spec == b'q'

module _ (a : Amx) (conn : Option (Bytes → Bytes)) (mem : a.Memory) where
  -- `AmxStringParam`
  unfoldable pub amx_string_param : ℤ → Bytes
  amx_string_param param = elim (a.address mem param) [ none ↦ [] | some p ↦ a.string_at mem p ]

  -- The cell behind an argument, 0 if there is none.
  abbrev pub cell_param : ℤ → ℤ
  cell_param param = elim (a.address mem param) [ none ↦ pos 0 | some p ↦ a.cell_at mem p ]

  -- The text of a specifier with a value.
  unfoldable pub value_text : ℕ → ℤ → Bytes
  unfolding amx_string_param doubled_ticks escaped
  value_text spec param =
      if spec == b'd' || spec == b'i'
      then to_string (cell_param param)
      else if spec == b'f'
      then a.float_text (cell_param param)
      else if spec == b's'
      then amx_string_param param
      else if spec == b'e'
      then escaped conn (amx_string_param param)
      else codes "`" ++ (doubled_ticks (amx_string_param param) ++ codes "`")

  -- The text of a specifier, and the values that are left.
  unfoldable pub spec_text : ℕ → List ℤ → Bytes × List ℤ
  unfolding value_text
  spec_text spec [] = if spec == b'%' then (codes "%", []) else (b'%' ∷ spec ∷ [], [])
  spec_text spec (v ∷ vs) =
      if spec == b'%'
      then (codes "%", v ∷ vs)
      else if takes_value spec
      then (value_text spec v, vs)
      else (b'%' ∷ spec ∷ [], v ∷ vs)

  -- A `%` at the end is dropped.
  unfoldable pub format_loop : Bool → Bytes → List ℤ → Bytes
  unfolding spec_text
  format_loop percent [] vs = []
  format_loop true (spec ∷ rest) vs =
      let (text, vs') = spec_text spec vs in text ++ format_loop false rest vs'
  format_loop false (c ∷ rest) vs =
      let next = format_loop (c == b'%') rest vs in if c == b'%' then next else c ∷ next

  -- `WriteAmxString`
  unfoldable pub write_amx_string : ℤ → Bytes → ℤ → a.Memory
  write_amx_string dest s (negsuc n) = mem
  write_amx_string dest s (pos n) = elim (a.address mem dest) [
    | none ↦ mem
    | some p ↦ if n == 0 then mem else a.set_string mem p s (pos n)
  ]

  -- `n_mysql_format` behind its count of arguments: output, maxlen, format and values.
  unfoldable pub mysql_format : ℤ → ℤ → ℤ → List ℤ → a.Memory × ℕ
  unfolding format_loop write_amx_string
  mysql_format output maxlen format values =
      let out = format_loop false (amx_string_param format) values in
      (write_amx_string output out maxlen, length out)
