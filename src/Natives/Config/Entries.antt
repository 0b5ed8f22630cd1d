-- ===== src/Natives/Config/Entries.antt =====
-- The lines of a configuration file, in `mysql_connect_config` of src/natives.cpp.
use omp_my_sql.Prelude.{
  ℕ, Bool, ◌&&◌, ◌||◌, List, [], ◌∷◌, Bytes, ◌==◌, is_empty, Option, none, some, if◌then◌else◌,
}

-- `std::getline` until the end of the file.
unfoldable pub lines : Bytes → List Bytes
lines [] = []
lines (c ∷ s) =
    let rest = lines s in
    if c == b'\n'
    then [] ∷ rest
    else elim rest [ [] ↦ (c ∷ []) ∷ [] | line ∷ others ↦ (c ∷ line) ∷ others ]

-- The line up to its comment.
unfoldable strip_comment : Bytes → Bytes
strip_comment [] = []
strip_comment (c ∷ s) =
    let rest = strip_comment s in if c == b'#' || c == b';' then [] else c ∷ rest

-- What stands before and behind the first `=`.
unfoldable split_entry : Bytes → Option (Bytes × Bytes)
split_entry [] = none
split_entry (c ∷ s) =
    let rest = split_entry s in
    if c == b'=' then some ([], s) else elim rest [ none ↦ none | some e ↦ some (c ∷ e.0, e.1) ]

abbrev is_blank : ℕ → Bool
is_blank c = c == b' ' || c == b'\t' || c == b'\r' || c == b'\n'

unfoldable trim_start : Bytes → Bytes
trim_start [] = []
trim_start (c ∷ s) = let rest = trim_start s in if is_blank c then rest else c ∷ s

unfoldable trim_end : Bytes → Bytes
trim_end [] = []
trim_end (c ∷ s) = let rest = trim_end s in if is_empty rest && is_blank c then [] else c ∷ rest

-- `trim`
unfoldable pub trim : Bytes → Bytes
unfolding trim_start trim_end
trim s = trim_end (trim_start s)

-- The key and the value of a line, before `ExpandEnv`.
unfoldable pub entry : Bytes → Option (Bytes × Bytes)
unfolding strip_comment split_entry trim
entry line = elim (split_entry (strip_comment line)) [
  | none ↦ none
  | some e ↦ some (trim e.0, trim e.1)
]
