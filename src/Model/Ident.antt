-- ===== src/Model/Ident.antt =====
-- `ident` of src/Model.cpp, with a separate reader of quoted identifiers.
use omp_my_sql.Prelude.{
  ℕ, false, [], ◌∷◌, ◌++◌, Bytes, codes, ◌==◌, Option, none, some, ◌≡◌, ◌≢◌, refl, arith, ap, sym,
  ◌∙◌, append_assoc, append-nil, if◌then◌else◌,
}
use mathlib.Core.Option
use omp_my_sql.Sql.{b_quote, peek}
use omp_my_sql.Sql.Code.{code_from, classify, code, count}
use omp_my_sql.Sql.Fragment.{IsInert}
use omp_my_sql.Model.{ident, ident_loop}

-- Every backtick twice.
unfoldable pub doubled : Bytes → Bytes
doubled [] = []
doubled (c ∷ s) = if c == b'`' then b'`' ∷ b'`' ∷ doubled s else c ∷ doubled s

ident_loop-doubled : (out s : Bytes) → ident_loop out s ≡ out ++ doubled s
unfolding ident_loop doubled
ident_loop-doubled out [] = sym (append-nil out)
ident_loop-doubled out (c ∷ s) = ground (
  arith,
  ident_loop-doubled (out ++ codes "``") s,
  ident_loop-doubled (out ++ c ∷ []) s,
  append_assoc out (codes "``") (doubled s),
  append_assoc out (c ∷ []) (doubled s),
)

pub ident-doubled : (s : Bytes) → ident s ≡ b'`' ∷ (doubled s ++ codes "`")
unfolding ident
ident-doubled s = ap (λ t. t ++ codes "`") (ident_loop-doubled (codes "`") s)

-- How the server reads a quoted identifier, behind its first backtick: the name, and what follows.
unfoldable pub read_name : Bytes → Option (Bytes × Bytes)
read_name [] = none
read_name (c ∷ []) = if c == b'`' then some ([], []) else none
read_name (c ∷ d ∷ rest) =
    let one = Option.map (λ r. (c ∷ r.0, r.1)) (read_name (d ∷ rest)) in
    let two = Option.map (λ r. (c ∷ r.0, r.1)) (read_name rest) in
    if c == b'`' then (if d == b'`' then two else some ([], d ∷ rest)) else one

unfoldable pub read_ident : Bytes → Option (Bytes × Bytes)
unfolding read_name
read_ident [] = none
read_ident (c ∷ rest) = if c == b'`' then read_name rest else none

read_name-end : (rest : Bytes) → peek rest ≢ b'`' → read_name (b'`' ∷ rest) ≡ some ([], rest)
unfolding read_name
read_name-end [] h = refl
read_name-end (d ∷ rest) h = ground arith

read_name-plain :
    (c : ℕ) (s name rest : Bytes)
    → c ≢ b'`'
    → read_name s ≡ some (name, rest)
    → read_name (c ∷ s) ≡ some (c ∷ name, rest)
unfolding read_name
read_name-plain c [] name rest h e = cc
read_name-plain c (d ∷ s) name rest h e = rw (e, read_name) (ground arith)

read_name-tick :
    (s name rest : Bytes)
    → read_name s ≡ some (name, rest)
    → read_name (b'`' ∷ b'`' ∷ s) ≡ some (b'`' ∷ name, rest)
unfolding read_name
read_name-tick s name rest e = rw (e, read_name) refl

read_name-doubled :
    (s rest : Bytes) → peek rest ≢ b'`' → read_name (doubled s ++ b'`' ∷ rest) ≡ some (s, rest)
unfolding doubled
read_name-doubled [] rest h = read_name-end rest h
read_name-doubled (c ∷ s) rest h = ground (
  arith,
  read_name-plain c (doubled s ++ b'`' ∷ rest) s rest,
  read_name-tick (doubled s ++ b'`' ∷ rest) s rest,
  read_name-doubled s rest h,
)

-- Reading back a quoted identifier gives the identifier and leaves what follows, which must not
-- begin with a backtick.
pub read_ident-ident :
    (s rest : Bytes) → peek rest ≢ b'`' → read_ident (ident s ++ rest) ≡ some (s, rest)
unfolding read_ident
read_ident-ident s rest h =
    rw ident-doubled
      (ap read_name (append_assoc (doubled s) (codes "`") rest) ∙ read_name-doubled s rest h)

code_from-doubled :
    (s rest : Bytes) → code_from b_quote false (doubled s ++ b'`' ∷ rest) ≡ code rest
unfolding code_from classify doubled
code_from-doubled [] rest = refl
code_from-doubled (c ∷ s) rest = ground (arith, code_from-doubled s rest)

-- Nothing in a quoted identifier is code to the scanners.
pub ident-IsInert : (s : Bytes) → IsInert (ident s)
unfolding count
ident-IsInert s = record {
  bytes = [];
  fragment = record {
    reads = λ rest.
        unfold code_from classify in
        rw ident-doubled (
          ap (code_from b_quote false) (append_assoc (doubled s) (codes "`") rest)
          ∙ code_from-doubled s rest);
  };
  no_separator = refl;
  no_placeholder = refl;
}
