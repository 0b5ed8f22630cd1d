-- ===== src/Sql/Fragment.antt =====
-- Pieces of a query that the scanners of `MySQLComponent::isMultiStatement` and
-- `CountPlaceholders` read on their own, whatever stands behind them: quoted identifiers, string
-- literals, numbers and plain SQL.
use omp_my_sql.Prelude.{
  ℕ, ◌+◌, Bool, true, false, not, ◌&&◌, ◌||◌, [], ◌∷◌, ◌++◌, Bytes, ◌==◌, ◌≡◌, ◌≢◌, refl, arith, ap,
  sym, ◌∙◌, append_assoc, append-nil,
}
use omp_my_sql.Sql.{s_quote, is_multi_statement, count_placeholders}
use omp_my_sql.Sql.Code.{
  classify, code_from, code, has_second, count, is_multi_statement-has_second,
  count_placeholders-count,
}

-- From outside quotes and comments, `a` leaves the scanner outside, and has the code bytes `v`.
pub record IsFragment (a v : Bytes) : Type 0 where
  pub reads : (rest : Bytes) → code (a ++ rest) ≡ v ++ code rest

pub IsFragment-nil : IsFragment [] []
IsFragment-nil = record { reads = λ rest. refl }

pub IsFragment-append :
    {a b v w : Bytes} → IsFragment a v → IsFragment b w → IsFragment (a ++ b) (v ++ w)
IsFragment-append {a} {b} {v} {w} f g = record {
  reads = λ rest.
      ap code (append_assoc a b rest)
      ∙ f.reads (b ++ rest)
      ∙ ap (λ t. v ++ t) (g.reads rest)
      ∙ sym (append_assoc v w (code rest));
}

pub code-IsFragment : {a v : Bytes} → IsFragment a v → code a ≡ v
unfolding code_from
code-IsFragment {a} {v} f = ap code (sym (append-nil a)) ∙ f.reads [] ∙ append-nil v

-- No byte that opens a quote or may begin a comment.
abbrev pub is_plain : ℕ → Bool
is_plain c = not (c == b'\'' || c == b'"' || c == b'`' || c == b'-' || c == b'#' || c == b'/')

abbrev pub all_plain : Bytes → Bool
all_plain [] = true
all_plain (c ∷ rest) = is_plain c && all_plain rest

code-is_plain : (c : ℕ) (rest : Bytes) → is_plain c ≡ true → code (c ∷ rest) ≡ c ∷ code rest
unfolding code_from classify
code-is_plain c rest h = ground arith

pub plain-IsFragment : (a : Bytes) → all_plain a ≡ true → IsFragment a a
plain-IsFragment [] h = IsFragment-nil
plain-IsFragment (c ∷ a) h = record {
  reads = λ rest.
      code-is_plain c (a ++ rest) (ground arith)
      ∙ ap (λ t. c ∷ t) ((plain-IsFragment a (ground arith)).reads rest);
}

-- A sign before a number opens no comment.
pub minus-IsFragment :
    (c : ℕ) (a : Bytes) → all_plain (c ∷ a) ≡ true → IsFragment (b'-' ∷ c ∷ a) (b'-' ∷ c ∷ a)
minus-IsFragment c a h = record {
  reads = λ rest.
      unfold code_from classify in ground (arith, (plain-IsFragment a (ground arith)).reads rest);
}

-- What `mysql_real_escape_string` returns: each quote and each backslash has a backslash before it.
pub data IsEscaped : Bytes → Type 0 where
  done : IsEscaped []
  plain : {c : ℕ} {rest : Bytes} → c ≢ b'\'' → c ≢ b'\\' → IsEscaped rest → IsEscaped (c ∷ rest)
  pair : {c : ℕ} (d : ℕ) {rest : Bytes} → c ≡ b'\\' → IsEscaped rest → IsEscaped (c ∷ d ∷ rest)

code_from-IsEscaped :
    {e : Bytes} (rest : Bytes)
    → IsEscaped e
    → code_from s_quote false (e ++ b'\'' ∷ rest) ≡ code rest
unfolding code_from classify
code_from-IsEscaped rest done = refl
code_from-IsEscaped rest (plain p q h) = ground (arith, code_from-IsEscaped rest h)
code_from-IsEscaped rest (pair d p h) = ground (arith, code_from-IsEscaped rest h)

-- `'` + escaped + `'`
pub quoted-IsFragment : {e : Bytes} → IsEscaped e → IsFragment (b'\'' ∷ (e ++ b'\'' ∷ [])) []
quoted-IsFragment {e} h = record {
  reads = λ rest.
      unfold code_from classify in
      ap (code_from s_quote false) (append_assoc e (b'\'' ∷ []) rest) ∙ code_from-IsEscaped rest h;
}

-- A piece that holds neither a separator nor a placeholder outside quotes and comments.
pub record IsInert (a : Bytes) : Type 0 where
  pub bytes : Bytes
  pub fragment : IsFragment a bytes
  pub no_separator : count b';' bytes ≡ 0
  pub no_placeholder : count b'?' bytes ≡ 0

pub count-append : (b : ℕ) (v w : Bytes) → count b (v ++ w) ≡ count b v + count b w
unfolding count
count-append b [] w = omega arith
count-append b (c ∷ v) w = omega (arith, count-append b v w)

pub IsInert-append : {a b : Bytes} → IsInert a → IsInert b → IsInert (a ++ b)
IsInert-append f g = record {
  bytes = f.bytes ++ g.bytes;
  fragment = IsFragment-append f.fragment g.fragment;
  no_separator = omega (arith, count-append b';' f.bytes g.bytes, f.no_separator, g.no_separator);
  no_placeholder =
      omega (arith, count-append b'?' f.bytes g.bytes, f.no_placeholder, g.no_placeholder);
}

pub IsInert-nil : IsInert []
unfolding count
IsInert-nil = record {
  bytes = [];
  fragment = IsFragment-nil;
  no_separator = refl;
  no_placeholder = refl;
}

-- A byte of plain SQL that is no separator and no placeholder.
abbrev pub all_inert : Bytes → Bool
all_inert [] = true
all_inert (c ∷ rest) = is_plain c && not (c == b';') && not (c == b'?') && all_inert rest

count-all_inert :
    (a : Bytes)
    → all_inert a ≡ true
    → (all_plain a ≡ true) × (count b';' a ≡ 0) × (count b'?' a ≡ 0)
unfolding count
count-all_inert [] h = (refl, refl, refl)
count-all_inert (c ∷ a) h = ground (arith, count-all_inert a)

pub all_inert-IsInert : (a : Bytes) → all_inert a ≡ true → IsInert a
all_inert-IsInert a h =
    let k = count-all_inert a h in
    record {
      bytes = a;
      fragment = plain-IsFragment a k.0;
      no_separator = k.1;
      no_placeholder = k.2;
    }

pub quoted-IsInert : {e : Bytes} → IsEscaped e → IsInert (b'\'' ∷ (e ++ b'\'' ∷ []))
unfolding count
quoted-IsInert h = record {
  bytes = [];
  fragment = quoted-IsFragment h;
  no_separator = refl;
  no_placeholder = refl;
}

has_second-count : (v : Bytes) → count b';' v ≡ 0 → has_second v ≡ false
unfolding has_second count
has_second-count [] h = refl
has_second-count (c ∷ v) h = ground (arith, has_second-count v)

pub is_multi_statement-IsInert : {a : Bytes} → IsInert a → is_multi_statement a ≡ false
is_multi_statement-IsInert {a} f =
    is_multi_statement-has_second a
    ∙ ap has_second (code-IsFragment f.fragment)
    ∙ has_second-count f.bytes f.no_separator

pub count_placeholders-IsInert : {a : Bytes} → IsInert a → count_placeholders a ≡ 0
count_placeholders-IsInert {a} f =
    count_placeholders-count a ∙ ap (count b'?') (code-IsFragment f.fragment) ∙ f.no_placeholder
