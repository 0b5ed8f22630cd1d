-- ===== src/Natives/Format/Safe.antt =====
-- Formats of `mysql_format` (src/natives.cpp) in pieces, and what the scanners read of them.
use omp_my_sql.Prelude.{
  ℕ, ◌+◌, ◌≤◌, Bool, true, false, not, ◌&&◌, List, [], ◌∷◌, ◌++◌, append_assoc, Bytes, codes,
  length, ◌==◌, some, All, subst, ◌≡◌, refl, sym, ◌∙◌, ap, arith,
}
use omp_my_sql.Prelude.Int.{ℤ}
use omp_my_sql.Amx.{Amx}
use omp_my_sql.Sql.{is_multi_statement, count_placeholders}
use omp_my_sql.Sql.Fragment.{
  IsInert, IsInert-nil, IsInert-append, all_inert, all_inert-IsInert, IsEscaped, quoted-IsInert,
  is_multi_statement-IsInert, count_placeholders-IsInert,
}
use omp_my_sql.Model.Ident.{doubled, ident-doubled, ident-IsInert}
use omp_my_sql.Model.Inert.Numbers.{to_string-IsInert}
use omp_my_sql.Natives.Format.{doubled_ticks, format_loop, spec_text, value_text, amx_string_param}

-- A piece of a format: plain SQL, a quoted value `'%e'`, an identifier `%q`, or a number `%d`.
pub data Piece : Type 0 where
  verbatim : Bytes → Piece
  quoted_value identifier number : Piece

abbrev pub text_of : Piece → Bytes
text_of (verbatim b) = b
text_of quoted_value = codes "'%e'"
text_of identifier = codes "%q"
text_of number = codes "%d"

abbrev pub format_of : List Piece → Bytes
format_of [] = []
format_of (p ∷ ps) = text_of p ++ format_of ps

abbrev pub takes : Piece → ℕ
takes (verbatim b) = 0
takes _ = 1

abbrev pub values_taken : List Piece → ℕ
values_taken [] = 0
values_taken (p ∷ ps) = takes p + values_taken ps

abbrev pub no_percent : Bytes → Bool
no_percent [] = true
no_percent (c ∷ b) = not (c == b'%') && no_percent b

-- Plain SQL has no quote, comment sign, separator, placeholder or percent sign.
abbrev pub IsPlain : Piece → Type 0
IsPlain (verbatim b) = (all_inert b ≡ true) × (no_percent b ≡ true)
IsPlain _ = Unit

doubled_ticks-doubled : (s : Bytes) → doubled_ticks s ≡ doubled s
unfolding doubled_ticks doubled
doubled_ticks-doubled [] = refl
doubled_ticks-doubled (c ∷ s) = ground (arith, doubled_ticks-doubled s)

identifier-IsInert : (s : Bytes) → IsInert (codes "`" ++ (doubled_ticks s ++ codes "`"))
identifier-IsInert s =
    subst IsInert
      (ident-doubled s ∙ ap (λ t. b'`' ∷ (t ++ codes "`")) (sym (doubled_ticks-doubled s)))
      (ident-IsInert s)

module _ (a : Amx) (escape : Bytes → Bytes) (mem : a.Memory)
    (escapes : (v : Bytes) → IsEscaped (escape v)) where
  format_loop-verbatim :
      (b rest : Bytes) (vs : List ℤ)
      → no_percent b ≡ true
      → format_loop a (some escape) mem false (b ++ rest) vs
        ≡ b ++ format_loop a (some escape) mem false rest vs
  unfolding format_loop
  format_loop-verbatim [] rest vs h = refl
  format_loop-verbatim (c ∷ b) rest vs h = ground (arith, format_loop-verbatim b rest vs)

  format_loop-IsInert :
      (ps : List Piece) (vs : List ℤ)
      → All IsPlain ps
      → values_taken ps ≤ length vs
      → IsInert (format_loop a (some escape) mem false (format_of ps) vs)
  unfolding format_loop spec_text value_text
  format_loop-IsInert [] vs h n = IsInert-nil
  format_loop-IsInert (verbatim b ∷ ps) vs h n =
      rw (format_loop-verbatim b (format_of ps) vs h.0.1) (
        IsInert-append (all_inert-IsInert b h.0.0)
          (format_loop-IsInert ps vs h.1 (omega (arith, n))))
  format_loop-IsInert (quoted_value ∷ ps) [] h n = absurd (omega (arith, n))
  format_loop-IsInert (identifier ∷ ps) [] h n = absurd (omega (arith, n))
  format_loop-IsInert (number ∷ ps) [] h n = absurd (omega (arith, n))
  format_loop-IsInert (quoted_value ∷ ps) (v ∷ vs) h n =
      let value = escape (amx_string_param a (some escape) mem v) in
      let rest = format_loop a (some escape) mem false (format_of ps) vs in
      subst IsInert (ap (λ t. b'\'' ∷ t) (append_assoc value (b'\'' ∷ []) rest)) (
        IsInert-append (quoted-IsInert (escapes (amx_string_param a (some escape) mem v)))
          (format_loop-IsInert ps vs h.1 (omega (arith, n))))
  format_loop-IsInert (identifier ∷ ps) (v ∷ vs) h n =
      IsInert-append (identifier-IsInert (amx_string_param a (some escape) mem v))
        (format_loop-IsInert ps vs h.1 (omega (arith, n)))
  format_loop-IsInert (number ∷ ps) (v ∷ vs) h n =
      IsInert-append (to_string-IsInert _) (format_loop-IsInert ps vs h.1 (omega (arith, n)))

  -- A format of plain SQL in which values stand as '%e', %q and %d only, with a value for each, gives
  -- a single statement without placeholders, whatever the values are, if the client library escapes
  -- every quote and backslash.
  pub format_loop-single :
      (ps : List Piece) (vs : List ℤ)
      → All IsPlain ps
      → values_taken ps ≤ length vs
      → let out = format_loop a (some escape) mem false (format_of ps) vs in
        (is_multi_statement out ≡ false) × (count_placeholders out ≡ 0)
  format_loop-single ps vs h n =
      let f = format_loop-IsInert ps vs h n in
      (is_multi_statement-IsInert f, count_placeholders-IsInert f)
