-- ===== src/Sql/Code.antt =====
-- An independent reading of the two scanners of src/MySQLComponent.cpp and src/Statement.cpp: one
-- lexer that yields the bytes of a query that stand outside quotes and comments.
use omp_my_sql.Prelude.{
  ℕ, suc, ◌+◌, Bool, true, false, not, ◌&&◌, ◌||◌, [], ◌∷◌, Bytes, ◌==◌, if◌then◌else◌, ◌≡◌, refl,
  arith, ap, ◌∙◌,
}
use omp_my_sql.Sql.{
  LexState, normal, s_quote, d_quote, b_quote, line_comment, block_comment, peek, is_space, Round,
  found, next, multi_round, multi_loop, is_multi_statement, Counter, count_round, count_loop,
  count_placeholders,
}

-- The class of one byte in a state: the state behind it, whether the next byte belongs to the
-- same token, and whether it is a byte of code.
pub record Class : Type 0 where
  pub state : LexState
  pub skip : Bool
  pub is_code : Bool

abbrev class : LexState → Bool → Bool → Class
class s k v = record { state = s; skip = k; is_code = v }

unfoldable pub classify : LexState → ℕ → ℕ → Class
classify normal c n =
    if c == b'\''
    then class s_quote false false
    else if c == b'"'
    then class d_quote false false
    else if c == b'`'
    then class b_quote false false
    else if c == b'-' && n == b'-'
    then class line_comment true false
    else if c == b'#'
    then class line_comment false false
    else if c == b'/' && n == b'*'
    then class block_comment true false
    else class normal false true
classify s_quote c n = class (if c == b'\'' then normal else s_quote) (c == b'\\') false
classify d_quote c n = class (if c == b'"' then normal else d_quote) (c == b'\\') false
classify b_quote c n = class (if c == b'`' then normal else b_quote) false false
classify line_comment c n = class (if c == b'\n' then normal else line_comment) false false
classify block_comment c n =
    let ends = c == b'*' && n == b'/' in class (if ends then normal else block_comment) ends false

-- The code bytes of a query, from a state on.
unfoldable pub code_from : LexState → Bool → Bytes → Bytes
code_from state skip [] = []
code_from state true (c ∷ rest) = code_from state false rest
code_from state false (c ∷ rest) =
    let k = classify state c (peek rest) in
    let tail = code_from k.state k.skip rest in if k.is_code then c ∷ tail else tail

abbrev pub code : Bytes → Bytes
code = code_from normal false

-- Code behind a separator: a byte that is neither `;` nor white space.
unfoldable pub has_more : Bytes → Bool
has_more [] = false
has_more (c ∷ rest) = (not (c == b';') && not (is_space c)) || has_more rest

-- A `;` with code behind it.
unfoldable pub has_second : Bytes → Bool
unfolding has_more
has_second [] = false
has_second (c ∷ rest) = if c == b';' then has_more rest else has_second rest

unfoldable pub count : ℕ → Bytes → ℕ
count b [] = 0
count b (c ∷ rest) = (if c == b then 1 else 0) + count b rest

abbrev has : Bool → Bytes → Bool
has sep bs = if sep then has_more bs else has_second bs

-- What `isMultiStatement` does with a byte, by its class.
round_of : Class → Bool → ℕ → Round
round_of k sep c =
    if not k.is_code
    then next k.state k.skip sep
    else if c == b';'
    then next k.state k.skip true
    else if sep && not (is_space c)
    then found
    else next k.state k.skip sep

multi_round-round_of :
    (s : LexState) (sep : Bool) (c n : ℕ) → multi_round s sep c n ≡ round_of (classify s c n) sep c
unfolding multi_round round_of classify
multi_round-round_of normal sep c n = ground arith
multi_round-round_of _ sep c n = ground arith

abbrev continue : Round → Bytes → Bool
continue found rest = true
continue (next s k sep) rest = multi_loop s k sep rest

continue-has :
    (k : Class) (sep : Bool) (c : ℕ) (rest : Bytes)
    → ((sep' : Bool)
        → multi_loop k.state k.skip sep' rest ≡ has sep' (code_from k.state k.skip rest))
    → let tail = code_from k.state k.skip rest in
      continue (round_of k sep c) rest ≡ has sep (if k.is_code then c ∷ tail else tail)
unfolding round_of has_second
continue-has k sep c rest ih = ground (arith, ih true, ih false)

multi_loop-continue :
    (s : LexState) (sep : Bool) (c : ℕ) (rest : Bytes)
    → multi_loop s false sep (c ∷ rest) ≡ continue (multi_round s sep c (peek rest)) rest
unfolding multi_loop
multi_loop-continue s sep c rest = ground arith

multi_loop-has :
    (state : LexState) (skip sep : Bool) (sql : Bytes)
    → multi_loop state skip sep sql ≡ has sep (code_from state skip sql)
unfolding multi_loop code_from has_second
multi_loop-has state skip true [] = refl
multi_loop-has state skip false [] = refl
multi_loop-has state true sep (c ∷ rest) = multi_loop-has state false sep rest
multi_loop-has state false sep (c ∷ rest) =
    multi_loop-continue state sep c rest
    ∙ ap (λ r. continue r rest) (multi_round-round_of state sep c (peek rest))
    ∙ (let k = classify state c (peek rest) in
        continue-has k sep c rest (λ sep'. multi_loop-has k.state k.skip sep' rest))

-- `isMultiStatement` says whether a `;` outside quotes and comments has a byte of code behind it that
-- is neither `;` nor white space. Quotes and comments are no code here, executable comments included:
-- a second statement that consists of them alone is not seen.
pub is_multi_statement-has_second : (sql : Bytes) → is_multi_statement sql ≡ has_second (code sql)
unfolding is_multi_statement
is_multi_statement-has_second sql = multi_loop-has normal false false sql

-- The state that the locals of `CountPlaceholders` stand for.
abbrev quote_of : LexState → ℕ
quote_of s_quote = b'\''
quote_of d_quote = b'"'
quote_of b_quote = b'`'
quote_of _ = 0

abbrev in_line : LexState → Bool
in_line line_comment = true
in_line _ = false

abbrev in_block : LexState → Bool
in_block block_comment = true
in_block _ = false

abbrev counter : ℕ → LexState → Bool → Counter
counter n s skip = record {
  count = n;
  quote = quote_of s;
  in_line_comment = in_line s;
  in_block_comment = in_block s;
  skip = skip;
}

abbrev count_of : Class → ℕ → ℕ → Counter
count_of k m c = counter (if k.is_code && c == b'?' then suc m else m) k.state k.skip

count_round-count_of :
    (s : LexState) (m c n : ℕ) → count_round (counter m s false) c n ≡ count_of (classify s c n) m c
unfolding count_round classify
count_round-count_of normal m c n = ground arith
count_round-count_of _ m c n = ground arith

count_of-count :
    (k : Class) (m c : ℕ) (rest : Bytes)
    → ((m' : ℕ)
        → count_loop (counter m' k.state k.skip) rest
          ≡ m' + count b'?' (code_from k.state k.skip rest))
    → let tail = code_from k.state k.skip rest in
      count_loop (count_of k m c) rest ≡ m + count b'?' (if k.is_code then c ∷ tail else tail)
unfolding count
count_of-count k m c rest ih = ground (arith, ih m, ih (suc m))

count_loop-count :
    (s : LexState) (skip : Bool) (m : ℕ) (sql : Bytes)
    → count_loop (counter m s skip) sql ≡ m + count b'?' (code_from s skip sql)
unfolding count_loop code_from count
count_loop-count s skip m [] = omega arith
count_loop-count s true m (c ∷ rest) = count_loop-count s false m rest
count_loop-count s false m (c ∷ rest) =
    ap (λ k. count_loop k rest) (count_round-count_of s m c (peek rest))
    ∙ (let k = classify s c (peek rest) in
        count_of-count k m c rest (λ m'. count_loop-count k.state k.skip m' rest))

-- `CountPlaceholders` counts the `?` outside quotes and comments, by the same reading of the query.
pub count_placeholders-count : (sql : Bytes) → count_placeholders sql ≡ count b'?' (code sql)
unfolding count_placeholders
count_placeholders-count sql = count_loop-count normal false 0 sql ∙ omega arith
