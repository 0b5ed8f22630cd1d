-- ===== src/Sql.antt =====
-- The two scanners that walk a query byte by byte: `MySQLComponent::isMultiStatement`
-- (src/MySQLComponent.cpp) and `CountPlaceholders` (src/Statement.cpp).
-- Bytes are numbers. `n`, the byte after `c`, is 0 at the end, as in the source; an extra `++i` in
-- a loop's body is the flag `skip`, by which the next byte is passed over.
pub mod Code
pub mod Fragment
mod Tests
use omp_my_sql.Prelude.{
  ℕ, suc, zero, ◌+◌, Bool, true, false, not, ◌&&◌, ◌||◌, List, [], ◌∷◌, Bytes, ◌==◌, leb,
  if◌then◌else◌,
}

-- `enum class S`
pub data LexState : Type 0 where
  normal s_quote d_quote b_quote line_comment block_comment : LexState

-- The byte behind the current one.
abbrev pub peek : Bytes → ℕ
peek [] = 0
peek (c ∷ rest) = c

-- `std::isspace` in the C locale: space, \t, \n, \v, \f, \r.
abbrev pub is_space : ℕ → Bool
is_space c = c == b' ' || (leb 9 c && leb c 13)

-- What one round of the loop of `isMultiStatement` leaves: the state, `++i` and `sawSeparator`.
pub data Round : Type 0 where
  found : Round
  next : LexState → Bool → Bool → Round

unfoldable pub multi_round : LexState → Bool → ℕ → ℕ → Round
multi_round normal sep c n =
    if c == b'\''
    then next s_quote false sep
    else if c == b'"'
    then next d_quote false sep
    else if c == b'`'
    then next b_quote false sep
    else if c == b'-' && n == b'-'
    then next line_comment true sep
    else if c == b'#'
    then next line_comment false sep
    else if c == b'/' && n == b'*'
    then next block_comment true sep
    else if c == b';'
    then next normal false true
    else if sep && not (is_space c)
    then found
    else next normal false sep
multi_round s_quote sep c n =
    if c == b'\\'
    then next s_quote true sep
    else if c == b'\''
    then next normal false sep
    else next s_quote false sep
multi_round d_quote sep c n =
    if c == b'\\'
    then next d_quote true sep
    else if c == b'"'
    then next normal false sep
    else next d_quote false sep
multi_round b_quote sep c n = if c == b'`' then next normal false sep else next b_quote false sep
multi_round line_comment sep c n =
    if c == b'\n' then next normal false sep else next line_comment false sep
multi_round block_comment sep c n =
    if c == b'*' && n == b'/' then next normal true sep else next block_comment false sep

unfoldable pub multi_loop : LexState → Bool → Bool → Bytes → Bool
multi_loop state skip sep [] = false
multi_loop state true sep (c ∷ rest) = multi_loop state false sep rest
multi_loop state false sep (c ∷ rest) = elim (multi_round state sep c (peek rest)) [
  | found ↦ true
  | next state' skip' sep' ↦ multi_loop state' skip' sep' rest
]

-- `MySQLComponent::isMultiStatement`
unfoldable pub is_multi_statement : Bytes → Bool
unfolding multi_loop multi_round
is_multi_statement sql = multi_loop normal false false sql

-- The locals of `CountPlaceholders`; `quote` is 0 or the open quote character.
pub record Counter : Type 0 where
  pub count : ℕ
  pub quote : ℕ
  pub in_line_comment : Bool
  pub in_block_comment : Bool
  pub skip : Bool

unfoldable pub count_round : Counter → ℕ → ℕ → Counter
count_round k c n =
    if k.in_line_comment
    then (if c == b'\n' then record k { in_line_comment = false } else k)
    else if k.in_block_comment
    then (if c == b'*' && n == b'/' then record k { in_block_comment = false; skip = true } else k)
    else if not (k.quote == 0)
    then (if c == b'\\' && not (k.quote == b'`')
        then record k { skip = true }
        else if c == k.quote
        then record k { quote = 0 }
        else k)
    else if c == b'-' && n == b'-'
    then record k { in_line_comment = true; skip = true }
    else if c == b'#'
    then record k { in_line_comment = true }
    else if c == b'/' && n == b'*'
    then record k { in_block_comment = true; skip = true }
    else if c == b'\'' || c == b'"' || c == b'`'
    then record k { quote = c }
    else if c == b'?'
    then record k { count = suc k.count }
    else k

unfoldable pub count_loop : Counter → Bytes → ℕ
count_loop k [] = k.count
count_loop k (c ∷ rest) =
    count_loop (if k.skip then record k { skip = false } else count_round k c (peek rest)) rest

abbrev pub start_counter : Counter
start_counter = record {
  count = 0;
  quote = 0;
  in_line_comment = false;
  in_block_comment = false;
  skip = false;
}

-- `CountPlaceholders`
unfoldable pub count_placeholders : Bytes → ℕ
unfolding count_loop count_round
count_placeholders sql = count_loop start_counter sql
