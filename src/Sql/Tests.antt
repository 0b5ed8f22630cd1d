-- ===== src/Sql/Tests.antt =====
-- The scanners of src/MySQLComponent.cpp and src/Statement.cpp on concrete queries.
use omp_my_sql.Prelude.{true, false, Bytes, codes, ◌≡◌, refl}
use omp_my_sql.Sql.{is_multi_statement, count_placeholders}
use omp_my_sql.Sql.Code.{
  code, has_second, count, is_multi_statement-has_second, count_placeholders-count,
}

abbrev stacked : Bytes
stacked = codes "SELECT 1 -- a;b\n; DROP TABLE t"

abbrev quoted : Bytes
quoted = codes "SELECT '?;' FROM `a?` WHERE b = ? AND c = ? -- ?"

stacked_found : is_multi_statement stacked ≡ true
unfolding is_multi_statement
stacked_found = refl

trailing_separator : is_multi_statement (codes "SELECT 1;  \n") ≡ false
unfolding is_multi_statement
trailing_separator = refl

quoted_single : is_multi_statement quoted ≡ false
unfolding is_multi_statement
quoted_single = refl

-- A literal that opens the second statement goes unseen, since only code bytes count.
quoted_second : is_multi_statement (codes "SELECT 1; 'x'") ≡ false
unfolding is_multi_statement
quoted_second = refl

quoted_count : count_placeholders quoted ≡ 2
unfolding count_placeholders
quoted_count = refl

is_multi_statement-has_second_example : is_multi_statement stacked ≡ has_second (code stacked)
is_multi_statement-has_second_example = is_multi_statement-has_second stacked

count_placeholders-count_example : count_placeholders quoted ≡ count b'?' (code quoted)
count_placeholders-count_example = count_placeholders-count quoted
