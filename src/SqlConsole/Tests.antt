-- ===== src/SqlConsole/Tests.antt =====
-- The SQL console at concrete texts.
use phimtor.Base.{
  ◌==◌, ◌||◌, ◌-◌, ◌&&◌, leb, List, [], ◌∷◌, ◌++◌, some, All, if◌then◌else◌, ◌≡◌, refl, true, arith,
}
use phimtor.Base.Bytes.{Bytes, codes, after_prefix}
use phimtor.SqlConsole.{
  Unicode, quote_sql, dump_table, skip_comments, returns_rows, statement_returns_rows, first_word,
  trim_left, is_line_comment, is_block_comment,
}
use phimtor.SqlConsole.Quoting.{read_string, read_string-quote_sql}
use phimtor.SqlConsole.Dumping.{groups, statements, joined, IsSmall, dump_table-statements}

abbrev ascii : Unicode
ascii = record {
  is_space = λ c. c == 32 || c == 10 || c == 9;
  is_letter = λ c. (leb b'a' c && leb c b'z') || (leb b'A' c && leb c b'Z');
  to_upper = λ c. if leb b'a' c then c - 32 else c;
}

read_string-quote_sql_example :
    read_string (quote_sql (codes "it's\\") ++ codes ", 1") ≡ some (codes "it's\\", codes ", 1")
read_string-quote_sql_example = read_string-quote_sql (codes "it's\\") (codes ", 1") (omega arith)

abbrev some_rows : List Bytes
some_rows = codes "(1)" ∷ codes "(2)" ∷ codes "(3)" ∷ []

dump_table-statements_example :
    dump_table (codes "I ") some_rows ≡ statements (codes "I ") (groups some_rows)
    × joined (groups some_rows) ≡ some_rows
    × All IsSmall (groups some_rows)
dump_table-statements_example =
    dump_table-statements (codes "I ") some_rows (omega arith, (omega arith, (omega arith, tt)))

select_has_rows : returns_rows ascii (codes " select 1") ≡ true
unfolding returns_rows skip_comments statement_returns_rows first_word trim_left is_line_comment
    after_prefix is_block_comment
select_has_rows = refl
