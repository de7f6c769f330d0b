-- ===== src/SqlConsole.antt =====
-- admin/sqlconsole.go: the SQL console and the database dump. Texts are bytes; `returnsRows` reads code
-- points, and what Unicode says of them is an argument. The database, and the text that the library
-- gives floats and times, are arguments.
pub mod Quoting
pub mod Statements
pub mod Dumping
mod Tests
use phimtor.Base.{
  ℕ, zero, suc, ◌+◌, ◌-◌, ◌/◌, ◌%◌, Bool, true, false, not, ◌&&◌, ◌||◌, Option, none, some, List,
  [], ◌∷◌, ◌++◌, length, leb, ltb, ◌==◌, String, if◌then◌else◌,
}
use phimtor.Base.Bytes.{Bytes, codes, same_bytes, after_prefix, after_byte}
use phimtor.Base.Decimal.{decimal}

abbrev pub sql_max_rows : ℕ
sql_max_rows = 1000

abbrev pub sql_max_cell_runes : ℕ
sql_max_cell_runes = 300

abbrev pub dump_batch_bytes : ℕ
dump_batch_bytes = 1048576

-- One byte inside the quotes.
pub quoted_byte : ℕ → Bytes
quoted_byte c =
    if c == 0
    then b'\\' ∷ b'0' ∷ []
    else if c == 10
    then b'\\' ∷ b'n' ∷ []
    else if c == 13
    then b'\\' ∷ b'r' ∷ []
    else if c == b'\\'
    then b'\\' ∷ b'\\' ∷ []
    else if c == b'\''
    then b'\\' ∷ b'\'' ∷ []
    else if c == b'"'
    then b'\\' ∷ b'"' ∷ []
    else if c == 26
    then b'\\' ∷ b'Z' ∷ []
    else c ∷ []

pub quoted_bytes : Bytes → Bytes
unfolding quoted_byte
quoted_bytes [] = []
quoted_bytes (c ∷ s) = quoted_byte c ++ quoted_bytes s

pub quote_sql : Bytes → Bytes
unfolding quoted_bytes
quote_sql s = b'\'' ∷ (quoted_bytes s ++ b'\'' ∷ [])

abbrev pub backtick : ℕ
backtick = b'`'

pub doubled_backticks : Bytes → Bytes
doubled_backticks [] = []
doubled_backticks (c ∷ s) =
    let rest = doubled_backticks s in if c == backtick then backtick ∷ backtick ∷ rest else c ∷ rest

pub quote_ident : Bytes → Bytes
unfolding doubled_backticks
quote_ident name = backtick ∷ (doubled_backticks name ++ backtick ∷ [])

abbrev pub hex_digit : ℕ → ℕ
hex_digit n = if ltb n 10 then b'0' + n else b'a' + (n - 10)

-- hex.EncodeToString
pub hex : Bytes → Bytes
hex [] = []
hex (c ∷ s) = hex_digit (c / 16) ∷ hex_digit (c % 16) ∷ hex s

-- A scanned value, by the types that the code tells apart. A float and a time come with their text.
pub data SqlValue : Type 0 where
  null : SqlValue
  int64 : Bool → ℕ → SqlValue
  uint64 : ℕ → SqlValue
  float : Bytes → SqlValue
  bool : Bool → SqlValue
  time : Bytes → SqlValue
  bytes : Bytes → SqlValue
  other : Bytes → SqlValue

pub write_int : Bool → ℕ → Bytes
write_int negative n = if negative then b'-' ∷ decimal n else decimal n

pub write_binary : Bytes → Bytes
unfolding hex
write_binary [] = b'\'' ∷ b'\'' ∷ []
write_binary (c ∷ s) = b'0' ∷ b'x' ∷ hex (c ∷ s)

pub write_sql_value : SqlValue → Bool → Bytes
unfolding quote_sql write_binary write_int
write_sql_value null binary = codes "NULL"
write_sql_value (int64 negative n) binary = write_int negative n
write_sql_value (uint64 n) binary = decimal n
write_sql_value (float text) binary = text
write_sql_value (bool b) binary = if b then b'1' ∷ [] else b'0' ∷ []
write_sql_value (time text) binary = quote_sql text
write_sql_value (bytes s) binary = if binary then write_binary s else quote_sql s
write_sql_value (other text) binary = quote_sql text

-- One row of the dump: each value with whether its column is binary.
pub written : Bool → SqlValue × Bool → Bytes
unfolding write_sql_value
written blobs (v, binary) = write_sql_value (if binary && not blobs then null else v) binary

pub write_more : Bool → List (SqlValue × Bool) → Bytes
unfolding written
write_more blobs [] = []
write_more blobs (v ∷ vs) = b',' ∷ (written blobs v ++ write_more blobs vs)

pub write_values : Bool → List (SqlValue × Bool) → Bytes
unfolding write_more
write_values blobs [] = []
write_values blobs (v ∷ vs) = written blobs v ++ write_more blobs vs

pub write_row : Bool → List (SqlValue × Bool) → Bytes
unfolding write_values
write_row blobs vs = b'(' ∷ (write_values blobs vs ++ b')' ∷ [])

-- The loop of `dumpTable` over the rows as they are written: `batch` is the bytes in the open INSERT.
-- The output so far comes first.
pub dump_rows : Bytes → ℕ → List Bytes → Bytes × ℕ
dump_rows insert batch [] = ([], batch)
dump_rows insert batch (row ∷ rows) =
    let (closed, after) = dump_rows insert 0 rows in
    let (kept, after') = dump_rows insert (batch + length row) rows in
    let start = if batch == 0 then insert else b',' ∷ 10 ∷ [] in
    if leb dump_batch_bytes (batch + length row)
    then (start ++ (row ++ (b';' ∷ 10 ∷ closed)), after)
    else (start ++ (row ++ kept), after')

pub dump_table : Bytes → List Bytes → Bytes
unfolding dump_rows
dump_table insert rows =
    let (out, batch) = dump_rows insert 0 rows in if ltb 0 batch then out ++ b';' ∷ 10 ∷ [] else out

-- Any "1" wins, and a missing flag is on.
pub any_one : List Bytes → Bool
any_one [] = false
any_one (v ∷ vs) = let rest = any_one vs in if same_bytes v (b'1' ∷ []) then true else rest

pub flag_param : Option (List Bytes) → Bool
unfolding any_one
flag_param none = true
flag_param (some vals) = any_one vals

pub is_known : Bytes → List Bytes → Bool
is_known name [] = false
is_known name (t ∷ tables) =
    let rest = is_known name tables in if same_bytes t name then true else rest

-- The wanted tables, if all of them exist.
pub known_tables : List Bytes → List Bytes → Option (List Bytes)
unfolding is_known
known_tables all_tables [] = some []
known_tables all_tables (name ∷ want) =
    let rest = known_tables all_tables want in
    if is_known name all_tables
    then elim rest [ none ↦ none | some names ↦ some (name ∷ names) ]
    else none

pub dump_tables : List Bytes → List Bytes → Option (List Bytes)
unfolding known_tables
dump_tables all_tables [] = some all_tables
dump_tables all_tables (name ∷ want) = known_tables all_tables (name ∷ want)

abbrev pub take : ℕ → Bytes → Bytes
take zero s = []
take (suc n) [] = []
take (suc n) (c ∷ s) = c ∷ take n s

pub record SqlCell : Type 0 where
  pub text : Bytes
  pub is_null : Bool
  pub is_blob : Bool
  pub is_clipped : Bool

-- On code points; the mark at the end is the one of "…".
pub clip_cell : Bytes → SqlCell
clip_cell s =
    if leb (length s) sql_max_cell_runes
    then record { text = s; is_null = false; is_blob = false; is_clipped = false }
    else record {
      text = take sql_max_cell_runes s ++ 8230 ∷ [];
      is_null = false;
      is_blob = false;
      is_clipped = true;
    }

-- What follows the first "*/".
pub after_block : Bytes → Option Bytes
after_block [] = none
after_block (c ∷ s) = elim (after_prefix (b'*' ∷ b'/' ∷ []) (c ∷ s)) [
  | none ↦ after_block s
  | some rest ↦ some rest
]

pub has_prefix : Bytes → Bytes → Bool
has_prefix p s = elim (after_prefix p s) [ none ↦ false | some _ ↦ true ]

pub is_line_comment : Bytes → Bool
unfolding has_prefix
is_line_comment q = has_prefix (b'-' ∷ b'-' ∷ []) q || has_prefix (b'#' ∷ []) q

pub is_block_comment : Bytes → Bool
unfolding has_prefix
is_block_comment q = has_prefix (b'/' ∷ b'*' ∷ []) q

pub is_query_word : Bytes → Bool
is_query_word w =
    same_bytes w (codes "SELECT")
    || same_bytes w (codes "SHOW")
    || same_bytes w (codes "DESC")
    || same_bytes w (codes "DESCRIBE")
    || same_bytes w (codes "EXPLAIN")
    || same_bytes w (codes "WITH")
    || same_bytes w (codes "TABLE")
    || same_bytes w (codes "VALUES")

abbrev pub starts_paren : Bytes → Bool
starts_paren [] = false
starts_paren (c ∷ s) = c == b'('

-- Unicode's classes, and strings.ToUpper on a code point.
pub record Unicode : Type 0 where
  pub is_space : ℕ → Bool
  pub is_letter : ℕ → Bool
  pub to_upper : ℕ → ℕ

module _ (u : Unicode) where
  pub trim_left : Bytes → Bytes
  trim_left [] = []
  trim_left (c ∷ s) = let rest = trim_left s in if u.is_space c then rest else c ∷ s

  -- The loop of `returnsRows`: the text after the leading comments, none where a comment does not end.
  -- Each round that goes on drops a byte at least, so the length is fuel enough.
  pub skip_comments : ℕ → Bytes → Option Bytes
  unfolding trim_left
  skip_comments zero q = none
  skip_comments (suc fuel) q =
      let t = trim_left q in
      if is_line_comment t
      then elim (after_byte 10 t) [ none ↦ none | some rest ↦ skip_comments fuel rest ]
      else if is_block_comment t
      then elim (after_block t) [ none ↦ none | some rest ↦ skip_comments fuel rest ]
      else some t

  pub first_word : Bytes → Bytes
  first_word [] = []
  first_word (c ∷ s) = let rest = first_word s in if u.is_letter c then u.to_upper c ∷ rest else []

  pub statement_returns_rows : Option Bytes → Bool
  unfolding first_word is_query_word
  statement_returns_rows none = false
  statement_returns_rows (some q) = if starts_paren q then true else is_query_word (first_word q)

  pub returns_rows : Bytes → Bool
  unfolding skip_comments statement_returns_rows
  returns_rows q = statement_returns_rows (skip_comments (suc (length q)) q)
