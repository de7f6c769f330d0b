-- ===== src/SqlConsole/Quoting.antt =====
-- admin/sqlconsole.go: what is quoted for MySQL reads back as it was.
use phimtor.Base.{
  ℕ, ◌+◌, ◌-◌, ◌*◌, ◌/◌, ◌%◌, ◌<◌, Bool, true, false, Option, none, some, [], ◌∷◌, ◌++◌, ltb, ◌==◌,
  if◌then◌else◌, ◌≡◌, ◌≢◌, refl, ap, ◌∙◌, arith, All,
}
use mathlib.Core.List.{append_assoc}
use phimtor.Base.Bytes.{Bytes}
use phimtor.SqlConsole.{
  quoted_byte, quoted_bytes, quote_sql, doubled_backticks, quote_ident, backtick, hex, hex_digit,
}

-- The byte that a backslash and this byte stand for in a MySQL string, `%` and `_` aside, whose
-- backslash stays.
escaped : ℕ → ℕ
escaped c =
    if c == b'0'
    then 0
    else if c == b'b'
    then 8
    else if c == b'n'
    then 10
    else if c == b'r'
    then 13
    else if c == b't'
    then 9
    else if c == b'Z'
    then 26
    else c

abbrev cons_read : ℕ → Option (Bytes × Bytes) → Option (Bytes × Bytes)
cons_read c none = none
cons_read c (some (s, rest)) = some (c ∷ s, rest)

-- MySQL's reading of a string after its opening quote: the text, and what follows the closing quote.
-- The Boolean says that a backslash was read just now; two quotes in a row stand for one.
pub read_quoted : Bool → Bytes → Option (Bytes × Bytes)
unfolding escaped
read_quoted escape [] = none
read_quoted true (c ∷ s) = cons_read (escaped c) (read_quoted false s)
read_quoted false (c ∷ []) = if c == b'\'' then some ([], []) else none
read_quoted false (c ∷ d ∷ s) =
    let plain = cons_read c (read_quoted false (d ∷ s)) in
    let after_slash = read_quoted true (d ∷ s) in
    let twice = cons_read b'\'' (read_quoted false s) in
    if c == b'\\'
    then after_slash
    else if c == b'\''
    then (if d == b'\'' then twice else some ([], d ∷ s))
    else plain

-- The text that follows is not taken for a part of the string.
abbrev pub NoQuote : Bytes → Type 0
NoQuote [] = Unit
NoQuote (c ∷ s) = c ≢ b'\''

read_quoted_end : (rest : Bytes) → NoQuote rest → read_quoted false (b'\'' ∷ rest) ≡ some ([], rest)
unfolding read_quoted
read_quoted_end [] h = refl
read_quoted_end (c ∷ s) h = ground arith

read_quoted_byte :
    (c d : ℕ) (s : Bytes)
    → read_quoted false (quoted_byte c ++ d ∷ s) ≡ cons_read c (read_quoted false (d ∷ s))
unfolding read_quoted quoted_byte
read_quoted_byte c d s = ground arith

read_quoted_step :
    (c : ℕ) (t : Bytes)
    → t ≢ []
    → read_quoted false (quoted_byte c ++ t) ≡ cons_read c (read_quoted false t)
read_quoted_step c [] h = absurd (h refl)
read_quoted_step c (d ∷ s) h = read_quoted_byte c d s

quoted_bytes-ne-nil : (s rest : Bytes) → quoted_bytes s ++ b'\'' ∷ rest ≢ []
unfolding quoted_bytes quoted_byte
quoted_bytes-ne-nil [] rest = ground arith
quoted_bytes-ne-nil (c ∷ s) rest = ground arith

read_quoted-quoted_bytes :
    (s rest : Bytes)
    → NoQuote rest
    → read_quoted false (quoted_bytes s ++ b'\'' ∷ rest) ≡ some (s, rest)
unfolding quoted_bytes
read_quoted-quoted_bytes [] rest h = read_quoted_end rest h
read_quoted-quoted_bytes (c ∷ s) rest h =
    rw (append_assoc (quoted_byte c) (quoted_bytes s) (b'\'' ∷ rest)) (
      read_quoted_step c _ (quoted_bytes-ne-nil s rest)
      ∙ ap (cons_read c) (read_quoted-quoted_bytes s rest h))

-- The reading of a text that starts with a quoted string.
pub read_string : Bytes → Option (Bytes × Bytes)
unfolding read_quoted
read_string [] = none
read_string (c ∷ s) = if c == b'\'' then read_quoted false s else none

-- Whatever bytes a text holds, MySQL reads its literal back as that text and ends where the literal
-- does, when no quote follows.
pub read_string-quote_sql :
    (s rest : Bytes) → NoQuote rest → read_string (quote_sql s ++ rest) ≡ some (s, rest)
unfolding read_string quote_sql
read_string-quote_sql s rest h =
    ap (read_quoted false) (append_assoc (quoted_bytes s) (b'\'' ∷ []) rest)
    ∙ read_quoted-quoted_bytes s rest h

-- MySQL's reading of a quoted name after its opening backtick.
read_name : Bytes → Option (Bytes × Bytes)
read_name [] = none
read_name (c ∷ []) = if c == backtick then some ([], []) else none
read_name (c ∷ d ∷ s) =
    let plain = cons_read c (read_name (d ∷ s)) in
    let twice = cons_read backtick (read_name s) in
    if c == backtick then (if d == backtick then twice else some ([], d ∷ s)) else plain

abbrev pub NoBacktick : Bytes → Type 0
NoBacktick [] = Unit
NoBacktick (c ∷ s) = c ≢ backtick

read_name_end : (rest : Bytes) → NoBacktick rest → read_name (backtick ∷ rest) ≡ some ([], rest)
unfolding read_name
read_name_end [] h = refl
read_name_end (c ∷ s) h = ground arith

read_name_plain :
    (c : ℕ) (t : Bytes) → t ≢ [] → c ≢ backtick → read_name (c ∷ t) ≡ cons_read c (read_name t)
unfolding read_name
read_name_plain c [] h n = absurd (h refl)
read_name_plain c (d ∷ s) h n = ground arith

read_name-doubled_backticks :
    (s rest : Bytes)
    → NoBacktick rest
    → read_name (doubled_backticks s ++ backtick ∷ rest) ≡ some (s, rest)
unfolding doubled_backticks read_name
read_name-doubled_backticks [] rest h = read_name_end rest h
read_name-doubled_backticks (c ∷ s) rest h = ground (
  arith,
  read_name-doubled_backticks s rest h,
  read_name_plain c (doubled_backticks s ++ backtick ∷ rest),
  concat-ne-nil_lem (doubled_backticks s) rest,
)
  where
    concat-ne-nil_lem : (s rest : Bytes) → s ++ backtick ∷ rest ≢ []
    concat-ne-nil_lem [] rest = ground arith
    concat-ne-nil_lem (c ∷ s) rest = ground arith

pub read_ident : Bytes → Option (Bytes × Bytes)
unfolding read_name
read_ident [] = none
read_ident (c ∷ s) = if c == backtick then read_name s else none

-- A table or column name of any bytes reads back from its backticks.
pub read_ident-quote_ident :
    (s rest : Bytes) → NoBacktick rest → read_ident (quote_ident s ++ rest) ≡ some (s, rest)
unfolding read_ident quote_ident
read_ident-quote_ident s rest h =
    ap read_name (append_assoc (doubled_backticks s) (backtick ∷ []) rest)
    ∙ read_name-doubled_backticks s rest h

hex_value : ℕ → ℕ
hex_value d = if ltb d 58 then d - b'0' else d - b'a' + 10

pub unhex : Bytes → Bytes
unfolding hex_value
unhex [] = []
unhex (a ∷ []) = []
unhex (a ∷ b ∷ s) = (hex_value a * 16 + hex_value b) ∷ unhex s

hex_value-hex_digit : (n : ℕ) → n < 16 → hex_value (hex_digit n) ≡ n
unfolding hex_value
hex_value-hex_digit n h = ground arith

-- The bytes of a binary column are told by their hexadecimal digits.
pub unhex-hex : (s : Bytes) → All (λ c. c < 256) s → unhex (hex s) ≡ s
unfolding unhex hex
unhex-hex [] h = refl
unhex-hex (c ∷ s) h =
    ground (arith, hex_value-hex_digit (c / 16), hex_value-hex_digit (c % 16), unhex-hex s h.1)
