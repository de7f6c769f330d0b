-- ===== src/Bencode.antt =====
-- admin/torrentfile.go: the decoder of .torrent files, and the choice of the video file. The decoder's
-- position is the bytes that are left; `size` is len(d.data), which gives back the index of a byte. An
-- index past 2 ^ 63 - 1 wraps to a negative one, at which Go's slicing panics.
pub mod Parsing
pub mod Spelling
pub mod Reading
pub mod Roundtrip
pub mod Fuel
pub mod Files
pub mod Picking
mod Tests
use phimtor.Base.{
  ℕ, zero, suc, ◌+◌, ◌-◌, ◌*◌, ◌^◌, Bool, true, false, not, ◌&&◌, ◌||◌, Option, none, some, List,
  [], ◌∷◌, ◌++◌, length, leb, ltb, ◌==◌, if◌then◌else◌,
}
use phimtor.Base.Bytes.{Bytes, codes, same_bytes}
use phimtor.Base.Decimal.{parse_int, max_int64}

-- A decoded value; an integer is its sign and its size. A dict is its entries in the order read, of
-- which the last with a key counts.
mutual
  pub data Value : Type 0 where
    int : Bool → ℕ → Value
    string : Bytes → Value
    list : Values → Value
    dict : Entries → Value

  pub data Values : Type 0 where
    nil : Values
    item : Value → Values → Values

  pub data Entries : Type 0 where
    empty : Entries
    entry : Bytes → Value → Entries → Entries

pub append_item : Values → Value → Values
append_item nil v = item v nil
append_item (item w vs) v = item w (append_item vs v)

pub append_entry : Entries → Bytes → Value → Entries
append_entry empty k v = entry k v empty
append_entry (entry l w es) k v = entry l w (append_entry es k v)

-- A value, the bytes after it and `infoRaw`; an error; a panic. The last one is the model's own.
pub data Outcome : Type 0 where
  ok : Value → Bytes → Option Bytes → Outcome
  failed : Outcome
  panicked : Outcome
  out_of_fuel : Outcome

-- The bytes before the first such byte, and those after it.
abbrev pub add_before : ℕ → Option (Bytes × Bytes) → Option (Bytes × Bytes)
add_before c none = none
add_before c (some (p, q)) = some (c ∷ p, q)

pub cut_byte : ℕ → Bytes → Option (Bytes × Bytes)
cut_byte b [] = none
cut_byte b (c ∷ s) = let rest = add_before c (cut_byte b s) in if c == b then some ([], s) else rest

pub split_at : ℕ → Bytes → Bytes × Bytes
split_at zero s = ([], s)
split_at (suc n) [] = ([], [])
split_at (suc n) (c ∷ s) = let (p, q) = split_at n s in (c ∷ p, q)

abbrev pub as_int : Option (Bool × ℕ) → Bytes → Option Bytes → Outcome
as_int none rest info = failed
as_int (some (negative, n)) rest info = Outcome.ok (Value.int negative n) rest info

abbrev pub int_parts : Option (Bytes × Bytes) → Option Bytes → Outcome
int_parts none info = failed
int_parts (some (digits, rest)) info = as_int (parse_int digits) rest info

-- After the 'i'.
pub decode_int : Bytes → Option Bytes → Outcome
unfolding cut_byte
decode_int s info = int_parts (cut_byte b'e' s) info

-- A string and the bytes after it.
pub data Text : Type 0 where
  read : Bytes → Bytes → Text
  malformed : Text
  out_of_bounds : Text

-- An error or a panic ends the decoding.
abbrev pub and_then : Outcome → (Value → Bytes → Option Bytes → Outcome) → Outcome
and_then (ok v rest info) k = k v rest info
and_then failed k = failed
and_then panicked k = panicked
and_then out_of_fuel k = out_of_fuel

abbrev pub read_then : Text → (Bytes → Bytes → Outcome) → Outcome
read_then (read s rest) k = k s rest
read_then malformed k = failed
read_then out_of_bounds k = panicked

-- What is being decoded: a value, or the rest of a list or a dict with what it has so far.
pub data Mode : Type 0 where
  value : Mode
  items : Values → Mode
  entries : Entries → Mode

module _ (size : ℕ) where
  -- `end` is the index after the string, when it does not wrap.
  pub string_body : Option (Bool × ℕ) → Bytes → Text
  unfolding split_at
  string_body none rest = malformed
  string_body (some (negative, n)) rest =
      let end = (size - length rest) + n in
      let (s, after) = split_at n rest in
      if negative && ltb 0 n
      then malformed
      else if ltb max_int64 end
      then out_of_bounds
      else if ltb size end
      then malformed
      else read s after

  pub string_parts : Option (Bytes × Bytes) → Text
  unfolding string_body
  string_parts none = malformed
  string_parts (some (digits, rest)) = string_body (parse_int digits) rest

  pub decode_string : Bytes → Text
  unfolding cut_byte string_parts
  decode_string s = string_parts (cut_byte b':' s)

  abbrev pub as_value : Text → Option Bytes → Outcome
  as_value (read s rest) info = Outcome.ok (Value.string s) rest info
  as_value malformed info = failed
  as_value out_of_bounds info = panicked

  -- The bytes of a value, between the text before it and the text after it.
  abbrev pub raw_bytes : Bytes → Bytes → Bytes
  raw_bytes before after = (split_at (length before - length after) before).0

  abbrev pub note_info : Bytes → Bytes → Bytes → Option Bytes → Option Bytes
  note_info key before after info =
      if same_bytes key (codes "info") then some (raw_bytes before after) else info

  -- Each call takes one unit; twice the length and one are enough.
  pub decode : ℕ → Mode → Bytes → Option Bytes → Outcome
  unfolding append_item append_entry decode_int decode_string split_at
  decode zero mode s info = out_of_fuel
  decode (suc f) value [] info = failed
  decode (suc f) value (c ∷ s) info =
      if c == b'i'
      then decode_int s info
      else if c == b'l'
      then decode f (items nil) s info
      else if c == b'd'
      then decode f (entries empty) s info
      else as_value (decode_string (c ∷ s)) info
  decode (suc f) (items acc) [] info = failed
  decode (suc f) (items acc) (c ∷ s) info =
      if c == b'e'
      then Outcome.ok (Value.list acc) s info
      else and_then (decode f value (c ∷ s) info)
          (λ v rest info'. decode f (items (append_item acc v)) rest info')
  decode (suc f) (entries acc) [] info = failed
  decode (suc f) (entries acc) (c ∷ s) info =
      if c == b'e'
      then Outcome.ok (Value.dict acc) s info
      else read_then (decode_string (c ∷ s)) (λ key rest.
        and_then (decode f value rest info) (λ v rest' info'.
          decode f (entries (append_entry acc key v)) rest' (note_info key rest rest' info')))

pub decode_input : Bytes → Outcome
unfolding decode
decode_input input = decode (length input) (2 * length input + 1) Mode.value input none
