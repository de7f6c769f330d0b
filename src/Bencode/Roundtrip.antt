-- ===== src/Bencode/Roundtrip.antt =====
-- admin/torrentfile.go: the decoder reads back what the format writes.
use phimtor.Base.{
  ℕ, zero, suc, ◌+◌, ◌*◌, ◌≤◌, ◌<◌, Option, none, some, [], ◌∷◌, ◌++◌, length, length-append,
  if◌then◌else◌, ◌≡◌, ◌≢◌, refl, sym, ap, ◌∙◌, arith,
}
use phimtor.Base.Bytes.{Bytes, codes, same_bytes}
use phimtor.Base.Decimal.{decimal, decimal-ne-nil, max_int64}
use phimtor.Bencode.{
  Value, Values, Entries, append_item, append_entry, Outcome, Text, Mode, decode, decode_input,
}
use phimtor.Bencode.Parsing.{
  spell, spell_items, spell_entries, spell_int, spell_string, IsFit, AreFit, HasFit, spell-head,
}
use phimtor.Bencode.Spelling.{
  info_value, info_items, info_entries, cost, cost_items, cost_entries, joined_items,
  joined_entries, joined-append_item, joined_items-nil, joined-append_entry, joined_entries-empty,
  spell-append,
}
use phimtor.Bencode.Reading.{
  decode_int-spell_int, decode_string-spell_string, raw_bytes-spell, decode-items, decode-entries,
  decode-text,
}

length-spell : (v : Value) (k : Bytes) → length (spell v k) ≡ length (spell v []) + length k
length-spell v k = ap (λ t. length t) (spell-append v [] k) ∙ length-append (spell v []) k

length-spell_string :
    (s k : Bytes)
    → length (spell_string s k) ≡ length (decimal (length s)) + suc (length s + length k)
length-spell_string s k =
    length-append (decimal (length s)) (b':' ∷ (s ++ k))
    ∙ ap (λ n. length (decimal (length s)) + suc n) (length-append s k)

decimal_positive : (n : ℕ) → 0 < length (decimal n)
decimal_positive n = go (decimal n) (decimal-ne-nil n)
  where
    go : (d : Bytes) → d ≢ [] → 0 < length d
    go [] h = absurd (h refl)
    go (c ∷ d) h = omega arith

module _ (size : ℕ) (small : size ≤ max_int64) where
  mutual
    unfolding decode spell IsFit cost info_value joined_items joined_entries

    decode-spell :
        (f : ℕ) (v : Value) (k : Bytes) (info : Option Bytes)
        → cost v ≤ f
        → IsFit v
        → length (spell v k) ≤ size
        → decode size f Mode.value (spell v k) info ≡ Outcome.ok v k (info_value v info)
    decode-spell zero (Value.int negative n) k info c h l = absurd (omega arith)
    decode-spell zero (Value.string s) k info c h l = absurd (omega arith)
    decode-spell zero (Value.list vs) k info c h l = absurd (omega arith)
    decode-spell zero (Value.dict es) k info c h l = absurd (omega arith)
    decode-spell (suc f) (Value.int negative n) k info c h l =
        decode_int-spell_int size negative n k info h
    decode-spell (suc f) (Value.string s) k info c h l =
        decode-text size f (length s) (s ++ k) info (Text.read s k)
          (decode_string-spell_string size s k (omega (arith, length-spell_string s k)) small)
    decode-spell (suc f) (Value.list vs) k info c h l =
        decode-spell_items f Values.nil vs k info (omega arith) h (omega arith)
    decode-spell (suc f) (Value.dict es) k info c h l =
        decode-spell_entries f Entries.empty es k info (omega arith) h (omega arith)

    decode-spell_items :
        (f : ℕ) (acc vs : Values) (k : Bytes) (info : Option Bytes)
        → cost_items vs ≤ f
        → AreFit vs
        → length (spell_items vs k) ≤ size
        → decode size f (Mode.items acc) (spell_items vs k) info
          ≡ Outcome.ok (Value.list (joined_items acc vs)) k (info_items vs info)
    decode-spell_items zero acc Values.nil k info c h l = absurd (omega arith)
    decode-spell_items zero acc (Values.item v vs) k info c h l = absurd (omega arith)
    decode-spell_items (suc f) acc Values.nil k info c h l =
        ap (λ xs. Outcome.ok (Value.list xs) k info) (sym (joined_items-nil acc))
    decode-spell_items (suc f) acc (Values.item v vs) k info c h l =
        decode-items size f acc (spell v (spell_items vs k)) (spell_items vs k) info
          (info_value v info) v (spell-head v (spell_items vs k))
          (decode-spell f v (spell_items vs k) info (omega arith) h.0 l)
        ∙ decode-spell_items f (append_item acc v) vs k (info_value v info) (omega arith) h.1
            (omega (arith, length-spell v (spell_items vs k)))
        ∙ ap (λ xs. Outcome.ok (Value.list xs) k (info_items vs (info_value v info)))
            (joined-append_item acc v vs)

    decode-spell_entries :
        (f : ℕ) (acc es : Entries) (k : Bytes) (info : Option Bytes)
        → cost_entries es ≤ f
        → HasFit es
        → length (spell_entries es k) ≤ size
        → decode size f (Mode.entries acc) (spell_entries es k) info
          ≡ Outcome.ok (Value.dict (joined_entries acc es)) k (info_entries es info)
    decode-spell_entries zero acc Entries.empty k info c h l = absurd (omega arith)
    decode-spell_entries zero acc (Entries.entry key v es) k info c h l = absurd (omega arith)
    decode-spell_entries (suc f) acc Entries.empty k info c h l =
        ap (λ xs. Outcome.ok (Value.dict xs) k info) (sym (joined_entries-empty acc))
    decode-spell_entries (suc f) acc (Entries.entry key v es) k info c h l =
        let rest = spell_entries es k in
        let noted =
          if same_bytes key (codes "info") then some (spell v []) else info_value v info in
        decode-entries size f acc key (spell v rest) rest info (info_value v info) v
          (decode_string-spell_string size key (spell v rest)
            (omega (arith, length-spell_string key (spell v rest))) small)
          (decode-spell f v rest info (omega arith) h.0
            (omega (arith, length-spell_string key (spell v rest))))
        ∙ ap
            (λ raw.
              decode size f (Mode.entries (append_entry acc key v)) rest
                (if same_bytes key (codes "info") then some raw else info_value v info))
            (raw_bytes-spell size v rest)
        ∙ decode-spell_entries f (append_entry acc key v) es k noted (omega arith) h.1
            (omega (arith, length-spell_string key (spell v rest), length-spell v rest))
        ∙ ap (λ xs. Outcome.ok (Value.dict xs) k (info_entries es noted))
            (joined-append_entry acc key v es)

mutual
  unfolding spell cost

  cost-spell : (v : Value) (k : Bytes) → cost v + 1 + 2 * length k ≤ 2 * length (spell v k)
  cost-spell (Value.int negative n) k =
      omega (arith, length-append (spell_int negative n) (b'e' ∷ k))
  cost-spell (Value.string s) k =
      omega (arith, length-spell_string s k, decimal_positive (length s))
  cost-spell (Value.list vs) k = omega (arith, cost-spell_items vs k)
  cost-spell (Value.dict es) k = omega (arith, cost-spell_entries es k)

  cost-spell_items :
      (vs : Values) (k : Bytes) → cost_items vs + 2 * length k ≤ 2 * length (spell_items vs k)
  cost-spell_items Values.nil k = omega arith
  cost-spell_items (Values.item v vs) k =
      omega (arith, cost-spell v (spell_items vs k), cost-spell_items vs k)

  cost-spell_entries :
      (es : Entries) (k : Bytes) → cost_entries es + 2 * length k ≤ 2 * length (spell_entries es k)
  cost-spell_entries Entries.empty k = omega arith
  cost-spell_entries (Entries.entry key v es) k = omega (
    arith,
    length-spell_string key (spell v (spell_entries es k)),
    cost-spell v (spell_entries es k),
    cost-spell_entries es k,
  )

-- A .torrent file of any value, with integers of 64 bits, is decoded to that value, with the text of
-- the last entry "info" as the raw bytes.
pub decode_input-spell :
    (v : Value)
    → IsFit v
    → length (spell v []) ≤ max_int64
    → decode_input (spell v []) ≡ Outcome.ok v [] (info_value v none)
unfolding decode_input
decode_input-spell v h l =
    decode-spell (length (spell v [])) l (2 * length (spell v []) + 1) v [] none
      (omega (arith, cost-spell v [])) h (omega arith)
