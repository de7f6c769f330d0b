-- ===== src/Bencode/Reading.antt =====
-- admin/torrentfile.go: what the decoder makes of the text of a value.
use phimtor.Base.{
  ℕ, suc, ◌+◌, ◌*◌, ◌-◌, ◌≤◌, ◌<◌, Bool, false, Option, none, some, [], ◌∷◌, ◌++◌, length,
  length-append, ◌==◌, ◌≡◌, ◌≢◌, refl, sym, ap, ◌∙◌, arith, inr,
}
use phimtor.Base.Bytes.{Bytes}
use phimtor.Base.Decimal.{decimal, decimal-Lacks, parse_int-decimal, max_int64}
use phimtor.Bencode.{
  Value, Values, Entries, append_item, append_entry, Outcome, Text, Mode, split_at, as_int,
  int_parts, decode_int, string_body, string_parts, decode_string, as_value, raw_bytes, note_info,
  decode, decode_input,
}
use phimtor.Bencode.Parsing.{
  spell, spell_int, spell_string, IsFit, cut_byte-append, split_at-append, parse_int-spell_int,
  spell_int-Lacks, digits-head,
}
use phimtor.Bencode.Spelling.{spell-append}

module _ (size : ℕ) where
  pub decode_int-spell_int :
      (negative : Bool) (n : ℕ) (k : Bytes) (info : Option Bytes)
      → IsFit (Value.int negative n)
      → decode_int (spell_int negative n ++ b'e' ∷ k) info
        ≡ Outcome.ok (Value.int negative n) k info
  unfolding decode_int
  decode_int-spell_int negative n k info h =
      ap (λ o. int_parts o info)
        (cut_byte-append b'e' (spell_int negative n) k (spell_int-Lacks negative n))
      ∙ ap (λ o. as_int o k info) (parse_int-spell_int negative n h)

  string_body-append :
      (s k : Bytes)
      → length s + length k ≤ size
      → size ≤ max_int64
      → string_body size (some (false, length s)) (s ++ k) ≡ Text.read s k
  unfolding string_body
  string_body-append s k h m = rw (split_at-append s k) (rw (length-append s k) (ground arith))

  pub decode_string-spell_string :
      (s k : Bytes)
      → length s + length k ≤ size
      → size ≤ max_int64
      → decode_string size (spell_string s k) ≡ Text.read s k
  unfolding decode_string
  decode_string-spell_string s k h m =
      ap (string_parts size) (
        cut_byte-append b':' (decimal (length s)) (s ++ k)
          (decimal-Lacks b':' (length s) (inr (omega arith))))
      ∙ (unfold string_parts in
          ap (λ o. string_body size o (s ++ k)) (parse_int-decimal (length s) (omega arith))
          ∙ string_body-append s k h m)

  pub raw_bytes-spell : (v : Value) (k : Bytes) → raw_bytes size (spell v k) k ≡ spell v []
  raw_bytes-spell v k =
      ap (λ t. (split_at (length t - length k) t).0) (spell-append v [] k)
      ∙ ap (λ n. (split_at n (spell v [] ++ k)).0) (plain (length-append (spell v []) k))
      ∙ ap (λ p. p.0) (split_at-append (spell v []) k)
    where
      plain :
          length (spell v [] ++ k) ≡ length (spell v []) + length k
          → length (spell v [] ++ k) - length k ≡ length (spell v [])
      plain q = omega arith

  -- A text that starts like a value, in a list.
  pub decode-items :
      (f : ℕ) (acc : Values) (s rest : Bytes) (info info' : Option Bytes) (v : Value)
      → ((c : ℕ) × (t : Bytes) × (s ≡ c ∷ t) × (c ≢ b'e'))
      → decode size f Mode.value s info ≡ Outcome.ok v rest info'
      → decode size (suc f) (Mode.items acc) s info
        ≡ decode size f (Mode.items (append_item acc v)) rest info'
  unfolding decode
  decode-items f acc s rest info info' v (c, t, e, n) h =
      ap (λ x. decode size (suc f) (Mode.items acc) x info) e
      ∙ step (sym (ap (λ x. decode size f Mode.value x info) e) ∙ h)
    where
      other : (c == b'e') ≡ false
      other = ground arith

      step :
          decode size f Mode.value (c ∷ t) info ≡ Outcome.ok v rest info'
          → decode size (suc f) (Mode.items acc) (c ∷ t) info
            ≡ decode size f (Mode.items (append_item acc v)) rest info'
      step q = unfold decode in rw other (rw q refl)

  pub decode-entries :
      (f : ℕ) (acc : Entries) (key s rest : Bytes) (info info' : Option Bytes) (v : Value)
      → decode_string size (spell_string key s) ≡ Text.read key s
      → decode size f Mode.value s info ≡ Outcome.ok v rest info'
      → decode size (suc f) (Mode.entries acc) (spell_string key s) info
        ≡ decode size f
            (Mode.entries (append_entry acc key v))
            rest
            (note_info size key s rest info')
  unfolding decode
  decode-entries f acc key s rest info info' v e h =
      let head = digits-head (length key) (b':' ∷ (key ++ s)) in
      ap (λ x. decode size (suc f) (Mode.entries acc) x info) head.2
      ∙ step head.0 head.1 head.3 (sym (ap (decode_string size) head.2) ∙ e)
    where
      step :
          (c : ℕ) (t : Bytes)
          → c ≤ b'9'
          → decode_string size (c ∷ t) ≡ Text.read key s
          → decode size (suc f) (Mode.entries acc) (c ∷ t) info
            ≡ decode size f
                (Mode.entries (append_entry acc key v))
                rest
                (note_info size key s rest info')
      step c t m q = unfold decode in rw (other c m) (rw q (rw h refl))
        where
          other : (c : ℕ) → c ≤ b'9' → (c == b'e') ≡ false
          other c m = ground arith

  -- A text that starts like a string.
  pub decode-text :
      (f n : ℕ) (k : Bytes) (info : Option Bytes) (text : Text)
      → decode_string size (decimal n ++ b':' ∷ k) ≡ text
      → decode size (suc f) Mode.value (decimal n ++ b':' ∷ k) info ≡ as_value size text info
  decode-text f n k info text e =
      let head = digits-head n (b':' ∷ k) in
      ap (λ x. decode size (suc f) Mode.value x info) head.2
      ∙ step head.0 head.1 head.3 (sym (ap (decode_string size) head.2) ∙ e)
    where
      step :
          (c : ℕ) (t : Bytes)
          → c ≤ b'9'
          → decode_string size (c ∷ t) ≡ text
          → decode size (suc f) Mode.value (c ∷ t) info ≡ as_value size text info
      step c t m q =
          unfold decode in
          rw (below c b'i' m (omega arith))
            (rw (below c b'l' m (omega arith)) (rw (below c b'd' m (omega arith)) (rw q refl)))
        where
          below : (c d : ℕ) → c ≤ b'9' → b'9' < d → (c == d) ≡ false
          below c d m n = ground arith

-- A string whose length is a 64-bit number, but whose end is not, makes the decoder panic.
pub decode_input-panicked :
    (n : ℕ) (k : Bytes)
    → n ≤ max_int64
    → max_int64 < suc (length (decimal n)) + n
    → decode_input (decimal n ++ b':' ∷ k) ≡ Outcome.panicked
unfolding decode_input
decode_input-panicked n k h m =
    let size = length (decimal n ++ b':' ∷ k) in
    ap (λ f. decode size f Mode.value (decimal n ++ b':' ∷ k) none) (one_more size)
    ∙ decode-text size (2 * size) n k none Text.out_of_bounds (
        unfold decode_string string_parts in
        ap (string_parts size)
          (cut_byte-append b':' (decimal n) k (decimal-Lacks b':' n (inr (omega arith))))
        ∙ ap (λ o. string_body size o k) (parse_int-decimal n h)
        ∙ past_end size (length-append (decimal n) (b':' ∷ k)))
  where
    one_more : (i : ℕ) → 2 * i + 1 ≡ suc (2 * i)
    one_more i = omega arith

    past_end :
        (size : ℕ)
        → size ≡ length (decimal n) + suc (length k)
        → string_body size (some (false, n)) k ≡ Text.out_of_bounds
    past_end size q = unfold string_body in ground arith
