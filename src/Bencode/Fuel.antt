-- ===== src/Bencode/Fuel.antt =====
-- admin/torrentfile.go: the decoder ends on every input.
use phimtor.Base.{
  ℕ, zero, suc, ◌+◌, ◌-◌, ◌*◌, ◌≤◌, ◌<◌, Bool, Option, none, some, [], ◌∷◌, length, ltb, ◌==◌, ◌&&◌,
  if_elim, ◌≢◌, arith, subst,
}
use phimtor.Base.Bytes.{Bytes}
use phimtor.Base.Decimal.{parse_int, max_int64}
use phimtor.Bencode.{
  Value, Values, Entries, Outcome, Text, Mode, and_then, read_then, append_item, append_entry,
  add_before, cut_byte, split_at, as_int, int_parts, decode_int, string_body, string_parts,
  decode_string, as_value, note_info, decode, decode_input,
}

-- An end, with fewer bytes left after a value.
abbrev Done : Bytes → Outcome → Type 0
Done s (Outcome.ok v rest info) = length rest < length s
Done s Outcome.failed = Unit
Done s Outcome.panicked = Unit
Done s Outcome.out_of_fuel = ⊥

abbrev Shortens : Bytes → Text → Type 0
Shortens s (Text.read t rest) = length rest < length s
Shortens s Text.malformed = Unit
Shortens s Text.out_of_bounds = Unit

Done-longer : (r s : Bytes) (o : Outcome) → length r ≤ length s → Done r o → Done s o
Done-longer r s (Outcome.ok v rest info) h d = omega arith
Done-longer r s Outcome.failed h d = tt
Done-longer r s Outcome.panicked h d = tt
Done-longer r s Outcome.out_of_fuel h d = d

abbrev CutsIn : Bytes → Option (Bytes × Bytes) → Type 0
CutsIn s none = Unit
CutsIn s (some (p, q)) = length q < length s

cut_byte-CutsIn : (b : ℕ) (s : Bytes) → CutsIn s (cut_byte b s)
unfolding cut_byte
cut_byte-CutsIn b [] = tt
cut_byte-CutsIn b (c ∷ s) =
    if_elim (CutsIn (c ∷ s)) (c == b) _ _ (λ _. omega arith)
      (λ _. further (cut_byte b s) (cut_byte-CutsIn b s))
  where
    further : (o : Option (Bytes × Bytes)) → CutsIn s o → CutsIn (c ∷ s) (add_before c o)
    further none h = tt
    further (some (p, q)) h = omega arith

decode_int-Done : (c : ℕ) (s : Bytes) (info : Option Bytes) → Done (c ∷ s) (decode_int s info)
unfolding decode_int
decode_int-Done c s info = parts (cut_byte b'e' s) (cut_byte-CutsIn b'e' s)
  where
    number :
        (o : Option (Bool × ℕ)) (rest : Bytes)
        → length rest < length s
        → Done (c ∷ s) (as_int o rest info)
    number none rest h = tt
    number (some (negative, n)) rest h = omega arith

    parts : (o : Option (Bytes × Bytes)) → CutsIn s o → Done (c ∷ s) (int_parts o info)
    parts none h = tt
    parts (some (p, q)) h = number (parse_int p) q h

length-split_at : (n : ℕ) (s : Bytes) → length (split_at n s).1 ≤ length s
unfolding split_at
length-split_at zero s = omega arith
length-split_at (suc n) [] = omega arith
length-split_at (suc n) (c ∷ s) = omega (arith, length-split_at n s)

module _ (size : ℕ) where
  string_body-Shortens :
      (o : Option (Bool × ℕ)) (s rest : Bytes)
      → length rest < length s
      → Shortens s (string_body size o rest)
  unfolding string_body
  string_body-Shortens none s rest h = tt
  string_body-Shortens (some (negative, n)) s rest h =
      if_elim (Shortens s) (negative && ltb 0 n) _ _ (λ _. tt)
        (λ _.
          if_elim (Shortens s) (ltb max_int64 ((size - length rest) + n)) _ _ (λ _. tt)
            (λ _.
              if_elim (Shortens s) (ltb size ((size - length rest) + n)) _ _ (λ _. tt)
                (λ _. shorter (length-split_at n rest) h)))
    where
      shorter : {a b c : ℕ} → a ≤ b → b < c → a < c
      shorter p q = omega arith

  decode_string-Shortens : (s : Bytes) → Shortens s (decode_string size s)
  unfolding decode_string
  decode_string-Shortens s = parts (cut_byte b':' s) (cut_byte-CutsIn b':' s)
    where
      parts : (o : Option (Bytes × Bytes)) → CutsIn s o → Shortens s (string_parts size o)
      parts none h = unfold string_parts in tt
      parts (some (p, q)) h = unfold string_parts in string_body-Shortens (parse_int p) s q h

  as_value-Done :
      (s : Bytes) (t : Text) (info : Option Bytes) → Shortens s t → Done s (as_value size t info)
  as_value-Done s (Text.read x rest) info h = h
  as_value-Done s Text.malformed info h = tt
  as_value-Done s Text.out_of_bounds info h = tt

  and_then-Done :
      (s : Bytes) (o : Outcome) (k : Value → Bytes → Option Bytes → Outcome)
      → Done s o
      → ((v : Value) (rest : Bytes) (info : Option Bytes)
          → length rest < length s
          → Done s (k v rest info))
      → Done s (and_then o k)
  and_then-Done s (Outcome.ok v rest info) k d h = h v rest info d
  and_then-Done s Outcome.failed k d h = tt
  and_then-Done s Outcome.panicked k d h = tt
  and_then-Done s Outcome.out_of_fuel k d h = d

  read_then-Done :
      (s : Bytes) (t : Text) (k : Bytes → Bytes → Outcome)
      → Shortens s t
      → ((x rest : Bytes) → length rest < length s → Done s (k x rest))
      → Done s (read_then t k)
  read_then-Done s (Text.read x rest) k d h = h x rest d
  read_then-Done s Text.malformed k d h = tt
  read_then-Done s Text.out_of_bounds k d h = tt

  -- The calls that a text may take.
  abbrev need : Mode → Bytes → ℕ
  need Mode.value s = 2 * length s + 1
  need (Mode.items acc) s = 2 * length s + 2
  need (Mode.entries acc) s = 2 * length s + 2

  decode-Done :
      (f : ℕ) (mode : Mode) (s : Bytes) (info : Option Bytes)
      → need mode s ≤ f
      → Done s (decode size f mode s info)
  unfolding decode
  decode-Done zero Mode.value s info h = absurd (omega arith)
  decode-Done zero (Mode.items acc) s info h = absurd (omega arith)
  decode-Done zero (Mode.entries acc) s info h = absurd (omega arith)
  decode-Done (suc f) Mode.value [] info h = tt
  decode-Done (suc f) Mode.value (c ∷ s) info h =
      if_elim (Done (c ∷ s)) (c == b'i') _ _ (λ _. decode_int-Done c s info)
        (λ _.
          if_elim (Done (c ∷ s)) (c == b'l') _ _
            (λ _.
              Done-longer s (c ∷ s) _ (omega arith)
                (decode-Done f (Mode.items Values.nil) s info (omega arith)))
            (λ _.
              if_elim (Done (c ∷ s)) (c == b'd') _ _
                (λ _.
                  Done-longer s (c ∷ s) _ (omega arith)
                    (decode-Done f (Mode.entries Entries.empty) s info (omega arith)))
                (λ _.
                  as_value-Done (c ∷ s) (decode_string size (c ∷ s)) info
                    (decode_string-Shortens (c ∷ s)))))
  decode-Done (suc f) (Mode.items acc) [] info h = tt
  decode-Done (suc f) (Mode.items acc) (c ∷ s) info h =
      if_elim (Done (c ∷ s)) (c == b'e') _ _ (λ _. omega arith)
        (λ _.
          and_then-Done (c ∷ s) _ _ (decode-Done f Mode.value (c ∷ s) info (omega arith))
            (λ v rest info' l.
              Done-longer rest (c ∷ s) _ (omega arith)
                (decode-Done f (Mode.items (append_item acc v)) rest info' (omega arith))))
  decode-Done (suc f) (Mode.entries acc) [] info h = tt
  decode-Done (suc f) (Mode.entries acc) (c ∷ s) info h =
      if_elim (Done (c ∷ s)) (c == b'e') _ _ (λ _. omega arith)
        (λ _. read_then-Done (c ∷ s) _ _ (decode_string-Shortens (c ∷ s)) (λ key rest m.
          and_then-Done (c ∷ s) _ _
            (Done-longer rest (c ∷ s) _ (omega arith)
              (decode-Done f Mode.value rest info (omega arith)))
            (λ v rest' info' l. Done-longer rest' (c ∷ s) _ (omega arith) (
              decode-Done f (Mode.entries (append_entry acc key v)) rest'
                (note_info size key rest rest' info') (omega arith)))))

-- Whatever the bytes are, the decoder ends on the fuel it is given, with a value, an error or a panic.
pub decode_input-ends : (input : Bytes) → decode_input input ≢ Outcome.out_of_fuel
unfolding decode_input
decode_input-ends input h =
    subst (Done input) h
      (decode-Done (length input) (2 * length input + 1) Mode.value input none (omega arith))
