-- ===== src/Bencode/Parsing.antt =====
-- admin/torrentfile.go: the text of a value, as the format of .torrent files has it.
use phimtor.Base.{
  ℕ, suc, ◌≤◌, ◌<◌, Bool, true, false, some, [], ◌∷◌, ◌++◌, length, All, if◌then◌else◌, ◌≡◌, ◌≢◌,
  refl, arith, inr,
}
use phimtor.Base.Bytes.{Bytes, Lacks}
use phimtor.Base.Decimal.{
  decimal, decimal-IsDigit, decimal-Lacks, decimal-ne-nil, IsDigit, parse_int, parse_int-decimal,
  read_decimal-decimal, max_int64,
}
use phimtor.Bencode.{Value, Values, Entries, cut_byte, split_at}

abbrev pub spell_int : Bool → ℕ → Bytes
spell_int negative n = if negative then b'-' ∷ decimal n else decimal n

abbrev pub spell_string : Bytes → Bytes → Bytes
spell_string s k = decimal (length s) ++ b':' ∷ (s ++ k)

-- A value in front of a text.
unfoldable mutual
  pub spell : Value → Bytes → Bytes
  spell (Value.int negative n) k = b'i' ∷ (spell_int negative n ++ b'e' ∷ k)
  spell (Value.string s) k = spell_string s k
  spell (Value.list vs) k = b'l' ∷ spell_items vs k
  spell (Value.dict es) k = b'd' ∷ spell_entries es k

  pub spell_items : Values → Bytes → Bytes
  spell_items Values.nil k = b'e' ∷ k
  spell_items (Values.item v vs) k = spell v (spell_items vs k)

  pub spell_entries : Entries → Bytes → Bytes
  spell_entries Entries.empty k = b'e' ∷ k
  spell_entries (Entries.entry key v es) k = spell_string key (spell v (spell_entries es k))

-- Integers of 64 bits, and no negative zero.
unfoldable mutual
  pub IsFit : Value → Type 0
  IsFit (Value.int negative n) = if negative then (0 < n) × (n ≤ suc max_int64) else n ≤ max_int64
  IsFit (Value.string s) = Unit
  IsFit (Value.list vs) = AreFit vs
  IsFit (Value.dict es) = HasFit es

  pub AreFit : Values → Type 0
  AreFit Values.nil = Unit
  AreFit (Values.item v vs) = IsFit v × AreFit vs

  pub HasFit : Entries → Type 0
  HasFit Entries.empty = Unit
  HasFit (Entries.entry key v es) = IsFit v × HasFit es

pub cut_byte-append : (b : ℕ) (p q : Bytes) → Lacks b p → cut_byte b (p ++ b ∷ q) ≡ some (p, q)
unfolding cut_byte
cut_byte-append b [] q h = ground arith
cut_byte-append b (c ∷ p) q h = ground (arith, cut_byte-append b p q h.1)

pub split_at-append : (p q : Bytes) → split_at (length p) (p ++ q) ≡ (p, q)
unfolding split_at
split_at-append [] q = refl
split_at-append (c ∷ p) q = rw (split_at-append p q) refl

pub parse_int-spell_int :
    (negative : Bool) (n : ℕ)
    → IsFit (Value.int negative n)
    → parse_int (spell_int negative n) ≡ some (negative, n)
unfolding IsFit
parse_int-spell_int true n h = unfold parse_int in ground (arith, read_decimal-decimal n)
parse_int-spell_int false n h = parse_int-decimal n h

-- The first byte of a value or a string: it starts no other kind, and ends no list.
pub digits-head :
    (n : ℕ) (s : Bytes) → (c : ℕ) × (t : Bytes) × (decimal n ++ s ≡ c ∷ t) × (c ≤ b'9')
digits-head n s = go (decimal n) (decimal-ne-nil n) (decimal-IsDigit n)
  where
    go :
        (d : Bytes) → d ≢ [] → All IsDigit d → (c : ℕ) × (t : Bytes) × (d ++ s ≡ c ∷ t) × (c ≤ b'9')
    go [] h i = absurd (h refl)
    go (c ∷ d) h i = (c, d ++ s, refl, i.0.1)

pub spell-head : (v : Value) (k : Bytes) → (c : ℕ) × (t : Bytes) × (spell v k ≡ c ∷ t) × (c ≢ b'e')
unfolding spell
spell-head (Value.int negative n) k = (b'i', _, refl, omega arith)
spell-head (Value.string s) k =
    let head = digits-head (length s) (b':' ∷ (s ++ k)) in
    (head.0, head.1, head.2, λ q. ground (arith, head.3))
spell-head (Value.list vs) k = (b'l', _, refl, omega arith)
spell-head (Value.dict es) k = (b'd', _, refl, omega arith)

pub spell_int-Lacks : (negative : Bool) (n : ℕ) → Lacks b'e' (spell_int negative n)
spell_int-Lacks true n = (omega arith, decimal-Lacks b'e' n (inr (omega arith)))
spell_int-Lacks false n = decimal-Lacks b'e' n (inr (omega arith))
