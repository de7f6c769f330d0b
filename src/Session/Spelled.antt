-- ===== src/Session/Spelled.antt =====
-- A signer to try viewer/session.go with: it spells bytes in letters.
use phimtor.Base.{
  ℕ, zero, suc, ◌+◌, ◌==◌, Option, none, some, [], ◌∷◌, ◌++◌, All, if◌then◌else◌, ◌≡◌, refl, arith,
  ◌∙◌,
}
use phimtor.Base.Bytes.{Bytes}
use phimtor.Session.{Signer, IsSigner, IsCode}

spelled : ℕ → Bytes → Bytes
spelled zero t = b'b' ∷ t
spelled (suc n) t = b'a' ∷ spelled n t

pub spell_all : Bytes → Bytes
unfolding spelled
spell_all [] = []
spell_all (c ∷ s) = spelled c (spell_all s)

abbrev cons_some : ℕ → Option Bytes → Option Bytes
cons_some c none = none
cons_some c (some s) = some (c ∷ s)

pub read_spelled : ℕ → Bytes → Option Bytes
read_spelled n [] = some []
read_spelled n (c ∷ s) =
    let more = read_spelled (suc n) s in
    let next = cons_some n (read_spelled 0 s) in if c == b'b' then next else more

read_spelled-spelled :
    (n c : ℕ) (t : Bytes) → read_spelled n (spelled c t) ≡ cons_some (n + c) (read_spelled 0 t)
unfolding read_spelled spelled
read_spelled-spelled n zero t = ground arith
read_spelled-spelled n (suc c) t = ground (arith, read_spelled-spelled (suc n) c t)

read_spelled-spell_all : (s : Bytes) → read_spelled 0 (spell_all s) ≡ some s
unfolding read_spelled spell_all
read_spelled-spell_all [] = refl
read_spelled-spell_all (c ∷ s) =
    read_spelled-spelled 0 c (spell_all s) ∙ ground (arith, read_spelled-spell_all s)

spelled-IsCode : (c : ℕ) (t : Bytes) → All IsCode t → All IsCode (spelled c t)
unfolding spelled
spelled-IsCode zero t h = ((omega arith, omega arith, refl), h)
spelled-IsCode (suc c) t h = ((omega arith, omega arith, refl), spelled-IsCode c t h)

spell_all-IsCode : (s : Bytes) → All IsCode (spell_all s)
unfolding spell_all
spell_all-IsCode [] = tt
spell_all-IsCode (c ∷ s) = spelled-IsCode c (spell_all s) (spell_all-IsCode s)

abbrev pub signer : Signer
signer = record {
  mac = λ key payload. key ++ payload;
  encode = spell_all;
  decode = read_spelled 0;
  trim_space = λ t. t;
}

pub signer-IsSigner : IsSigner signer
signer-IsSigner = record {
  decode-encode = read_spelled-spell_all;
  encode-IsCode = spell_all-IsCode;
  trim_space-printed = λ b h. refl;
}
