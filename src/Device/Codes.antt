-- ===== src/Device/Codes.antt =====
-- viewer/device.go: the short code that a television shows and a person types.
use mathlib.Core.List.{append-nil}
use phimtor.Base.{
  ℕ, zero, suc, ◌-◌, ◌%◌, ◌≤◌, ◌<◌, true, ◌&&◌, ◌⊎◌, some, [], ◌∷◌, ◌++◌, map, length, leb, ◌==◌,
  All, if◌then◌else◌, if_elim, ◌≡◌, refl, sym, ap, ◌∙◌, arith, Bool-cases, inl, inr, subst,
}
use phimtor.Base.Bytes.{Bytes}
use phimtor.Session.{IsPrinted, lower}
use phimtor.Device.{
  Letters, is_in, letter_at, user_code_alphabet, user_code_len, code_letters, random_user_code,
  kept_letters, normalize_user_code, format_user_code,
}

abbrev pub upper : ℕ → ℕ
upper c = if leb b'a' c && leb c b'z' then c - 32 else c

-- What is relied on: upper case in ASCII, and that a text of printed ASCII has no space around it.
pub record IsLetters (u : Letters) : Type 0 where
  pub to_upper-ascii : (c : ℕ) → c < 128 → u.to_upper c ≡ upper c
  pub trim_space-printed : (s : Bytes) → All IsPrinted s → u.trim_space s ≡ s

abbrev pub InAlphabet : ℕ → Type 0
InAlphabet c = is_in c user_code_alphabet ≡ true

letter_at-is_in : (i : ℕ) (s : Bytes) → i < length s → is_in (letter_at i s) s ≡ true
letter_at-is_in i [] h = absurd (omega arith)
letter_at-is_in zero (c ∷ s) h = ground arith
letter_at-is_in (suc i) (c ∷ s) h = ground (arith, letter_at-is_in i s)

code_letters-InAlphabet :
    (n : ℕ) (raw : Bytes)
    → n ≤ length raw
    → (length (code_letters n raw) ≡ n) × All InAlphabet (code_letters n raw)
unfolding code_letters
code_letters-InAlphabet zero raw h = (refl, tt)
code_letters-InAlphabet (suc n) [] h = absurd (omega arith)
code_letters-InAlphabet (suc n) (c ∷ raw) h =
    let rest = code_letters-InAlphabet n raw (omega arith) in
    (
      ap (λ k. suc k) rest.0,
      (letter_at-is_in (c % length user_code_alphabet) user_code_alphabet (omega arith), rest.1),
    )

-- A digit or a capital.
abbrev IsCapital : ℕ → Type 0
IsCapital c = ((b'0' ≤ c) × (c ≤ b'9')) ⊎ ((b'A' ≤ c) × (c ≤ b'Z'))

is_in-All {κ} : (P : ℕ → Type κ) (c : ℕ) (s : Bytes) → All P s → is_in c s ≡ true → P c
is_in-All P c [] h e = absurd (ground arith)
is_in-All P c (d ∷ s) h e = elim (Bool-cases (c == d)) [
  | inl q ↦ subst P (ground arith) h.0
  | inr q ↦ is_in-All P c s h.1 (ground arith)
]

InAlphabet-IsCapital : (c : ℕ) → InAlphabet c → IsCapital c
InAlphabet-IsCapital c h = is_in-All IsCapital c user_code_alphabet (omega arith) h

module _ (u : Letters) where
  kept_letter :
      (d c : ℕ) (s : Bytes)
      → u.to_upper d ≡ c
      → InAlphabet c
      → kept_letters u (d ∷ s) ≡ c ∷ kept_letters u s
  unfolding kept_letters
  kept_letter d c s e i =
      let rest = kept_letters u s in
      ap (λ x. if is_in x user_code_alphabet then x ∷ rest else rest) e
      ∙ ap (λ b. if b then c ∷ rest else rest) i

  kept_letters-dash : (s : Bytes) → IsLetters u → kept_letters u (b'-' ∷ s) ≡ kept_letters u s
  unfolding kept_letters
  kept_letters-dash s l =
      let rest = kept_letters u s in
      ap (λ x. if is_in x user_code_alphabet then x ∷ rest else rest)
        (l.to_upper-ascii b'-' (omega arith))

  kept_letters-map :
      (f : ℕ → ℕ) (code s : Bytes)
      → IsLetters u
      → ((c : ℕ) → IsCapital c → (f c < 128) × (upper (f c) ≡ c))
      → All InAlphabet code
      → kept_letters u (map f code ++ s) ≡ code ++ kept_letters u s
  kept_letters-map f [] s l h a = refl
  kept_letters-map f (c ∷ code) s l h a =
      let cased = h c (InAlphabet-IsCapital c a.0) in
      kept_letter (f c) c (map f code ++ s) (l.to_upper-ascii (f c) cased.0 ∙ cased.1) a.0
      ∙ ap (λ t. c ∷ t) (kept_letters-map f code s l h a.1)

  kept_letters-format :
      (f : ℕ → ℕ) (code : Bytes)
      → IsLetters u
      → ((c : ℕ) → IsCapital c → (f c < 128) × (upper (f c) ≡ c))
      → f b'-' ≡ b'-'
      → All InAlphabet code
      → length code ≡ user_code_len
      → kept_letters u (map f (format_user_code code)) ≡ code
  unfolding format_user_code
  kept_letters-format f [] l h d a n = absurd (omega arith)
  kept_letters-format f (a ∷ []) l h d i n = absurd (omega arith)
  kept_letters-format f (a ∷ b ∷ []) l h d i n = absurd (omega arith)
  kept_letters-format f (a ∷ b ∷ c ∷ []) l h d i n = absurd (omega arith)
  kept_letters-format f (a ∷ b ∷ c ∷ e ∷ s) l h d i n =
      ap (λ t. kept_letters u (map f (if t then a ∷ b ∷ c ∷ e ∷ b'-' ∷ s else a ∷ b ∷ c ∷ e ∷ s)))
        (same_length (length (a ∷ b ∷ c ∷ e ∷ s)) n)
      ∙ kept_letters-map f (a ∷ b ∷ c ∷ e ∷ []) (map f (b'-' ∷ s)) l h
          (i.0, (i.1.0, (i.1.1.0, (i.1.1.1.0, tt))))
      ∙ ap (λ t. a ∷ b ∷ c ∷ e ∷ t)
          (ap (λ x. kept_letters u (x ∷ map f s)) d
            ∙ kept_letters-dash (map f s) l
            ∙ ap (λ t. kept_letters u t) (sym (append-nil (map f s)))
            ∙ kept_letters-map f s [] l h i.1.1.1.1
            ∙ (unfold kept_letters in append-nil s))
    where
      same_length : (k : ℕ) → k ≡ user_code_len → (k == user_code_len) ≡ true
      same_length k q = ground arith

map-IsPrinted :
    (f : ℕ → ℕ) (code : Bytes)
    → ((c : ℕ) → IsCapital c → IsPrinted (f c))
    → All InAlphabet code
    → All IsPrinted (map f code)
map-IsPrinted f [] h a = tt
map-IsPrinted f (c ∷ code) h a = (h c (InAlphabet-IsCapital c a.0), map-IsPrinted f code h a.1)

format-IsPrinted :
    (f : ℕ → ℕ) (code : Bytes)
    → ((c : ℕ) → IsCapital c → IsPrinted (f c))
    → f b'-' ≡ b'-'
    → All InAlphabet code
    → All IsPrinted (map f (format_user_code code))
unfolding format_user_code
format-IsPrinted f [] h d i = tt
format-IsPrinted f (a ∷ []) h d i = map-IsPrinted f (a ∷ []) h i
format-IsPrinted f (a ∷ b ∷ []) h d i = map-IsPrinted f (a ∷ b ∷ []) h i
format-IsPrinted f (a ∷ b ∷ c ∷ []) h d i = map-IsPrinted f (a ∷ b ∷ c ∷ []) h i
format-IsPrinted f (a ∷ b ∷ c ∷ e ∷ s) h d i =
    let all = map-IsPrinted f (a ∷ b ∷ c ∷ e ∷ s) h i in
    if_elim (λ t. All IsPrinted (map f t)) (length (a ∷ b ∷ c ∷ e ∷ s) == user_code_len) _ _
      (λ q. (all.0, (all.1.0, (all.1.1.0, (all.1.1.1.0, (ground arith, all.1.1.1.1)))))) (λ q. all)

-- Typed with each letter as it is or in another case.
normalize_user_code-typed :
    (u : Letters) (f : ℕ → ℕ) (code : Bytes)
    → IsLetters u
    → ((c : ℕ) → IsCapital c → (f c < 128) × (upper (f c) ≡ c) × IsPrinted (f c))
    → f b'-' ≡ b'-'
    → All InAlphabet code
    → length code ≡ user_code_len
    → normalize_user_code u (map f (format_user_code code)) ≡ code
unfolding normalize_user_code
normalize_user_code-typed u f code l h d a n =
    ap (kept_letters u) (l.trim_space-printed _ (format-IsPrinted f code (λ c q. (h c q).2) d a))
    ∙ kept_letters-format u f code l (λ c q. ((h c q).0, (h c q).1)) d a n

-- Small letters are typed as they are; the dash is no letter.
abbrev pub lower_case : Bytes → Bytes
lower_case s = map lower s

-- The code that is drawn from enough randomness has eight letters of the alphabet, and what the screen
-- shows, typed in capitals or in small letters, is read as that code.
pub normalize_user_code-random_user_code :
    (u : Letters) (raw : Bytes)
    → IsLetters u
    → user_code_len ≤ length raw
    → (code : Bytes) × (random_user_code (some raw) ≡ some code)
      × (length code ≡ user_code_len)
      × (normalize_user_code u (format_user_code code) ≡ code)
      × (normalize_user_code u (lower_case (format_user_code code)) ≡ code)
unfolding random_user_code normalize_user_code
normalize_user_code-random_user_code u raw l h =
    let code = code_letters user_code_len raw in
    let made = code_letters-InAlphabet user_code_len raw h in
    (
      code,
      refl,
      made.0,
      ap (normalize_user_code u) (sym (map_same (format_user_code code)))
          ∙ normalize_user_code-typed u (λ c. c) code l
              (λ c q. (ground arith, ground arith, ground arith)) refl made.1 made.0,
      normalize_user_code-typed u lower code l (λ c q. (ground arith, ground arith, ground arith))
          refl made.1 made.0,
    )
  where
    map_same : (s : Bytes) → map (λ c. c) s ≡ s
    map_same [] = refl
    map_same (c ∷ s) = ap (λ t. c ∷ t) (map_same s)
