-- ===== src/Base/Bytes.antt =====
-- Texts as lists of bytes, where the code walks through them.
use Prim.Native.Char.{code}
use Prim.Native.Nat.{ℕ, ◌<◌}
use Prim.Native.String.{String}
use mathlib.Core.Bool.{Bool, true, false, ◌&&◌}
use mathlib.Core.Logic.{◌≢◌}
use mathlib.Core.List.{List, [], ◌∷◌, ◌++◌}
use mathlib.Core.Option.{Option, none, some}
use mathlib.Core.Path.{◌≡◌, refl}
use native.Mathlib.Omega.{arith}
use phimtor.Base.Lists.{All, length}
use phimtor.Base.Tests.{◌==◌, if◌then◌else◌, if_elim}

abbrev pub Bytes : Type 0
Bytes = List ℕ

-- The bytes of a literal, which is ASCII.
abbrev pub codes : String → Bytes
codes String.[] = []
codes (String.◌∷◌ c s) = code c ∷ codes s

abbrev pub Lacks : ℕ → Bytes → Type 0
Lacks b = All (λ c. c ≢ b)

-- strings.TrimPrefix where the text has the prefix, and none where it has not.
unfoldable pub after_prefix : Bytes → Bytes → Option Bytes
after_prefix [] s = some s
after_prefix (c ∷ p) [] = none
after_prefix (c ∷ p) (d ∷ s) = let rest = after_prefix p s in if c == d then rest else none

pub after_prefix-append : (p s : Bytes) → after_prefix p (p ++ s) ≡ some s
unfolding after_prefix
after_prefix-append [] s = refl
after_prefix-append (c ∷ p) s = ground (arith, after_prefix-append p s)

pub after_prefix-other : (c d : ℕ) (p s : Bytes) → d ≢ c → after_prefix (c ∷ p) (d ∷ s) ≡ none
unfolding after_prefix
after_prefix-other c d p s n = ground arith

pub after_prefix-second :
    (c d e : ℕ) (s : Bytes) → d ≢ e → after_prefix (c ∷ d ∷ []) (c ∷ e ∷ s) ≡ none
unfolding after_prefix
after_prefix-second c d e s n = ground arith

abbrev pub same_bytes : Bytes → Bytes → Bool
same_bytes [] [] = true
same_bytes (c ∷ s) (d ∷ t) = c == d && same_bytes s t
same_bytes [] (d ∷ t) = false
same_bytes (c ∷ s) [] = false

pub same_bytes_refl : (s : Bytes) → same_bytes s s ≡ true
same_bytes_refl [] = refl
same_bytes_refl (c ∷ s) = ground (arith, same_bytes_refl s)

pub same_bytes-equal : (s t : Bytes) → same_bytes s t ≡ true → s ≡ t
same_bytes-equal [] [] h = refl
same_bytes-equal [] (d ∷ t) h = ground arith
same_bytes-equal (c ∷ s) [] h = ground arith
same_bytes-equal (c ∷ s) (d ∷ t) h = ground (arith, same_bytes-equal s t)

-- What follows the first such byte: strings.IndexByte and the slice after it.
unfoldable pub after_byte : ℕ → Bytes → Option Bytes
after_byte b [] = none
after_byte b (c ∷ s) = let rest = after_byte b s in if c == b then some s else rest

pub after_byte-append : (b : ℕ) (p s : Bytes) → Lacks b p → after_byte b (p ++ b ∷ s) ≡ some s
unfolding after_byte
after_byte-append b [] s h = ground arith
after_byte-append b (c ∷ p) s h = ground (arith, after_byte-append b p s)

-- A rest that is shorter than a text.
abbrev pub Shorter : Bytes → Option Bytes → Type 0
Shorter q none = Unit
Shorter q (some r) = length r < length q

pub after_byte-Shorter : (b : ℕ) (q : Bytes) → Shorter q (after_byte b q)
unfolding after_byte
after_byte-Shorter b [] = tt
after_byte-Shorter b (c ∷ s) =
    if_elim (Shorter (c ∷ s)) (c == b) _ _ (λ _. omega arith)
      (λ _. further (after_byte b s) (after_byte-Shorter b s))
  where
    further : (o : Option Bytes) → Shorter s o → Shorter (c ∷ s) o
    further none h = tt
    further (some r) h = omega arith

pub after_prefix-Shorter : (a b : ℕ) (q : Bytes) → Shorter q (after_prefix (a ∷ b ∷ []) q)
unfolding after_prefix
after_prefix-Shorter a b [] = tt
after_prefix-Shorter a b (c ∷ []) = ground arith
after_prefix-Shorter a b (c ∷ d ∷ s) = ground arith
