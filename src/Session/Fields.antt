-- ===== src/Session/Fields.antt =====
-- viewer/session.go: the parts of a payload, and what the readers make of them.
use phimtor.Base.{
  ℕ, zero, suc, ◌≤◌, ◌<◌, min, none, some, List, [], ◌∷◌, ◌++◌, length, ◌≡◌, refl, ap, ◌∙◌, arith,
  inr,
}
use phimtor.Base.Bytes.{Bytes, codes, Lacks}
use phimtor.Base.Decimal.{decimal, decimal-Lacks, parse_int-decimal, max_int64}
use phimtor.Session.{
  split_on, split_n, add_first, session_fields, bearer_fields, state_fields, session_payload,
  device_payload, state_payload,
}

module _ (b : ℕ) where
  split_on-Lacks : (p : Bytes) → Lacks b p → split_on b p ≡ p ∷ []
  unfolding split_on
  split_on-Lacks [] h = refl
  split_on-Lacks (c ∷ p) h = ground (arith, split_on-Lacks p)

  split_on-append : (p s : Bytes) → Lacks b p → split_on b (p ++ b ∷ s) ≡ p ∷ split_on b s
  unfolding split_on
  split_on-append [] s h = ground arith
  split_on-append (c ∷ p) s h = ground (arith, split_on-append p s)

  split_n-append :
      (n : ℕ) (p s : Bytes)
      → Lacks b p
      → split_n (suc (suc n)) b (p ++ b ∷ s) ≡ p ∷ split_n (suc n) b s
  unfolding split_n
  split_n-append n [] s h = ground arith
  split_n-append n (c ∷ p) s h = ground (arith, split_n-append n p s)

  length-add_first : (c : ℕ) (ps : List Bytes) → 0 < length ps → length (add_first c ps) ≡ length ps
  length-add_first c [] h = absurd (omega arith)
  length-add_first c (p ∷ ps) h = refl

  split_on-positive : (s : Bytes) → 0 < length (split_on b s)
  unfolding split_on
  split_on-positive [] = omega arith
  split_on-positive (c ∷ s) = ground (arith, split_on-positive s, length-add_first c (split_on b s))

  split_n-positive : (n : ℕ) (s : Bytes) → 0 < length (split_n (suc n) b s)
  unfolding split_n
  split_n-positive zero s = omega arith
  split_n-positive (suc n) [] = omega arith
  split_n-positive (suc n) (c ∷ s) =
      ground (arith, split_n-positive (suc n) s, length-add_first c (split_n (suc (suc n)) b s))

  -- SplitN gives as many parts as Split, up to its bound.
  pub length-split_n :
      (n : ℕ) (s : Bytes) → length (split_n (suc n) b s) ≡ min (suc n) (length (split_on b s))
  unfolding split_n split_on
  length-split_n zero s = omega (arith, split_on-positive s)
  length-split_n (suc n) [] = omega arith
  length-split_n (suc n) (c ∷ s) = ground (
    arith,
    length-split_n n s,
    length-split_n (suc n) s,
    length-add_first c (split_on b s) (split_on-positive s),
    length-add_first c (split_n (suc (suc n)) b s) (split_n-positive (suc n) s),
  )

colon_free : (n : ℕ) → Lacks b':' (decimal n)
colon_free n = decimal-Lacks b':' n (inr (omega arith))

v1_free : Lacks b':' (codes "v1")
v1_free = (omega arith, (omega arith, tt))

v1tv_free : Lacks b':' (codes "v1tv")
v1tv_free = (omega arith, (omega arith, (omega arith, (omega arith, tt))))

split_on-session_payload :
    (id exp : ℕ)
    → split_on b':' (session_payload id exp) ≡ codes "v1" ∷ decimal id ∷ decimal exp ∷ []
unfolding session_payload
split_on-session_payload id exp =
    split_on-append b':' (codes "v1") _ v1_free
    ∙ ap (λ t. codes "v1" ∷ t)
        (split_on-append b':' (decimal id) _ (colon_free id)
          ∙ ap (λ t. decimal id ∷ t) (split_on-Lacks b':' (decimal exp) (colon_free exp)))

split_on-device_payload :
    (id device exp : ℕ)
    → split_on b':' (device_payload id device exp)
      ≡ codes "v1tv" ∷ decimal id ∷ decimal device ∷ decimal exp ∷ []
unfolding device_payload
split_on-device_payload id device exp =
    split_on-append b':' (codes "v1tv") _ v1tv_free
    ∙ ap (λ t. codes "v1tv" ∷ t)
        (split_on-append b':' (decimal id) _ (colon_free id)
          ∙ ap (λ t. decimal id ∷ t)
              (split_on-append b':' (decimal device) _ (colon_free device)
                ∙ ap (λ t. decimal device ∷ t)
                    (split_on-Lacks b':' (decimal exp) (colon_free exp))))

split_n-state_payload :
    (nonce : Bytes) (exp : ℕ) (next : Bytes)
    → Lacks b':' nonce
    → split_n 4 b':' (state_payload nonce exp next) ≡ codes "v1" ∷ nonce ∷ decimal exp ∷ next ∷ []
unfolding state_payload
split_n-state_payload nonce exp next h =
    split_n-append b':' 2 (codes "v1") _ v1_free
    ∙ ap (λ t. codes "v1" ∷ t)
        (split_n-append b':' 1 nonce _ h
          ∙ ap (λ t. nonce ∷ t)
              (split_n-append b':' 0 (decimal exp) next (colon_free exp) ∙ unfold split_n in refl))

pub session_fields-payload :
    (now id exp : ℕ)
    → 0 < id
    → id ≤ max_int64
    → exp ≤ max_int64
    → now < exp
    → session_fields now (split_on b':' (session_payload id exp)) ≡ some id
unfolding session_fields
session_fields-payload now id exp p i e h =
    ap (session_fields now) (split_on-session_payload id exp)
    ∙ ground (arith, parse_int-decimal id i, parse_int-decimal exp e)

pub bearer_fields-payload :
    (now id device exp : ℕ)
    → 0 < id
    → id ≤ max_int64
    → 0 < device
    → device ≤ max_int64
    → exp ≤ max_int64
    → now < exp
    → bearer_fields now (split_on b':' (device_payload id device exp)) ≡ some (id, device)
unfolding bearer_fields
bearer_fields-payload now id device exp p i q d e h =
    ap (bearer_fields now) (split_on-device_payload id device exp)
    ∙ ground (arith, parse_int-decimal id i, parse_int-decimal device d, parse_int-decimal exp e)

pub state_fields-payload :
    (now : ℕ) (nonce : Bytes) (exp : ℕ) (next : Bytes)
    → Lacks b':' nonce
    → exp ≤ max_int64
    → now < exp
    → state_fields now (split_n 4 b':' (state_payload nonce exp next)) ≡ some (nonce, next)
unfolding state_fields
state_fields-payload now nonce exp next n e h =
    ap (state_fields now) (split_n-state_payload nonce exp next n)
    ∙ ground (arith, parse_int-decimal exp e)

pub session_fields-three :
    (now id : ℕ) (ps : List Bytes) → session_fields now ps ≡ some id → length ps ≡ 3
unfolding session_fields
session_fields-three now id [] h = ground arith
session_fields-three now id (v ∷ []) h = ground arith
session_fields-three now id (v ∷ i ∷ []) h = ground arith
session_fields-three now id (v ∷ i ∷ exp ∷ []) h = refl
session_fields-three now id (v ∷ i ∷ exp ∷ x ∷ more) h = ground arith

pub bearer_fields-three : (now : ℕ) (ps : List Bytes) → length ps ≡ 3 → bearer_fields now ps ≡ none
unfolding bearer_fields
bearer_fields-three now [] h = refl
bearer_fields-three now (v ∷ []) h = refl
bearer_fields-three now (v ∷ i ∷ []) h = refl
bearer_fields-three now (v ∷ i ∷ d ∷ []) h = refl
bearer_fields-three now (v ∷ i ∷ d ∷ e ∷ more) h = absurd (omega arith)

pub state_fields-three : (now : ℕ) (ps : List Bytes) → length ps ≡ 3 → state_fields now ps ≡ none
unfolding state_fields
state_fields-three now [] h = refl
state_fields-three now (v ∷ []) h = refl
state_fields-three now (v ∷ i ∷ []) h = refl
state_fields-three now (v ∷ i ∷ d ∷ []) h = refl
state_fields-three now (v ∷ i ∷ d ∷ e ∷ more) h = absurd (omega arith)
