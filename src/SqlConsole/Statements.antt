-- ===== src/SqlConsole/Statements.antt =====
-- admin/sqlconsole.go: which statements are taken to produce rows.
use phimtor.Base.{
  ℕ, zero, suc, ◌≤◌, ◌<◌, Option, none, some, [], ◌∷◌, ◌++◌, length, ◌≡◌, ◌≢◌, subst, arith,
  Option_elim, inl, inr, Option-cases,
}
use phimtor.Base.Bytes.{
  Bytes, Lacks, after_prefix, after_byte, Shorter, after_byte-Shorter, after_prefix-Shorter,
}
use phimtor.SqlConsole.{Unicode, trim_left, after_block, skip_comments}

after_block-Shorter : (q : Bytes) → Shorter q (after_block q)
unfolding after_block
after_block-Shorter [] = tt
after_block-Shorter (c ∷ s) =
    Option_elim (Shorter (c ∷ s)) (after_prefix (b'*' ∷ b'/' ∷ []) (c ∷ s)) _ _
      (λ _. further (after_block s) (after_block-Shorter s))
      (λ r e. subst (Shorter (c ∷ s)) e (after_prefix-Shorter b'*' b'/' (c ∷ s)))
  where
    further : (o : Option Bytes) → Shorter s o → Shorter (c ∷ s) o
    further none h = tt
    further (some r) h = omega arith

-- The comments of SQL.
pub data Comment : Type 0 where
  dashes : Bytes → Comment
  hash : Bytes → Comment
  block : Bytes → Comment

-- The comment in front of a text.
pub spell : Comment → Bytes → Bytes
spell (dashes b) q = b'-' ∷ b'-' ∷ (b ++ 10 ∷ q)
spell (hash b) q = b'#' ∷ (b ++ 10 ∷ q)
spell (block b) q = b'/' ∷ b'*' ∷ (b ++ b'*' ∷ b'/' ∷ q)

abbrev pub StartsNotWith : ℕ → Bytes → Type 0
StartsNotWith b [] = Unit
StartsNotWith b (c ∷ s) = c ≢ b

-- A line comment holds no newline; a block holds no star, and does not start with a slash.
abbrev pub IsComment : Comment → Type 0
IsComment (dashes b) = Lacks 10 b
IsComment (hash b) = Lacks 10 b
IsComment (block b) = Lacks b'*' b × StartsNotWith b'/' b

module _ (u : Unicode) where
  length-trim_left : (q : Bytes) → length (trim_left u q) ≤ length q
  unfolding trim_left
  length-trim_left [] = omega arith
  length-trim_left (c ∷ s) = ground (arith, length-trim_left s)

  -- More fuel than the text is long makes no difference.
  pub skip_comments-fuel :
      (f g : ℕ) (q : Bytes)
      → length q < f
      → length q < g
      → skip_comments u f q ≡ skip_comments u g q
  unfolding skip_comments
  skip_comments-fuel zero g q h k = absurd (omega arith)
  skip_comments-fuel (suc f) zero q h k = absurd (omega arith)
  skip_comments-fuel (suc f) (suc g) q h k =
      let t = trim_left u q in
      elim (Option-cases (after_byte 10 t)) [
        | inl a ↦ elim (Option-cases (after_block t)) [
          | inl b ↦ ground arith
          | inr (s, b) ↦
              ground (arith, skip_comments-fuel f g s, shorter_block s b, length-trim_left q)
        ]
        | inr (r, a) ↦ elim (Option-cases (after_block t)) [
          | inl b ↦ ground (arith, skip_comments-fuel f g r, shorter_line r a, length-trim_left q)
          | inr (s, b) ↦ ground (
            arith,
            skip_comments-fuel f g r,
            shorter_line r a,
            skip_comments-fuel f g s,
            shorter_block s b,
            length-trim_left q,
          )
        ]
      ]
    where
      shorter_line :
          (r : Bytes) → after_byte 10 (trim_left u q) ≡ some r → length r < length (trim_left u q)
      shorter_line r e = subst (Shorter (trim_left u q)) e (after_byte-Shorter 10 (trim_left u q))

      shorter_block :
          (r : Bytes) → after_block (trim_left u q) ≡ some r → length r < length (trim_left u q)
      shorter_block r e = subst (Shorter (trim_left u q)) e (after_block-Shorter (trim_left u q))
