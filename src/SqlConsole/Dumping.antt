-- ===== src/SqlConsole/Dumping.antt =====
-- admin/sqlconsole.go: the INSERT statements of a dump.
use mathlib.Core.List.{append_assoc}
use phimtor.Base.{
  ℕ, ◌+◌, ◌≤◌, ◌<◌, List, [], ◌∷◌, ◌++◌, ltb, leb, ◌==◌, length, All, if◌then◌else◌, ◌≡◌, refl, sym,
  ap, ◌∙◌, arith, Bool-cases, inl, inr,
}
use phimtor.Base.Bytes.{Bytes}
use phimtor.SqlConsole.{dump_rows, dump_table, dump_batch_bytes}

-- The groups of rows, of which one may be empty at the front.
abbrev pub all_groups : List Bytes × List (List Bytes) → List (List Bytes)
all_groups ([], gs) = gs
all_groups (row ∷ g, gs) = (row ∷ g) ∷ gs

-- The rows cut into statements: a statement ends with the row that brings it to the batch size. The
-- number is the bytes in the open statement, and the rows that continue it come first.
pub cut : ℕ → List Bytes → List Bytes × List (List Bytes)
cut batch [] = ([], [])
cut batch (row ∷ rows) =
    let closed : List Bytes × List (List Bytes) = (row ∷ [], all_groups (cut 0 rows)) in
    let (g, gs) = cut (batch + length row) rows in
    let kept : List Bytes × List (List Bytes) = (row ∷ g, gs) in
    if leb dump_batch_bytes (batch + length row) then closed else kept

pub groups : List Bytes → List (List Bytes)
unfolding cut
groups rows = all_groups (cut 0 rows)

-- The later rows of a statement and its end, in front of a text.
abbrev pub rest_of : List Bytes → Bytes → Bytes
rest_of [] k = b';' ∷ 10 ∷ k
rest_of (row ∷ g) k = b',' ∷ 10 ∷ (row ++ rest_of g k)

-- One INSERT of all the rows of a group, in front of a text.
abbrev pub statement : Bytes → List Bytes → Bytes → Bytes
statement insert [] k = k
statement insert (row ∷ g) k = insert ++ (row ++ rest_of g k)

abbrev pub statements : Bytes → List (List Bytes) → Bytes
statements insert [] = []
statements insert (g ∷ gs) = statement insert g (statements insert gs)

abbrev pub joined : List (List Bytes) → List Bytes
joined [] = []
joined (g ∷ gs) = g ++ joined gs

-- The bytes of a group before its last row.
abbrev pub before_last : List Bytes → ℕ
before_last [] = 0
before_last (row ∷ []) = 0
before_last (row ∷ r ∷ g) = length row + before_last (r ∷ g)

abbrev finished : Bytes × ℕ → Bytes
finished (out, batch) = if ltb 0 batch then out ++ b';' ∷ 10 ∷ [] else out

abbrev opened : Bytes → ℕ → List Bytes → Bytes → Bytes
opened insert batch g k = if batch == 0 then statement insert g k else rest_of g k

abbrev start_of : Bytes → ℕ → Bytes
start_of insert batch = if batch == 0 then insert else b',' ∷ 10 ∷ []

finished-append : (a x : Bytes) (n : ℕ) → finished (a ++ x, n) ≡ a ++ finished (x, n)
finished-append a x n = elim (Bool-cases (ltb 0 n)) [
  | inl e ↦ rw e (append_assoc a x (b';' ∷ 10 ∷ []))
  | inr e ↦ rw e refl
]

opened-cons :
    (insert : Bytes) (batch : ℕ) (row : Bytes) (g : List Bytes) (k : Bytes)
    → opened insert batch (row ∷ g) k ≡ start_of insert batch ++ (row ++ rest_of g k)
opened-cons insert batch row g k = elim (Bool-cases (batch == 0)) [
  | inl e ↦ rw e refl
  | inr e ↦ rw e refl
]

statements-all_groups :
    (insert : Bytes) (p : List Bytes × List (List Bytes))
    → statements insert (all_groups p) ≡ opened insert 0 p.0 (statements insert p.1)
statements-all_groups insert ([], gs) = refl
statements-all_groups insert (row ∷ g, gs) = refl

-- A row and what follows it, finished.
finished-row :
    (start row x y : Bytes) (n : ℕ)
    → finished (x, n) ≡ y
    → finished (start ++ (row ++ x), n) ≡ start ++ (row ++ y)
finished-row start row x y n e =
    finished-append start (row ++ x) n
    ∙ ap (λ t. start ++ t) (finished-append row x n ∙ ap (λ t. row ++ t) e)

module _ (insert : Bytes) where
  dump_rows-opened :
      (batch : ℕ) (rows : List Bytes)
      → All (λ (row : Bytes). 0 < length row) rows
      → finished (dump_rows insert batch rows)
        ≡ opened insert batch (cut batch rows).0 (statements insert (cut batch rows).1)
  unfolding dump_rows cut
  dump_rows-opened batch [] h = ground arith
  dump_rows-opened batch (row ∷ rows) (p, h) =
      elim (Bool-cases (leb dump_batch_bytes (batch + length row))) [
        | inl e ↦ rw e (
            finished-row (start_of insert batch) row (b';' ∷ 10 ∷ (dump_rows insert 0 rows).0)
              (b';' ∷ 10 ∷ statements insert (all_groups (cut 0 rows))) (dump_rows insert 0 rows).1
              (finished-append (b';' ∷ 10 ∷ []) (dump_rows insert 0 rows).0
                  (dump_rows insert 0 rows).1
                ∙ ap (λ t. b';' ∷ 10 ∷ t)
                    (dump_rows-opened 0 rows h ∙ sym (statements-all_groups insert (cut 0 rows))))
            ∙ sym (opened-cons insert batch row [] (statements insert (all_groups (cut 0 rows)))))
        | inr e ↦ rw e (
            finished-row (start_of insert batch) row (dump_rows insert (batch + length row) rows).0
              (rest_of (cut (batch + length row) rows).0
                (statements insert (cut (batch + length row) rows).1))
              (dump_rows insert (batch + length row) rows).1
              (dump_rows-opened (batch + length row) rows h
                ∙ opened-later (batch + length row) (cut (batch + length row) rows).0
                    (statements insert (cut (batch + length row) rows).1) (omega arith))
            ∙ sym (
                opened-cons insert batch row (cut (batch + length row) rows).0
                  (statements insert (cut (batch + length row) rows).1)))
      ]
    where
      opened-later :
          (n : ℕ) (g : List Bytes) (k : Bytes) → 0 < n → opened insert n g k ≡ rest_of g k
      opened-later n g k q = ground arith

joined-all_groups : (p : List Bytes × List (List Bytes)) → joined (all_groups p) ≡ p.0 ++ joined p.1
joined-all_groups ([], gs) = refl
joined-all_groups (row ∷ g, gs) = refl

joined-cut :
    (batch : ℕ) (rows : List Bytes) → (cut batch rows).0 ++ joined (cut batch rows).1 ≡ rows
unfolding cut
joined-cut batch [] = refl
joined-cut batch (row ∷ rows) = elim (Bool-cases (leb dump_batch_bytes (batch + length row))) [
  | inl e ↦ rw e (ap (λ t. row ∷ t) (joined-all_groups (cut 0 rows) ∙ joined-cut 0 rows))
  | inr e ↦ rw e (ap (λ t. row ∷ t) (joined-cut (batch + length row) rows))
]

abbrev pub IsSmall : List Bytes → Type 0
IsSmall g = before_last g < dump_batch_bytes

all_groups-IsSmall :
    (p : List Bytes × List (List Bytes))
    → IsSmall p.0
    → All IsSmall p.1
    → All IsSmall (all_groups p)
all_groups-IsSmall ([], gs) h hs = hs
all_groups-IsSmall (row ∷ g, gs) h hs = (h, hs)

before_last-cons :
    (row : Bytes) (g : List Bytes) → before_last (row ∷ g) ≤ length row + before_last g
before_last-cons row [] = omega arith
before_last-cons row (r ∷ g) = omega arith

groups-IsSmall :
    (rows : List Bytes)
    → 0 + before_last (cut 0 rows).0 < dump_batch_bytes × All IsSmall (cut 0 rows).1
    → All IsSmall (groups rows)
unfolding groups
groups-IsSmall rows (h, hs) = all_groups-IsSmall (cut 0 rows) (omega arith) hs

-- The bytes of the open statement and of the rows that continue it, before the last of them.
cut-IsSmall :
    (batch : ℕ) (rows : List Bytes)
    → batch < dump_batch_bytes
    → batch + before_last (cut batch rows).0 < dump_batch_bytes × All IsSmall (cut batch rows).1
unfolding cut groups
cut-IsSmall batch [] h = (omega arith, tt)
cut-IsSmall batch (row ∷ rows) h = elim (Bool-cases (leb dump_batch_bytes (batch + length row))) [
  | inl e ↦ rw e (omega arith, groups-IsSmall rows (cut-IsSmall 0 rows (omega arith)))
  | inr e ↦ rw e (
      kept (before_last (cut (batch + length row) rows).0)
        (before_last-cons row (cut (batch + length row) rows).0)
        (cut-IsSmall (batch + length row) rows (ground arith)))
]
  where
    kept :
        {n : ℕ} (g : ℕ) {P : Type 0}
        → n ≤ length row + g
        → (batch + length row) + g < dump_batch_bytes × P
        → batch + n < dump_batch_bytes × P
    kept g q (r, hs) = (omega arith, hs)

-- The dump of a table with rows that are not empty is one INSERT for each group of a division of the
-- rows into groups, in their order. Without its last row the text of a group is smaller than the batch
-- size, and no row is lost or repeated.
pub dump_table-statements :
    (insert : Bytes) (rows : List Bytes)
    → All (λ (row : Bytes). 0 < length row) rows
    → dump_table insert rows ≡ statements insert (groups rows)
      × joined (groups rows) ≡ rows
      × All IsSmall (groups rows)
unfolding dump_table groups
dump_table-statements insert rows h = (
  dump_rows-opened insert 0 rows h ∙ sym (statements-all_groups insert (cut 0 rows)),
  joined-all_groups (cut 0 rows) ∙ joined-cut 0 rows,
  groups-IsSmall rows (cut-IsSmall 0 rows (omega arith)),
)
