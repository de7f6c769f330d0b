-- ===== src/Ledger/Granting.antt =====
-- viewer/store.go: what a settled invoice has granted.
use phimtor.Base.{
  ℕ, ◌+◌, ◌*◌, ◌≤◌, true, Option, none, some, ◌==◌, if_elim, ◌≡◌, sym, ap, ◌∙◌, arith, Bool-cases,
  Option-cases, inl, inr, subst,
}
use phimtor.Base.Bytes.{Bytes}
use phimtor.Ledger.{
  Invoice, Kind, Ledger, Settlement, settled_rows, grant_kind, marked, settle_invoice, pass_start,
  is_unlocked,
}

settled-grant_kind :
    (now : ℕ) (tx : Bytes) (days : ℕ) (inv : Invoice) (l : Ledger) (kind : Kind)
    → (settle_invoice now tx days inv l).0 ≡ Settlement.settled
    → inv.kind ≡ kind
    → grant_kind now days inv.user_id (marked now inv.id tx l) kind
      ≡ some (settle_invoice now tx days inv l).1
unfolding settle_invoice
settled-grant_kind now tx days inv l kind h k =
    elim (Bool-cases (settled_rows inv.id l.invoices == 0)) [
      | inl e ↦ absurd (ground arith)
      | inr e ↦
          elim (Option-cases (grant_kind now days inv.user_id (marked now inv.id tx l) inv.kind)) [
            | inl g ↦ absurd (ground arith)
            | inr (l', g) ↦
                rw e
                  (rw g (ap (grant_kind now days inv.user_id (marked now inv.id tx l)) (sym k) ∙ g))
          ]
    ]

pass_start-after : (now : ℕ) (o : Option ℕ) → now ≤ pass_start now o
pass_start-after now none = omega arith
pass_start-after now (some end) = ground arith

granted_pass :
    (now days user : ℕ) (l l' : Ledger)
    → grant_kind now days user l Kind.pass ≡ some l'
    → l'.plan_expires_at user ≡ some (pass_start now (l.plan_expires_at user) + days * 86400)
unfolding grant_kind
granted_pass now days user l l' h = subst Runs h (ground arith)
  where
    Runs : Option Ledger → Type 0
    Runs none = Unit
    Runs (some m) =
        m.plan_expires_at user ≡ some (pass_start now (l.plan_expires_at user) + days * 86400)

granted_title :
    (now days user t : ℕ) (l l' : Ledger)
    → grant_kind now days user l (Kind.title (some t)) ≡ some l'
    → is_unlocked user t l'.unlocks ≡ true
unfolding grant_kind is_unlocked
granted_title now days user t l l' h = subst Opened h (
    if_elim (λ us. is_unlocked user t us ≡ true) (is_unlocked user t l.unlocks) _ _ (λ e. e)
      (λ _. ground arith))
  where
    Opened : Option Ledger → Type 0
    Opened none = Unit
    Opened (some m) = is_unlocked user t m.unlocks ≡ true

-- A settled pass runs for its days from now at least.
pub settle_invoice-plan_expires_at :
    (now : ℕ) (tx : Bytes) (days : ℕ) (inv : Invoice) (l : Ledger)
    → (settle_invoice now tx days inv l).0 ≡ Settlement.settled
    → inv.kind ≡ Kind.pass
    → (end : ℕ) × ((settle_invoice now tx days inv l).1.plan_expires_at inv.user_id ≡ some end)
      × (now + days * 86400 ≤ end)
settle_invoice-plan_expires_at now tx days inv l h k = (
  _,
  granted_pass now days inv.user_id (marked now inv.id tx l) _
      (settled-grant_kind now tx days inv l Kind.pass h k),
  omega (arith, pass_start-after now (l.plan_expires_at inv.user_id)),
)

-- A settled title is unlocked for its account.
pub settle_invoice-is_unlocked :
    (now : ℕ) (tx : Bytes) (days : ℕ) (inv : Invoice) (l : Ledger) (t : ℕ)
    → (settle_invoice now tx days inv l).0 ≡ Settlement.settled
    → inv.kind ≡ Kind.title (some t)
    → is_unlocked inv.user_id t (settle_invoice now tx days inv l).1.unlocks ≡ true
settle_invoice-is_unlocked now tx days inv l t h k =
    granted_title now days inv.user_id t (marked now inv.id tx l) _
      (settled-grant_kind now tx days inv l (Kind.title (some t)) h k)
