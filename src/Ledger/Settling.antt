-- ===== src/Ledger/Settling.antt =====
-- viewer/store.go: `SettleInvoice`, however often it is called.
use phimtor.Base.{
  ℕ, false, none, some, List, [], ◌∷◌, ◌==◌, ◌≡◌, refl, ap, ◌∙◌, arith, Bool-cases, Option-cases,
  inl, inr,
}
use phimtor.Base.Bytes.{Bytes}
use phimtor.Ledger.{
  Invoice, Kind, Ledger, Settlement, can_settle, settle_row, settle_rows, settled_rows, grant_kind,
  marked, settle_invoice,
}

settle_row-can_settle :
    (now id : ℕ) (tx : Bytes) (i : Invoice) → can_settle id (settle_row now id tx i) ≡ false
unfolding settle_row
settle_row-can_settle now id tx i = elim (Bool-cases (can_settle id i)) [
  | inl e ↦ rw e (unfold can_settle in ground arith)
  | inr e ↦ rw e e
]

settled_rows-settle_rows :
    (now id : ℕ) (tx : Bytes) (rows : List Invoice)
    → settled_rows id (settle_rows now id tx rows) ≡ 0
unfolding settled_rows settle_rows
settled_rows-settle_rows now id tx [] = refl
settled_rows-settle_rows now id tx (i ∷ rows) =
    rw (settle_row-can_settle now id tx i) (settled_rows-settle_rows now id tx rows)

grant_kind-invoices :
    (now days user : ℕ) (l l' : Ledger) (kind : Kind)
    → grant_kind now days user l kind ≡ some l'
    → l'.invoices ≡ l.invoices
unfolding grant_kind
grant_kind-invoices now days user l l' Kind.pass h = ground arith
grant_kind-invoices now days user l l' (Kind.title none) h = absurd (ground arith)
grant_kind-invoices now days user l l' (Kind.title (some t)) h = ground arith
grant_kind-invoices now days user l l' Kind.unknown h = absurd (ground arith)

-- What settles has marked the invoice.
settled-invoices :
    (now : ℕ) (tx : Bytes) (days : ℕ) (inv : Invoice) (l : Ledger)
    → (settle_invoice now tx days inv l).0 ≡ Settlement.settled
    → (settle_invoice now tx days inv l).1.invoices ≡ settle_rows now inv.id tx l.invoices
unfolding settle_invoice
settled-invoices now tx days inv l h = elim (Bool-cases (settled_rows inv.id l.invoices == 0)) [
  | inl e ↦ absurd (ground arith)
  | inr e ↦
      elim (Option-cases (grant_kind now days inv.user_id (marked now inv.id tx l) inv.kind)) [
        | inl g ↦ absurd (ground arith)
        | inr (l', g) ↦
            rw e (
              rw g
                (grant_kind-invoices now days inv.user_id (marked now inv.id tx l) l' inv.kind g))
      ]
]

-- An invoice that is settled once is not settled again, by whatever payment and with whatever copy of
-- it: the later calls answer so and change nothing, so that its entitlement is granted once.
pub settle_invoice_once :
    (now now' : ℕ) (tx tx' : Bytes) (days days' : ℕ) (inv inv' : Invoice) (l : Ledger)
    → (settle_invoice now tx days inv l).0 ≡ Settlement.settled
    → inv'.id ≡ inv.id
    → settle_invoice now' tx' days' inv' (settle_invoice now tx days inv l).1
      ≡ (Settlement.already, (settle_invoice now tx days inv l).1)
settle_invoice_once now now' tx tx' days days' inv inv' l h e =
    none_left (settle_invoice now tx days inv l).1 (
      ap (λ i. settled_rows i (settle_invoice now tx days inv l).1.invoices) e
      ∙ ap (settled_rows inv.id) (settled-invoices now tx days inv l h)
      ∙ settled_rows-settle_rows now inv.id tx l.invoices)
  where
    none_left :
        (l : Ledger)
        → settled_rows inv'.id l.invoices ≡ 0
        → settle_invoice now' tx' days' inv' l ≡ (Settlement.already, l)
    none_left l q = unfold settle_invoice in ground arith
