-- ===== src/Ledger/Tests.antt =====
-- Invoices at concrete values.
use phimtor.Base.{none, some, [], ◌∷◌, ◌≡◌, refl}
use phimtor.Base.Bytes.{codes}
use phimtor.Ledger.{
  Invoice, Kind, Status, Ledger, Settlement, create_invoice, is_reserved, settle_invoice,
  settled_rows, can_settle, grant_kind,
}
use phimtor.Ledger.Settling.{settle_invoice_once}

abbrev no_invoices : Ledger
no_invoices = record { next_id = 1; invoices = []; plan_expires_at = λ u. none; unlocks = [] }

abbrev invoice : Invoice
invoice = record {
  id = 1;
  user_id = 7;
  kind = Kind.pass;
  status = Status.pending;
  lock = some (codes "base", 5);
  expires_at = 1000;
  paid_at = none;
  tx_hash = none;
}

abbrev one_invoice : Ledger
one_invoice = record {
  next_id = 2;
  invoices = invoice ∷ [];
  plan_expires_at = λ u. none;
  unlocks = [];
}

created : (create_invoice 100 7 Kind.pass (codes "base") 5 15 no_invoices).0 ≡ some 1
unfolding create_invoice is_reserved
created = refl

settle_invoice_once_example :
    settle_invoice 300
      (codes "0xb")
      30
      invoice
      (settle_invoice 200 (codes "0xa") 30 invoice one_invoice).1
    ≡ (Settlement.already, (settle_invoice 200 (codes "0xa") 30 invoice one_invoice).1)
settle_invoice_once_example =
    settle_invoice_once 200 300 (codes "0xa") (codes "0xb") 30 30 invoice invoice one_invoice
      (unfold settle_invoice settled_rows can_settle grant_kind in refl) refl
