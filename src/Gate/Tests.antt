-- ===== src/Gate/Tests.antt =====
-- The gate at concrete values.
use phimtor.Base.{none, some, [], ◌∷◌, true, false, ◌≡◌, refl, arith}
use phimtor.Base.Bytes.{codes}
use phimtor.Ledger.{
  Invoice, Kind, Ledger, Status, settle_invoice, settled_rows, can_settle, grant_kind, is_unlocked,
}
use phimtor.Gate.{Lock, resolution_lock, access_for_title}
use phimtor.Gate.Paying.{user_of, resolution_lock-settle_invoice}

abbrev invoice : Invoice
invoice = record {
  id = 1;
  user_id = 7;
  kind = Kind.pass;
  status = Status.pending;
  lock = some (codes "base", 5);
  expires_at = 1000;
  paid_at = none;
  tx_hash = none;
}

abbrev one_invoice : Ledger
one_invoice = record {
  next_id = 2;
  invoices = invoice ∷ [];
  plan_expires_at = λ u. none;
  unlocks = [];
}

abbrev settled_ledger : Ledger
settled_ledger = (settle_invoice 200 (codes "0xa") 30 invoice one_invoice).1

resolution_lock-settle_invoice_example :
    resolution_lock true true (codes "2160p") (
      access_for_title 5000
        (some (user_of 7 none settled_ledger))
        4
        true
        (some (is_unlocked 7 4 settled_ledger.unlocks)))
    ≡ Lock.playable
resolution_lock-settle_invoice_example =
    resolution_lock-settle_invoice 200 5000 30 4 (codes "0xa") invoice one_invoice true true
      (codes "2160p") none (unfold settle_invoice settled_rows can_settle grant_kind in refl)
      (omega arith)

visitor_is_sent_to_sign_in :
    resolution_lock true true (codes "720p") (access_for_title 5000 none 4 false none) ≡ Lock.member
unfolding resolution_lock access_for_title
visitor_is_sent_to_sign_in = refl
