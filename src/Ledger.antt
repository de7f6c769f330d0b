-- ===== src/Ledger.antt =====
-- viewer/store.go: the invoices of payment_invoices, and what settling one grants. A statement is a
-- function on the tables, and SettleInvoice's transaction is one function that keeps the tables where
-- it fails. Amounts are counted in units of the column, DECIMAL(36,18); times are in seconds.
pub mod Settling
pub mod Granting
mod Tests
use phimtor.Base.{
  ℕ, zero, suc, ◌+◌, ◌*◌, Bool, true, false, ◌&&◌, ◌||◌, Option, none, some, List, [], ◌∷◌, ltb,
  leb, ◌==◌, if◌then◌else◌,
}
use phimtor.Base.Bytes.{Bytes, same_bytes}

pub data Status : Type 0 where
  pending : Status
  paid : Status
  expired : Status

-- What an invoice is for.
pub data Kind : Type 0 where
  pass : Kind
  title : Option ℕ → Kind
  unknown : Kind

-- `lock` is lock_ns and amount_lock, which are NULL together.
pub record Invoice : Type 0 where
  pub id : ℕ
  pub user_id : ℕ
  pub kind : Kind
  pub status : Status
  pub lock : Option (Bytes × ℕ)
  pub expires_at : ℕ
  pub paid_at : Option ℕ
  pub tx_hash : Option Bytes

-- The invoices, when each account's pass ends, and which account has which title.
pub record Ledger : Type 0 where
  pub next_id : ℕ
  pub invoices : List Invoice
  pub plan_expires_at : ℕ → Option ℕ
  pub unlocks : List (ℕ × ℕ)

abbrev pub is_pending : Status → Bool
is_pending pending = true
is_pending paid = false
is_pending expired = false

abbrev pub holds : Bytes → ℕ → Option (Bytes × ℕ) → Bool
holds ns amount none = false
holds ns amount (some (n, a)) = same_bytes n ns && a == amount

-- The unique index on lock_ns and amount_lock, which takes NULLs for distinct.
pub is_reserved : Bytes → ℕ → List Invoice → Bool
is_reserved ns amount [] = false
is_reserved ns amount (i ∷ is) = holds ns amount i.lock || is_reserved ns amount is

-- The new id, none for a duplicate key.
pub create_invoice : ℕ → ℕ → Kind → Bytes → ℕ → ℕ → Ledger → Option ℕ × Ledger
unfolding is_reserved
create_invoice now user kind ns amount ttl_min l =
    let row : Invoice = record {
      id = l.next_id;
      user_id = user;
      kind = kind;
      status = pending;
      lock = some (ns, amount);
      expires_at = now + ttl_min * 60;
      paid_at = none;
      tx_hash = none;
    } in
    let with_rows : List Invoice → Ledger = λ rows. record {
      next_id = suc l.next_id;
      invoices = rows;
      plan_expires_at = l.plan_expires_at;
      unlocks = l.unlocks;
    } in
    if is_reserved ns amount l.invoices
    then (none, with_rows l.invoices)
    else (some l.next_id, with_rows (row ∷ l.invoices))

abbrev pub is_payable : ℕ → Invoice → Bool
is_payable now i = is_pending i.status && ltb now i.expires_at

pub count_pending_invoices : ℕ → Bytes → List Invoice → ℕ
count_pending_invoices now ns [] = 0
count_pending_invoices now ns (i ∷ is) =
    let n = count_pending_invoices now ns is in
    if is_payable now i && elim i.lock [ none ↦ false | some (m, a) ↦ same_bytes m ns ]
    then suc n
    else n

pub match_pending_invoice : ℕ → Bytes → ℕ → List Invoice → Option Invoice
match_pending_invoice now ns amount [] = none
match_pending_invoice now ns amount (i ∷ is) =
    let rest = match_pending_invoice now ns amount is in
    if is_payable now i && holds ns amount i.lock then some i else rest

pub expire_row : ℕ → Invoice → Invoice
expire_row now i =
    let released : Invoice = record {
      id = i.id;
      user_id = i.user_id;
      kind = i.kind;
      status = expired;
      lock = none;
      expires_at = i.expires_at;
      paid_at = i.paid_at;
      tx_hash = i.tx_hash;
    } in
    if is_pending i.status && leb i.expires_at now then released else i

pub expire_rows : ℕ → List Invoice → List Invoice
unfolding expire_row
expire_rows now [] = []
expire_rows now (i ∷ is) = expire_row now i ∷ expire_rows now is

unfoldable pub can_settle : ℕ → Invoice → Bool
can_settle id i = i.id == id && is_pending i.status

pub settle_row : ℕ → ℕ → Bytes → Invoice → Invoice
unfolding can_settle
settle_row now id tx i =
    let settled : Invoice = record {
      id = i.id;
      user_id = i.user_id;
      kind = i.kind;
      status = paid;
      lock = none;
      expires_at = i.expires_at;
      paid_at = some now;
      tx_hash = some tx;
    } in
    if can_settle id i then settled else i

pub settle_rows : ℕ → ℕ → Bytes → List Invoice → List Invoice
unfolding settle_row
settle_rows now id tx [] = []
settle_rows now id tx (i ∷ is) = settle_row now id tx i ∷ settle_rows now id tx is

-- RowsAffected
unfoldable pub settled_rows : ℕ → List Invoice → ℕ
unfolding can_settle
settled_rows id [] = 0
settled_rows id (i ∷ is) = let n = settled_rows id is in if can_settle id i then suc n else n

-- GREATEST(COALESCE(plan_expires_at, NOW()), NOW())
abbrev pub pass_start : ℕ → Option ℕ → ℕ
pass_start now none = now
pass_start now (some end) = if ltb now end then end else now

-- INSERT IGNORE
pub is_unlocked : ℕ → ℕ → List (ℕ × ℕ) → Bool
is_unlocked user t [] = false
is_unlocked user t ((u, s) ∷ us) = (u == user && s == t) || is_unlocked user t us

pub data Settlement : Type 0 where
  settled : Settlement
  already : Settlement
  refused : Settlement

-- The entitlement; none is an error, which rolls the transaction back.
unfoldable pub grant_kind : ℕ → ℕ → ℕ → Ledger → Kind → Option Ledger
unfolding is_unlocked
grant_kind now pass_days user l Kind.pass =
    let days = pass_days * 86400 in
    some (record {
      next_id = l.next_id;
      invoices = l.invoices;
      plan_expires_at = λ u.
          if u == user
          then some (pass_start now (l.plan_expires_at u) + days)
          else l.plan_expires_at u;
      unlocks = l.unlocks;
    })
grant_kind now pass_days user l (Kind.title none) = none
grant_kind now pass_days user l (Kind.title (some t)) = some (record {
  next_id = l.next_id;
  invoices = l.invoices;
  plan_expires_at = l.plan_expires_at;
  unlocks = if is_unlocked user t l.unlocks then l.unlocks else (user, t) ∷ l.unlocks;
})
grant_kind now pass_days user l Kind.unknown = none

abbrev pub committed : Ledger → Option Ledger → Settlement × Ledger
committed l none = (refused, l)
committed l (some l') = (settled, l')

-- The tables with the invoice marked as paid.
abbrev pub marked : ℕ → ℕ → Bytes → Ledger → Ledger
marked now id tx l = record {
  next_id = l.next_id;
  invoices = settle_rows now id tx l.invoices;
  plan_expires_at = l.plan_expires_at;
  unlocks = l.unlocks;
}

unfoldable pub settle_invoice : ℕ → Bytes → ℕ → Invoice → Ledger → Settlement × Ledger
unfolding settled_rows grant_kind
settle_invoice now tx pass_days inv l =
    if settled_rows inv.id l.invoices == 0
    then (already, l)
    else committed l (grant_kind now pass_days inv.user_id (marked now inv.id tx l) inv.kind)
