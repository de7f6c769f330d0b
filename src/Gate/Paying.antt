-- ===== src/Gate/Paying.antt =====
-- viewer/server.go and viewer/store.go: what is paid for may be played.
use phimtor.Base.{
  ℕ, ◌+◌, ◌*◌, ◌<◌, Bool, true, Option, none, some, ◌≡◌, ◌≢◌, refl, sym, ap, ◌∙◌, arith,
}
use phimtor.Base.Bytes.{Bytes}
use phimtor.Ledger.{Invoice, Kind, Ledger, Settlement, settle_invoice, is_unlocked}
use phimtor.Ledger.Granting.{settle_invoice-plan_expires_at, settle_invoice-is_unlocked}
use phimtor.Gate.{User, Lock, has_pass, resolution_lock, access_for_title}

-- The account as it is read from the tables.
abbrev pub user_of : ℕ → Option ℕ → Ledger → User
user_of id comp l = record {
  id = id;
  plan_expires_at = l.plan_expires_at id;
  comp_expires_at = comp;
}

-- What an invoice pays for, at a time and for a title.
abbrev pub Covers : Kind → ℕ → ℕ → ℕ → ℕ → Type 0
Covers Kind.pass now days later title = later < now + days * 86400
Covers (Kind.title none) now days later title = ⊥
Covers (Kind.title (some t)) now days later title = (t ≡ title) × (title ≢ 0)
Covers Kind.unknown now days later title = ⊥

module _ (google billing : Bool) (res : Bytes) (later : ℕ) (u : User) (title : ℕ) where
  -- With a pass that runs, whatever the store says of the title.
  playable_by_pass :
      (end : ℕ) (unlock : Option Bool)
      → u.plan_expires_at ≡ some end
      → later < end
      → resolution_lock google billing res (access_for_title later (some u) title true unlock)
        ≡ Lock.playable
  unfolding access_for_title has_pass resolution_lock
  playable_by_pass end unlock e l = ground arith

  playable_by_title :
      title ≢ 0
      → resolution_lock google billing res (access_for_title later (some u) title true (some true))
        ≡ Lock.playable
  unfolding access_for_title resolution_lock
  playable_by_title n = ground arith

-- After an invoice is settled, its account may play a gated resolution of what it pays for: of every
-- title until the pass's days are over, or of the one title for good. The account, the sign-in and the
-- billing may be configured in any way.
pub resolution_lock-settle_invoice :
    (now later days title : ℕ) (tx : Bytes) (inv : Invoice) (l : Ledger) (google billing : Bool)
    (res : Bytes) (comp : Option ℕ)
    → (settle_invoice now tx days inv l).0 ≡ Settlement.settled
    → Covers inv.kind now days later title
    → let l' = (settle_invoice now tx days inv l).1 in
      resolution_lock google billing res (
        access_for_title later
          (some (user_of inv.user_id comp l'))
          title
          true
          (some (is_unlocked inv.user_id title l'.unlocks)))
      ≡ Lock.playable
resolution_lock-settle_invoice now later days title tx inv l google billing res comp h c =
    by_kind inv.kind refl c
  where
    by_kind :
        (kind : Kind)
        → inv.kind ≡ kind
        → Covers kind now days later title
        → resolution_lock google billing res (
            access_for_title later
              (some (user_of inv.user_id comp (settle_invoice now tx days inv l).1))
              title
              true
              (some (is_unlocked inv.user_id title (settle_invoice now tx days inv l).1.unlocks)))
          ≡ Lock.playable
    by_kind Kind.pass k c =
        let paid = settle_invoice-plan_expires_at now tx days inv l h k in
        playable_by_pass google billing res later _ title paid.0 _ paid.1 (omega (arith, paid.2))
    by_kind (Kind.title none) k c = absurd c
    by_kind (Kind.title (some t)) k c =
        ap
          (λ b. resolution_lock google billing res (
            access_for_title later
              (some (user_of inv.user_id comp (settle_invoice now tx days inv l).1)) title true
              (some b)))
          (ap (λ x. is_unlocked inv.user_id x (settle_invoice now tx days inv l).1.unlocks)
              (sym c.0)
            ∙ settle_invoice-is_unlocked now tx days inv l t h k)
        ∙ playable_by_title google billing res later _ title c.1
    by_kind Kind.unknown k c = absurd c
