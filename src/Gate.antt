-- ===== src/Gate.antt =====
-- viewer/server.go and viewer/models.go: which resolutions a visitor may play.
pub mod Paying
mod Tests
use phimtor.Base.{
  ℕ, Bool, true, false, not, ◌&&◌, ◌||◌, Option, none, some, List, ◌==◌, ltb, if◌then◌else◌,
}
use phimtor.Base.Bytes.{Bytes, codes, same_bytes}

-- What the gate reads of an account.
pub record User : Type 0 where
  pub id : ℕ
  pub plan_expires_at : Option ℕ
  pub comp_expires_at : Option ℕ

abbrev pub is_after : ℕ → Option ℕ → Bool
is_after now none = false
is_after now (some end) = ltb now end

pub has_pass : ℕ → User → Bool
has_pass now u = is_after now u.plan_expires_at

pub has_comp : ℕ → User → Bool
has_comp now u = is_after now u.comp_expires_at

pub data Lock : Type 0 where
  playable : Lock
  paid : Lock
  member : Lock
  upgrade : Lock

pub record TitleAccess : Type 0 where
  pub signed_in : Bool
  pub unlimited : Bool
  pub unlocked : Bool

pub is_locked_resolution : Bytes → Bool
is_locked_resolution res = same_bytes res (codes "2160p")

-- The Booleans say whether sign-in and billing are enabled.
pub resolution_lock : Bool → Bool → Bytes → TitleAccess → Lock
unfolding is_locked_resolution
resolution_lock google billing res a =
    if not a.signed_in && google
    then member
    else if is_locked_resolution res
    then (if a.unlimited || a.unlocked then playable else if not billing then paid else upgrade)
    else playable

abbrev pub found : Option Bool → Bool
found none = false
found (some b) = b

-- The last argument is what the store says of the title, none where it does not answer.
pub access_for_title : ℕ → Option User → ℕ → Bool → Option Bool → TitleAccess
unfolding has_pass has_comp
access_for_title now none title needs_paid unlock = record {
  signed_in = false;
  unlimited = false;
  unlocked = false;
}
access_for_title now (some u) title needs_paid unlock =
    let unlimited = has_pass now u || has_comp now u in
    if not needs_paid
    then record { signed_in = true; unlimited = false; unlocked = false }
    else if unlimited
    then record { signed_in = true; unlimited = true; unlocked = false }
    else if title == 0
    then record { signed_in = true; unlimited = false; unlocked = false }
    else record { signed_in = true; unlimited = false; unlocked = found unlock }
