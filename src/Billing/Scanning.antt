-- ===== src/Billing/Scanning.antt =====
-- viewer/chain_evm.go: which blocks a scan reads.
use phimtor.Base.{
  ℕ, suc, ◌+◌, ◌-◌, ◌≤◌, ◌<◌, true, Option, none, some, List, [], ltb, ◌≡◌, refl, sym, arith,
  if_elim, Option_elim, ◌⊎◌, inl, inr,
}
use phimtor.Billing.{
  EvmWatcher, EvmLog, ObservedPayment, ScanPlan, stay, begin_at, range, evm_scan_chunk, scan_end,
  plan_scan, run_scan, scan, observe_all,
}

-- A plan from a cursor: to stay, when no further block is deep enough, or to read on from the next
-- block, no more than a chunk, and only blocks that are deep enough.
abbrev pub Onward : ℕ → ℕ → ℕ → ScanPlan → Type 0
Onward latest min_conf c stay = latest ≤ c + min_conf
Onward latest min_conf c (begin_at n) = ⊥
Onward latest min_conf c (range from to) =
    (from ≡ suc c) × ((c < to) × ((to + min_conf ≤ latest) × (to ≤ c + evm_scan_chunk)))

plan_scan-Onward :
    (latest min_conf c : ℕ) → Onward latest min_conf c (plan_scan latest min_conf (some c))
unfolding plan_scan scan_end
plan_scan-Onward latest min_conf c =
    if_elim (Onward latest min_conf c) (ltb latest min_conf) _ _ (λ h. ground arith)
      (λ h.
        if_elim (Onward latest min_conf c) (ltb (latest - min_conf) (suc c)) _ _ (λ g. ground arith)
          (λ g. (refl, (ground arith, (ground arith, ground arith)))))

-- The outcome of a scan from a cursor: it has read the blocks after the old cursor up to the new one,
-- and nothing else.
abbrev pub Covers :
    EvmWatcher
    → ℕ
    → (ℕ → ℕ → Option (List EvmLog))
    → ℕ
    → Option (List ObservedPayment × Option ℕ)
    → Type 0
Covers w latest get_logs c none = (n : ℕ) × ((c < n) × (get_logs (suc c) n ≡ none))
Covers w latest get_logs c (some (obs, none)) = ⊥
Covers w latest get_logs c (some (obs, some n)) =
    ((n ≡ c) × ((obs ≡ []) × (latest ≤ c + w.min_conf)))
    ⊎ ((c < n)
        × ((n + w.min_conf ≤ latest)
            × ((logs : List EvmLog) × ((get_logs (suc c) n ≡ some logs)
                  × (obs ≡ observe_all w logs)))))

run_scan-Covers :
    (w : EvmWatcher) (latest : ℕ) (get_logs : ℕ → ℕ → Option (List EvmLog)) (c : ℕ) (p : ScanPlan)
    → Onward latest w.min_conf c p
    → Covers w latest get_logs c (run_scan w get_logs (some c) true p)
unfolding run_scan
run_scan-Covers w latest get_logs c stay h = inl (refl, (refl, h))
run_scan-Covers w latest get_logs c (begin_at n) h = elim h [ ]
run_scan-Covers w latest get_logs c (range from to) h =
    Option_elim (Covers w latest get_logs c) (get_logs from to) _ _
      (λ e. (to, (h.1.0, rw (sym h.0) e)))
      (λ logs e. inr (h.1.0, (h.1.1.0, (logs, (rw (sym h.0) e, refl)))))

-- While payments are wanted, a scan from a cursor observes exactly the transfers of the blocks after
-- it up to the next cursor, all deep enough; it fails only where the log query fails, and it stays
-- only where no further block is deep enough.
pub scan-Covers :
    (w : EvmWatcher) (latest : ℕ) (get_logs : ℕ → ℕ → Option (List EvmLog)) (c : ℕ)
    → Covers w latest get_logs c (scan w (some latest) get_logs (some c) true)
unfolding scan
scan-Covers w latest get_logs c =
    run_scan-Covers w latest get_logs c (plan_scan latest w.min_conf (some c))
      (plan_scan-Onward latest w.min_conf c)
