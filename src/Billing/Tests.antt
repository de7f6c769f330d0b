-- ===== src/Billing/Tests.antt =====
-- Scans and amounts at concrete values.
use phimtor.Base.{ℕ, Option, some, List, [], ◌∷◌, true, ◌≡◌, refl}
use phimtor.Billing.{EvmWatcher, EvmLog, scan, scale_decimal, padded, trim_zeros}
use phimtor.Billing.Scanning.{Covers, scan-Covers}

abbrev watcher : EvmWatcher
watcher = record {
  name = "base";
  min_conf = 5;
  tokens = record { symbol = "USDC"; contract = "0x83"; decimals = 6 } ∷ [];
  pay_to = "0x11";
}

abbrev logs : ℕ → ℕ → Option (List EvmLog)
logs from to = some (
    record { address = "0x83"; value = some (5 ∷ 0 ∷ 0 ∷ 0 ∷ 1 ∷ 2 ∷ 0 ∷ []); tx_hash = "0xaa" }
    ∷ [])

scan-Covers_example : Covers watcher 120 logs 100 (scan watcher (some 120) logs (some 100) true)
scan-Covers_example = scan-Covers watcher 120 logs 100

amount_of_five :
    scale_decimal (5 ∷ 0 ∷ 0 ∷ 0 ∷ 1 ∷ 2 ∷ 0 ∷ []) 6
    ≡ record { whole = 5 ∷ []; fraction = 0 ∷ 0 ∷ 0 ∷ 1 ∷ 2 ∷ [] }
unfolding scale_decimal padded trim_zeros
amount_of_five = refl

amount_of_dust :
    scale_decimal (7 ∷ []) 6 ≡ record { whole = 0 ∷ []; fraction = 0 ∷ 0 ∷ 0 ∷ 0 ∷ 0 ∷ 7 ∷ [] }
unfolding scale_decimal padded trim_zeros
amount_of_dust = refl
