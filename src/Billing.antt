-- ===== src/Billing.antt =====
-- viewer/billing.go, viewer/chain_evm.go: invoices, and the scan of a chain for their payments. The
-- store is a record of operations on a state, each of which may fail; the chain's answers are arguments.
-- An amount is its decimal digits before and after the point. A cursor is the number that its text
-- spells, and none for the blank one. A token's raw value comes as its decimal digits, not negative.
pub mod Scanning
pub mod Amounts
mod Tests
use phimtor.Base.{
  ℕ, zero, suc, ◌+◌, ◌-◌, ◌*◌, ◌/◌, ◌%◌, Bool, true, false, String, Option, none, some, List, [],
  ◌∷◌, ◌++◌, length, ltb, leb, ◌==◌, ite, String_discrete, if◌then◌else◌,
}

abbrev pub amount_scale : ℕ
amount_scale = 1000000

abbrev pub reserve_tries : ℕ
reserve_tries = 12

abbrev pub evm_scan_chunk : ℕ
evm_scan_chunk = 2000

pub record Plan : Type 0 where
  pub code : String
  pub kind : String
  pub days : ℕ
  pub cents : ℕ

pub record EvmToken : Type 0 where
  pub symbol : String
  pub contract : String
  pub decimals : ℕ

-- The digits of an amount before the point, and after it.
pub record Amount : Type 0 where
  pub whole : List ℕ
  pub fraction : List ℕ

pub record ObservedPayment : Type 0 where
  pub chain : String
  pub token : String
  pub amount : Amount
  pub tx_hash : String

-- The address is in lower case; the value is none where the data is no number.
pub record EvmLog : Type 0 where
  pub address : String
  pub value : Option (List ℕ)
  pub tx_hash : String

pub record EvmWatcher : Type 0 where
  pub name : String
  pub min_conf : ℕ
  pub tokens : List EvmToken
  pub pay_to : String

abbrev pub same_text : String → String → Bool
same_text a b = ite (String_discrete a b) true false

abbrev pub take : ℕ → List ℕ → List ℕ
take zero xs = []
take (suc n) [] = []
take (suc n) (x ∷ xs) = x ∷ take n xs

abbrev pub skip : ℕ → List ℕ → List ℕ
skip zero xs = xs
skip (suc n) [] = []
skip (suc n) (x ∷ xs) = skip n xs

abbrev pub zeros : ℕ → List ℕ
zeros zero = []
zeros (suc n) = 0 ∷ zeros n

abbrev pub is_nil : List ℕ → Bool
is_nil [] = true
is_nil (_ ∷ _) = false

-- strings.TrimRight(frac, "0")
pub trim_zeros : List ℕ → List ℕ
trim_zeros [] = []
trim_zeros (d ∷ ds) =
    let rest = trim_zeros ds in if is_nil rest then (if d == 0 then [] else d ∷ []) else d ∷ rest

pub padded : List ℕ → ℕ → List ℕ
padded s decimals = if leb (length s) decimals then zeros (decimals - length s + 1) ++ s else s

pub scale_decimal : List ℕ → ℕ → Amount
unfolding padded trim_zeros
scale_decimal s zero = record { whole = s; fraction = [] }
scale_decimal s (suc d) =
    let t = padded s (suc d) in
    record { whole = take (length t - suc d) t; fraction = trim_zeros (skip (length t - suc d) t) }

-- The price and the dust in units of 10^-6; `formatAmount` writes them with six places.
pub amount_units : ℕ → ℕ → ℕ
amount_units cents dust = cents * (amount_scale / 100) + dust

pub format_amount : ℕ → ℕ → ℕ × ℕ
unfolding amount_units
format_amount cents dust =
    (amount_units cents dust / amount_scale, amount_units cents dust % amount_scale)

pub vnd : ℕ → ℕ → ℕ
vnd vnd_rate cents = if vnd_rate == 0 then 0 else cents * vnd_rate / 100

pub plan_by_code : String → List Plan → Option Plan
plan_by_code code [] = none
plan_by_code code (p ∷ ps) =
    let rest = plan_by_code code ps in if same_text p.code code then some p else rest

pub token_by_contract : String → List EvmToken → Option EvmToken
token_by_contract address [] = none
token_by_contract address (t ∷ ts) =
    let rest = token_by_contract address ts in if same_text t.contract address then some t else rest

pub observe : EvmWatcher → EvmLog → List ObservedPayment
unfolding token_by_contract scale_decimal
observe w l = elim (token_by_contract l.address w.tokens) [
  | none ↦ []
  | some t ↦ elim l.value [
    | none ↦ []
    | some v ↦
        record {
          chain = w.name;
          token = t.symbol;
          amount = scale_decimal v t.decimals;
          tx_hash = l.tx_hash;
        }
        ∷ []
  ]
]

pub observe_all : EvmWatcher → List EvmLog → List ObservedPayment
unfolding observe
observe_all w [] = []
observe_all w (l ∷ ls) = observe w l ++ observe_all w ls

-- What a scan asks for, decided by the newest block and the cursor: nothing, a first cursor, or a
-- range of blocks.
pub data ScanPlan : Type 0 where
  stay : ScanPlan
  begin_at : ℕ → ScanPlan
  range : ℕ → ℕ → ScanPlan

pub scan_end : ℕ → ℕ → ℕ
scan_end from safe_to =
    if ltb safe_to (from + evm_scan_chunk - 1) then safe_to else from + evm_scan_chunk - 1

pub plan_scan : ℕ → ℕ → Option ℕ → ScanPlan
unfolding scan_end
plan_scan latest min_conf cursor = if ltb latest min_conf then stay else elim cursor [
  | none ↦ begin_at (latest - min_conf)
  | some c ↦
      if ltb (latest - min_conf) (suc c)
      then stay
      else range (suc c) (scan_end (suc c) (latest - min_conf))
]

-- The payments seen and the next cursor; none stands for an error.
pub run_scan :
    EvmWatcher
    → (ℕ → ℕ → Option (List EvmLog))
    → Option ℕ
    → Bool
    → ScanPlan
    → Option (List ObservedPayment × Option ℕ)
unfolding observe_all
run_scan w get_logs cursor want_payments stay = some ([], cursor)
run_scan w get_logs cursor want_payments (begin_at n) = some ([], some n)
run_scan w get_logs cursor want_payments (range from to) =
    if want_payments
    then elim (get_logs from to) [ none ↦ none | some logs ↦ some (observe_all w logs, some to) ]
    else some ([], some to)

pub scan :
    EvmWatcher
    → Option ℕ
    → (ℕ → ℕ → Option (List EvmLog))
    → Option ℕ
    → Bool
    → Option (List ObservedPayment × Option ℕ)
unfolding run_scan plan_scan
scan w block_number get_logs cursor want_payments = elim block_number [
  | none ↦ none
  | some latest ↦ run_scan w get_logs cursor want_payments (plan_scan latest w.min_conf cursor)
]

-- The store's operations. Each returns the new state, and none where it fails.
pub record Store (State Invoice : Type 0) : Type 0 where
  pub create_invoice : Plan → String → ℕ × ℕ → State → State × Option Bool
  pub count_pending : State → Option ℕ
  pub chain_cursor : String → State → Option (Option ℕ)
  pub match_pending : Amount → State → Option (Option Invoice)
  pub settle_invoice : Invoice → ObservedPayment → ℕ → State → State × Option Bool
  pub set_cursor : String → Option ℕ → State → State × Bool
  pub plan_code : Invoice → String

module _ {State Invoice : Type 0} (db : Store State Invoice) (plans : List Plan) where
  -- `createInvoice` on the dust that it draws: some false is a clash of amounts, and it tries again;
  -- none is any other error.
  pub reserve : Plan → String → List ℕ → State → State × Option (ℕ × ℕ)
  unfolding format_amount
  reserve p chain [] s = (s, none)
  reserve p chain (dust ∷ more) s =
      let (s', r) = db.create_invoice p chain (format_amount p.cents dust) s in
      let retried = reserve p chain more s' in
      elim r [
        | none ↦ (s', none)
        | some created ↦ if created then (s', some (format_amount p.cents dust)) else retried
      ]

  pub create_invoice : Plan → String → List ℕ → State → State × Option (ℕ × ℕ)
  unfolding reserve
  create_invoice p chain dusts s =
      if p.cents == 0 then (s, none) else reserve p chain (take reserve_tries dusts) s

  abbrev pub days_of : Option Plan → ℕ
  days_of none = 0
  days_of (some p) = p.days

  pub settle : Invoice → ObservedPayment → State → State × Bool
  unfolding plan_by_code
  settle i ob s =
      let (s', r) = db.settle_invoice i ob (days_of (plan_by_code (db.plan_code i) plans)) s in
      elim r [ none ↦ (s', false) | some _ ↦ (s', true) ]

  -- The loop of `scanChain`; true stands for no error.
  pub credit_all : List ObservedPayment → State → State × Bool
  unfolding settle
  credit_all [] s = (s, true)
  credit_all (ob ∷ obs) s = elim (db.match_pending ob.amount s) [
    | none ↦ (s, false)
    | some none ↦ credit_all obs s
    | some (some i) ↦
        let (s', ok) = settle i ob s in
        let rest = credit_all obs s' in if ok then rest else (s', false)
  ]

  abbrev pub same_cursor : Option ℕ → Option ℕ → Bool
  same_cursor none none = true
  same_cursor (some a) (some b) = a == b
  same_cursor none (some b) = false
  same_cursor (some a) none = false

  pub credit_and_advance :
      String → Option ℕ → List ObservedPayment → Option ℕ → State → State × Bool
  unfolding credit_all
  credit_and_advance name cursor obs next s =
      let (s', ok) = credit_all obs s in
      if ok
      then (if same_cursor next cursor then (s', true) else db.set_cursor name next s')
      else (s', false)

  pub scan_chain : EvmWatcher → Option ℕ → (ℕ → ℕ → Option (List EvmLog)) → State → State × Bool
  unfolding scan credit_and_advance
  scan_chain w block_number get_logs s = elim (db.count_pending s) [
    | none ↦ (s, false)
    | some pending ↦ elim (db.chain_cursor w.name s) [
      | none ↦ (s, false)
      | some cursor ↦ elim (scan w block_number get_logs cursor (ltb 0 pending)) [
        | none ↦ (s, false)
        | some (obs, next) ↦ credit_and_advance w.name cursor obs next s
      ]
    ]
  ]
