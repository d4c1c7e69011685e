-- ===== src/Funds/Strategy/Consolidation.antt =====
-- `CalculateTargetBalancesForConsolidation` with `findTransfers`: main.go and transfer_strategy.go of
-- examples/fund_distribution.
use walletarmy.Common.{
  ℕ, zero, suc, ◌+◌, ◌-◌, ◌≤◌, ◌≡◌, ◌≢◌, refl, ap, ◌∙◌, Bool-cases, inl, inr, some, List, [], ◌∷◌,
  map, length, All, Distinct, ltb, ◌==◌, ℤ, pos, if◌then◌else◌, arith,
}
use walletarmy.Funds.{find_transfers}
use walletarmy.Funds.Plan.{Amounts, plan, surpluses, needs}
use walletarmy.Funds.Plan.Refines.{plan-done}
use walletarmy.Funds.Balance.{sent, received, amount_of, transfers_of}
use walletarmy.Funds.Transfers.{found_plan}
use walletarmy.Funds.Exact.{total, plan_one_need}
use walletarmy.Funds.Strategy.{
  Balances, total_balance, initial_balances, targets_for_consolidation, no_nil, from_initial,
  strategy_transfers,
}

-- The map that holds a balance for each wallet.
abbrev pub balances_of : List ℕ → List ℕ → Balances
balances_of [] bs = []
balances_of (a ∷ wallets) [] = []
balances_of (a ∷ wallets) (b ∷ bs) = (a, pos b) ∷ balances_of wallets bs

abbrev pub sum : List ℕ → ℕ
sum [] = 0
sum (b ∷ bs) = b + sum bs

abbrev pub get_or : List ℕ → ℕ → ℕ → ℕ
get_or [] i v = v
get_or (b ∷ bs) zero v = b
get_or (b ∷ bs) (suc i) v = get_or bs i v

abbrev zeros : List ℕ → List ℤ
zeros wallets = map (λ a. pos 0) wallets

abbrev need_of : ℕ → Amounts
need_of m = if ltb 0 m then (0, m) ∷ [] else []

initial_balances-skip :
    (a : ℕ) (v : ℤ) (wallets : List ℕ) (rest : Balances)
    → All (λ w. a ≢ w) wallets
    → initial_balances wallets ((a, v) ∷ rest) ≡ initial_balances wallets rest
initial_balances-skip a v [] rest h = refl
initial_balances-skip a v (w ∷ wallets) rest (ne, h) =
    ground (arith, initial_balances-skip a v wallets rest h)

initial_balances-balances_of :
    (wallets bs : List ℕ)
    → length bs ≡ length wallets
    → Distinct wallets
    → initial_balances wallets (balances_of wallets bs) ≡ map (λ b. some (pos b)) bs
initial_balances-balances_of [] [] e d = refl
initial_balances-balances_of [] (b ∷ bs) e d = absurd (omega arith)
initial_balances-balances_of (a ∷ wallets) [] e d = absurd (omega arith)
initial_balances-balances_of (a ∷ wallets) (b ∷ bs) e (apart, d) =
    let skip = initial_balances-skip a (pos b) wallets (balances_of wallets bs) apart in
    let ih = initial_balances-balances_of wallets bs (omega arith) d in ground (arith, skip, ih)

no_nil-some : (bs : List ℕ) → no_nil (map (λ b. some (pos b)) bs) ≡ some (map pos bs)
no_nil-some [] = refl
no_nil-some (b ∷ bs) = rw (no_nil-some bs) refl

total_balance-balances_of :
    (wallets bs : List ℕ)
    → length bs ≡ length wallets
    → total_balance (balances_of wallets bs) ≡ pos (sum bs)
total_balance-balances_of [] [] e = refl
total_balance-balances_of [] (b ∷ bs) e = absurd (omega arith)
total_balance-balances_of (a ∷ wallets) [] e = absurd (omega arith)
total_balance-balances_of (a ∷ wallets) (b ∷ bs) e =
    rw (total_balance-balances_of wallets bs (omega arith)) (ground arith)

length-pos :
    (bs wallets : List ℕ)
    → length bs ≡ length wallets
    → length (zeros wallets) ≡ length (map pos bs)
length-pos [] [] e = refl
length-pos [] (a ∷ wallets) e = absurd (omega arith)
length-pos (b ∷ bs) [] e = absurd (omega arith)
length-pos (b ∷ bs) (a ∷ wallets) e = ap (λ n. suc n) (length-pos bs wallets (omega arith))

needs-zeros : (i : ℕ) (bs wallets : List ℕ) → needs i (map pos bs) (zeros wallets) ≡ []
unfolding needs
needs-zeros i [] wallets = refl
needs-zeros i (b ∷ bs) [] = refl
needs-zeros i (b ∷ bs) (a ∷ wallets) = ground (arith, needs-zeros (suc i) bs wallets)

total-surpluses :
    (i : ℕ) (bs wallets : List ℕ)
    → length bs ≡ length wallets
    → total (surpluses i (map pos bs) (zeros wallets)) ≡ sum bs
unfolding surpluses total
total-surpluses i [] wallets e = refl
total-surpluses i (b ∷ bs) [] e = absurd (omega arith)
total-surpluses i (b ∷ bs) (a ∷ wallets) e = ground (arith, total-surpluses (suc i) bs wallets)

get_or-cons :
    (b : ℕ) (bs : List ℕ) (n : ℕ)
    → get_or (b ∷ bs) n 0 ≡ (if n == 0 then b else get_or bs (n - 1) 0)
get_or-cons b bs zero = refl
get_or-cons b bs (suc n) = ground arith

amount_of-surpluses :
    (k i : ℕ) (bs wallets : List ℕ)
    → length bs ≡ length wallets
    → amount_of k (surpluses i (map pos bs) (zeros wallets))
      ≡ (if ltb k i then 0 else get_or bs (k - i) 0)
unfolding surpluses amount_of
amount_of-surpluses k i [] wallets e = ground arith
amount_of-surpluses k i (b ∷ bs) [] e = absurd (omega arith)
amount_of-surpluses k i (b ∷ bs) (a ∷ wallets) e =
    let later = amount_of-surpluses k (suc i) bs wallets (omega arith) in
    let here = get_or-cons b bs (k - i) in
    let next : k - i - 1 ≡ k - suc i = omega arith in
    ground (arith, later, here, ap (λ n. get_or bs n 0) next)

get_or-le-sum : (bs : List ℕ) (k : ℕ) → get_or bs k 0 ≤ sum bs
get_or-le-sum [] k = omega arith
get_or-le-sum (b ∷ bs) zero = omega arith
get_or-le-sum (b ∷ bs) (suc k) = omega (arith, get_or-le-sum bs k)

plan-consolidation :
    (k : ℕ) (es : Amounts) (bs : List ℕ)
    → total es ≡ sum bs
    → amount_of k es ≡ (if ltb k 1 then 0 else get_or bs (k - 1) 0)
    → (sent k (plan (need_of (sum bs)) es) ≡ (if k == 0 then 0 else get_or bs (k - 1) 0))
      × (received k (plan (need_of (sum bs)) es) ≡ (if k == 0 then sum bs else 0))
unfolding sent received
plan-consolidation k es bs all each = elim (Bool-cases (ltb 0 (sum bs))) [
  | inl some_need ↦
      let one = plan_one_need k 0 (sum bs) es (omega arith) in
      rw some_need (ground (arith, one.0), ground (arith, one.1))
  | inr no_need ↦
      rw (no_need, plan-done es) (ground (arith, get_or-le-sum bs (k - 1)), ground arith)
]

needs-consolidation :
    (b n : ℕ) (bs wallets : List ℕ)
    → needs 0 (pos b ∷ map pos bs) (pos (b + n) ∷ zeros wallets) ≡ need_of n
unfolding needs
needs-consolidation b n bs wallets = ground (arith, needs-zeros 1 bs wallets)

surpluses-consolidation :
    (b n : ℕ) (bs wallets : List ℕ)
    → surpluses 0 (pos b ∷ map pos bs) (pos (b + n) ∷ zeros wallets)
      ≡ surpluses 1 (map pos bs) (zeros wallets)
unfolding surpluses
surpluses-consolidation b n bs wallets = ground arith

strategy-consolidation :
    (a b : ℕ) (wallets bs : List ℕ)
    → length bs ≡ length wallets
    → Distinct (a ∷ wallets)
    → strategy_transfers
        (targets_for_consolidation (a ∷ wallets) (balances_of (a ∷ wallets) (b ∷ bs)))
      ≡ find_transfers (pos b ∷ map pos bs) (pos (b + sum bs) ∷ zeros wallets)
unfolding targets_for_consolidation
strategy-consolidation a b wallets bs e d =
    let balances = balances_of (a ∷ wallets) (b ∷ bs) in
    let e' = ap (λ n. suc n) e in
    ap (λ initial. from_initial (no_nil initial) (total_balance balances ∷ zeros wallets))
      (initial_balances-balances_of (a ∷ wallets) (b ∷ bs) e' d)
    ∙ ap (λ initial. from_initial initial (total_balance balances ∷ zeros wallets))
        (no_nil-some (b ∷ bs))
    ∙ ap (λ t. find_transfers (pos b ∷ map pos bs) (t ∷ zeros wallets))
        (total_balance-balances_of (a ∷ wallets) (b ∷ bs) e')

-- Consolidation in one equation for each wallet: the first one receives all that the others hold, and
-- every other one sends all that it holds. The wallets have different addresses, and a balance each.
pub consolidation-exact :
    (a b : ℕ) (wallets bs : List ℕ) (k : ℕ)
    → length bs ≡ length wallets
    → Distinct (a ∷ wallets)
    → (sent k (
          transfers_of (
            strategy_transfers
              (targets_for_consolidation (a ∷ wallets) (balances_of (a ∷ wallets) (b ∷ bs)))))
        ≡ (if k == 0 then 0 else get_or bs (k - 1) 0))
      × (received k (
            transfers_of (
              strategy_transfers
                (targets_for_consolidation (a ∷ wallets) (balances_of (a ∷ wallets) (b ∷ bs)))))
          ≡ (if k == 0 then sum bs else 0))
consolidation-exact a b wallets bs k e d =
    rw
      (
        strategy-consolidation a b wallets bs e d,
        found_plan (pos b ∷ map pos bs) (pos (b + sum bs) ∷ zeros wallets)
            (ap (λ n. suc n) (length-pos bs wallets e)),
        needs-consolidation b (sum bs) bs wallets,
        surpluses-consolidation b (sum bs) bs wallets,
      )
      (plan-consolidation k (surpluses 1 (map pos bs) (zeros wallets)) bs
        (total-surpluses 1 bs wallets e) (amount_of-surpluses k 1 bs wallets e))
