-- ===== src/Funds/Transfers.antt =====
-- The theorems on `findTransfers` of examples/fund_distribution/transfer_strategy.go.
use walletarmy.Common.{
  ℕ, suc, ◌+◌, ◌≤◌, ◌<◌, ◌≡◌, ◌⊎◌, refl, ap, Bool-cases, inl, inr, List, [], ◌∷◌, length, ◌==◌, ℤ,
  ltbℤ, arith,
}
use walletarmy.Funds.{found, find_transfers}
use walletarmy.Funds.Plan.{Amounts, plan, surpluses, needs}
use walletarmy.Funds.Plan.Scan.{After, surpluses-After, needs-After}
use walletarmy.Funds.Plan.Refines.{plan-less, plan-same, plan-rest, find_transfers-plan}
use walletarmy.Funds.Balance.{
  sent, received, amount_of, transfers_of, IsPositive, plan-sent, plan-done_or_met, plan-received,
  length-plan,
}

amount_of-After : (k : ℕ) (es : Amounts) → After k es → amount_of k es ≡ 0
unfolding amount_of
amount_of-After k [] a = refl
amount_of-After k ((e, s) ∷ es) (lt, a) = ground (arith, amount_of-After k es a)

amount_of_one :
    (k i : ℕ) (initial target : List ℤ)
    → (amount_of k (surpluses i initial target) ≡ 0) ⊎ (amount_of k (needs i initial target) ≡ 0)
unfolding amount_of surpluses needs
amount_of_one k i [] target = inl refl
amount_of_one k i (a ∷ initial) [] = inl refl
amount_of_one k i (a ∷ initial) (b ∷ target) =
    let one = amount_of_one k (suc i) initial target in
    let above =
      amount_of-After i (surpluses (suc i) initial target)
        (surpluses-After i (suc i) initial target (omega arith)) in
    let below =
      amount_of-After i (needs (suc i) initial target)
        (needs-After i (suc i) initial target (omega arith)) in
    elim (Bool-cases (i == k)) [
      | inl same ↦
          let here : i ≡ k = ground arith in
          elim (Bool-cases (ltbℤ b a)) [
            | inl more ↦ inr (rw (← here) (ground (arith, below)))
            | inr less ↦ inl (rw (← here, less) above)
          ]
      | inr other ↦ elim one [
        | inl none_above ↦ inl (ground (arith, none_above))
        | inr none_below ↦ inr (ground (arith, none_below))
      ]
    ]

needs-IsPositive : (i : ℕ) (initial target : List ℤ) → IsPositive (needs i initial target)
unfolding needs
needs-IsPositive i [] target = tt
needs-IsPositive i (a ∷ initial) [] = tt
needs-IsPositive i (a ∷ initial) (b ∷ target) = elim (Bool-cases (ltbℤ a b)) [
  | inl less ↦ rw less (ground arith, needs-IsPositive (suc i) initial target)
  | inr more ↦ rw more (needs-IsPositive (suc i) initial target)
]

length-amounts :
    (i : ℕ) (initial target : List ℤ)
    → length (surpluses i initial target) + length (needs i initial target) ≤ length initial
unfolding surpluses needs
length-amounts i [] target = omega arith
length-amounts i (a ∷ initial) [] = omega arith
length-amounts i (a ∷ initial) (b ∷ target) = ground (arith, length-amounts (suc i) initial target)

plan-met :
    (d m e s : ℕ) (ds es : Amounts) → m ≤ s → m ≤ received d (plan ((d, m) ∷ ds) ((e, s) ∷ es))
unfolding received
plan-met d m e s ds es le = elim (Bool-cases (s == m)) [
  | inl eq ↦ rw (plan-same d m e s ds es (ground arith)) (ground arith)
  | inr ne ↦ rw (plan-rest d m e s ds es (ground arith)) (ground arith)
]

module _ (initial target : List ℤ) (same : length target ≡ length initial) where
  pub found_plan :
      transfers_of (find_transfers initial target)
      ≡ plan (needs 0 initial target) (surpluses 0 initial target)
  found_plan = ap transfers_of (find_transfers-plan initial target same)

  -- `findTransfers` returns, and by its transfers no wallet sends more than it has above its target, and none
  -- both sends and receives; for as many targets as wallets.
  pub sent-le-surplus :
      (k : ℕ)
      → (find_transfers initial target ≡ found (transfers_of (find_transfers initial target)))
        × (sent k (transfers_of (find_transfers initial target))
            ≤ amount_of k (surpluses 0 initial target))
        × ((sent k (transfers_of (find_transfers initial target)) ≡ 0)
            ⊎ (received k (transfers_of (find_transfers initial target)) ≡ 0))
  sent-le-surplus k =
      let e = surpluses 0 initial target in
      let d = needs 0 initial target in
      rw (find_transfers-plan initial target same) (
        refl,
        plan-sent k d e,
        elim (amount_of_one k 0 initial target) [
          | inl none_above ↦ inl (omega (arith, plan-sent k d e))
          | inr none_below ↦
              inr (plan-received k d e (needs-IsPositive 0 initial target) none_below)
        ],
      )

  -- Either every wallet sends all that it has above its target, or every wallet receives at least what it lacks.
  surplus_or_need :
      ((k : ℕ)
        → sent k (transfers_of (find_transfers initial target))
          ≡ amount_of k (surpluses 0 initial target))
      ⊎ ((k : ℕ)
          → amount_of k (needs 0 initial target)
            ≤ received k (transfers_of (find_transfers initial target)))
  surplus_or_need =
      rw found_plan (plan-done_or_met (needs 0 initial target) (surpluses 0 initial target))

  -- There are fewer transfers than wallets.
  length-transfers :
      0 < length initial → length (transfers_of (find_transfers initial target)) < length initial
  length-transfers some_wallet = rw found_plan (
      omega (
        arith,
        length-plan (needs 0 initial target) (surpluses 0 initial target),
        length-amounts 0 initial target,
      ))

  -- Where the first wallet that lacks anything lacks m, and the first two surpluses are s, less than m, and
  -- one of at least m, that wallet receives at least m + s; for as many targets as wallets.
  pub received_too_much :
      (d m e s e' s' : ℕ) (es ds : Amounts)
      → surpluses 0 initial target ≡ (e, s) ∷ (e', s') ∷ es
      → needs 0 initial target ≡ (d, m) ∷ ds
      → s < m
      → m ≤ s'
      → m + s ≤ received d (transfers_of (find_transfers initial target))
  unfolding received
  received_too_much d m e s e' s' es ds hs hd less more =
      rw (found_plan, hs, hd, plan-less d m e s ds ((e', s') ∷ es) less)
        (ground (arith, plan-met d m e' s' ds es more))
