-- ===== src/Funds/Exact.antt =====
-- When `findTransfers` meets every need exactly: one wallet that is below its target, or one above it.
use walletarmy.Common.{
  ℕ, ◌+◌, ◌-◌, ◌≤◌, ◌≡◌, Bool-cases, inl, inr, List, [], ◌∷◌, length, ltb, ◌==◌, ℤ, if◌then◌else◌,
  arith,
}
use walletarmy.Funds.{find_transfers}
use walletarmy.Funds.Plan.{Amounts, plan, surpluses, needs}
use walletarmy.Funds.Plan.Refines.{plan-nil, plan-done, plan-less, plan-same, plan-rest}
use walletarmy.Funds.Balance.{sent, received, amount_of, transfers_of}
use walletarmy.Funds.Transfers.{found_plan}

unfoldable pub total : Amounts → ℕ
total [] = 0
total ((e, s) ∷ es) = s + total es

amount_of-le-total : (k : ℕ) (es : Amounts) → amount_of k es ≤ total es
unfolding amount_of total
amount_of-le-total k [] = omega arith
amount_of-le-total k ((e, s) ∷ es) = ground (arith, amount_of-le-total k es)

-- One wallet lacks m, and the others have no more than that too much.
pub plan_one_need :
    (k d m : ℕ) (es : Amounts)
    → total es ≤ m
    → (sent k (plan ((d, m) ∷ []) es) ≡ amount_of k es)
      × (received k (plan ((d, m) ∷ []) es) ≡ (if d == k then total es else 0))
unfolding sent received amount_of total
plan_one_need k d m [] le = rw (plan-nil ((d, m) ∷ [])) (ground arith)
plan_one_need k d m ((e, s) ∷ es) le = elim (Bool-cases (ltb s m)) [
  | inl less ↦
      let ih = plan_one_need k d m es (omega arith) in
      rw (plan-less d m e s [] es (ground arith)) (ground (arith, ih.0), ground (arith, ih.1))
  | inr more ↦
      rw (plan-same d m e s [] es (ground arith), plan-done es)
        (ground (arith, amount_of-le-total k es), ground (arith, amount_of-le-total k es))
]

-- One wallet has s too much, and the others lack no more than that.
pub plan_one_surplus :
    (k e s : ℕ) (ds : Amounts)
    → total ds ≤ s
    → (received k (plan ds ((e, s) ∷ [])) ≡ amount_of k ds)
      × (sent k (plan ds ((e, s) ∷ [])) ≡ (if e == k then total ds else 0))
unfolding sent received amount_of total
plan_one_surplus k e s [] le = rw (plan-done ((e, s) ∷ [])) (ground arith)
plan_one_surplus k e s ((d, m) ∷ ds) le = elim (Bool-cases (s == m)) [
  | inl same ↦
      rw (plan-same d m e s ds [] (ground arith), plan-nil ds)
        (ground (arith, amount_of-le-total k ds), ground (arith, amount_of-le-total k ds))
  | inr more ↦
      let ih = plan_one_surplus k e (s - m) ds (omega arith) in
      rw (plan-rest d m e s ds [] (ground arith)) (ground (arith, ih.0), ground (arith, ih.1))
]

-- Where one wallet has more than its target, and enough for all the others, every wallet receives exactly
-- what it lacks, and that one sends exactly the total.
one_surplus-exact :
    (initial target : List ℤ) (k e s : ℕ)
    → length target ≡ length initial
    → surpluses 0 initial target ≡ (e, s) ∷ []
    → total (needs 0 initial target) ≤ s
    → (received k (transfers_of (find_transfers initial target))
        ≡ amount_of k (needs 0 initial target))
      × (sent k (transfers_of (find_transfers initial target))
          ≡ (if e == k then total (needs 0 initial target) else 0))
one_surplus-exact initial target k e s same one enough =
    rw (found_plan initial target same, one)
      (plan_one_surplus k e s (needs 0 initial target) enough)
