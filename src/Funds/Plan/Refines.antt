-- ===== src/Funds/Plan/Refines.antt =====
-- `findTransfers` follows the plan, in as many rounds as it has surpluses and needs.
use walletarmy.Common.{
  ℕ, zero, suc, ◌+◌, ◌-◌, ◌≤◌, ◌<◌, ◌≡◌, refl, sym, ap, true, Bool-cases, inl, inr, List, [], ◌∷◌,
  length, ltb, ◌==◌, ℤ, pos, arith,
}
use walletarmy.Funds.{
  Heap, is_zero, after_transfer, found, and_transfer, match_from, differences, find_transfers,
}
use walletarmy.Funds.Plan.{Amounts, wallets, give, plan, Excess, Deficit, surpluses, needs}
use walletarmy.Funds.Plan.Scan.{differences-Excess, differences-Deficit}
use walletarmy.Funds.Plan.Round.{after-less, after-more, Excess-after, Deficit-after}

is_zero-sub : (s m : ℕ) (z : ℤ) → m ≤ s → z ≡ pos (s - m) → is_zero z ≡ (s == m)
is_zero-sub s m z le e = ground arith

pub plan-nil : (ds : Amounts) → plan ds [] ≡ []
unfolding plan
plan-nil [] = refl
plan-nil ((d, m) ∷ ds) = refl

pub plan-done : (es : Amounts) → plan [] es ≡ []
unfolding plan
plan-done es = refl

module _ (d m e s : ℕ) (ds es : Amounts) where
  pub plan-less : s < m → plan ((d, m) ∷ ds) ((e, s) ∷ es) ≡ give e d s ∷ plan ((d, m) ∷ ds) es
  unfolding plan
  plan-less lt = ground arith

  pub plan-same : s ≡ m → plan ((d, m) ∷ ds) ((e, s) ∷ es) ≡ give e d m ∷ plan ds es
  unfolding plan
  plan-same eq = ground arith

  pub plan-rest : m < s → plan ((d, m) ∷ ds) ((e, s) ∷ es) ≡ give e d m ∷ plan ds ((e, s - m) ∷ es)
  unfolding plan
  plan-rest lt = ground arith

match_from-plan :
    (rounds n : ℕ) (es ds : Amounts) (h : Heap)
    → Excess n h es
    → Deficit n h ds
    → length es + length ds ≤ rounds
    → match_from rounds n (wallets es) (wallets ds) h ≡ found (plan ds es)
unfolding match_from
match_from-plan rounds n [] ds h x y le = ap found (sym (plan-nil ds))
match_from-plan rounds n ((e, s) ∷ es) [] h x y le = ap found (sym (plan-done ((e, s) ∷ es)))
match_from-plan zero n ((e, s) ∷ es) ((d, m) ∷ ds) h x y le = absurd (omega arith)
match_from-plan (suc rounds) n ((e, s) ∷ es) ((d, m) ∷ ds) h (he, s-pos, e-lt, e-rising, x)
      (hd, m-pos, d-lt, d-rising, y) le =
    let h' : Heap = after_transfer n e d h in
    let x' : Excess n h' es = Excess-after n e d (m - 1) h es hd e-rising x in
    let y' : Deficit n h' ds = Deficit-after n e d s h ds he d-rising y in
    elim (Bool-cases (ltb s m)) [
      | inl less ↦
          let a = after-less n e d s m h e-lt d-lt he hd m-pos (ground arith) in
          rw (plan-less d m e s ds es (ground arith), a.0, a.1, a.2)
            (ap (and_transfer (give e d s)) (
              match_from-plan rounds n es ((d, m) ∷ ds) h' x' (a.1, m-pos, d-lt, d-rising, y')
                (omega arith)))
      | inr more ↦
          let a = after-more n e d s m h e-lt d-lt he hd m-pos (ground arith) in
          elim (Bool-cases (s == m)) [
            | inl same ↦
                rw
                  (
                    plan-same d m e s ds es (ground arith),
                    is_zero-sub s m (h' e) (ground arith) a.0,
                    same,
                    a.1,
                    a.2,
                  )
                  (ap (and_transfer (give e d m))
                    (match_from-plan rounds n es ds h' x' y' (omega arith)))
            | inr rest ↦
                rw
                  (
                    plan-rest d m e s ds es (ground arith),
                    is_zero-sub s m (h' e) (ground arith) a.0,
                    rest,
                    a.1,
                    a.2,
                  )
                  (ap (and_transfer (give e d m)) (
                    match_from-plan rounds n ((e, s - m) ∷ es) ds h'
                      (a.0, ground arith, e-lt, e-rising, x') y' (omega arith)))
          ]
    ]

same_length : (n k : ℕ) → k ≡ n → (k == n) ≡ true
same_length n k e = ground arith

length-wallets : (es : Amounts) → length (wallets es) ≡ length es
length-wallets [] = refl
length-wallets (e ∷ es) = ap (λ k. suc k) (length-wallets es)

-- For as many targets as wallets, `findTransfers` returns the transfers of the plan. In particular its
-- loop ends within as many rounds as there are surpluses and needs.
pub find_transfers-plan :
    (initial target : List ℤ)
    → length target ≡ length initial
    → find_transfers initial target
      ≡ found (plan (needs 0 initial target) (surpluses 0 initial target))
unfolding find_transfers
find_transfers-plan initial target same =
    let n = length initial in
    let (excess, x) = differences-Excess n 0 initial target (omega arith) in
    let (deficit, y) = differences-Deficit n 0 initial target (omega arith) in
    let e = surpluses 0 initial target in
    let d = needs 0 initial target in
    rw (same_length n (length target) same, excess, deficit)
      (match_from-plan (length (wallets e) + length (wallets d)) n e d
        (differences 0 initial target).difference x y
        (omega (arith, length-wallets e, length-wallets d)))
