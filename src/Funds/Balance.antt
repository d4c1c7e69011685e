-- ===== src/Funds/Balance.antt =====
-- What the transfers of `findTransfers` take from each wallet and bring to it.
use walletarmy.Common.{
  ℕ, ◌+◌, ◌-◌, ◌≤◌, ◌<◌, ◌≡◌, ◌⊎◌, refl, Bool-cases, inl, inr, List, [], ◌∷◌, length, All, ltb,
  ◌==◌, pos_part, if◌then◌else◌, arith,
}
use walletarmy.Funds.{Transfer, Found, found}
use walletarmy.Funds.Plan.{Amounts, give, plan}
use walletarmy.Funds.Plan.Refines.{plan-nil, plan-done, plan-less, plan-same, plan-rest}

-- The amounts are positive.
unfoldable pub sent : ℕ → List Transfer → ℕ
sent k [] = 0
sent k (t ∷ ts) = (if t.from == k then pos_part t.amount else 0) + sent k ts

unfoldable pub received : ℕ → List Transfer → ℕ
received k [] = 0
received k (t ∷ ts) = (if t.to == k then pos_part t.amount else 0) + received k ts

unfoldable pub amount_of : ℕ → Amounts → ℕ
amount_of k [] = 0
amount_of k ((e, s) ∷ es) = (if e == k then s else 0) + amount_of k es

abbrev pub transfers_of : Found → List Transfer
transfers_of (found ts) = ts
transfers_of _ = []

-- A property of the plan by the four cases of a round.
module _ (P : Amounts → Amounts → List Transfer → Type 0) (no_need : (es : Amounts) → P [] es [])
    (no_surplus : (d m : ℕ) (ds : Amounts) → P ((d, m) ∷ ds) [] [])
    (less : (d m e s : ℕ) (ds es : Amounts) (ts : List Transfer)
      → s < m
      → P ((d, m) ∷ ds) es ts
      → P ((d, m) ∷ ds) ((e, s) ∷ es) (give e d s ∷ ts))
    (same : (d m e : ℕ) (ds es : Amounts) (ts : List Transfer)
      → P ds es ts
      → P ((d, m) ∷ ds) ((e, m) ∷ es) (give e d m ∷ ts))
    (more : (d m e s : ℕ) (ds es : Amounts) (ts : List Transfer)
      → m < s
      → P ds ((e, s - m) ∷ es) ts
      → P ((d, m) ∷ ds) ((e, s) ∷ es) (give e d m ∷ ts)) where
  pub plan_induction : (ds es : Amounts) → P ds es (plan ds es)
  plan_induction [] es = rw (plan-done es) (no_need es)
  plan_induction ((d, m) ∷ ds) [] = rw (plan-nil ((d, m) ∷ ds)) (no_surplus d m ds)
  plan_induction ((d, m) ∷ ds) ((e, s) ∷ es) = elim (Bool-cases (ltb s m)) [
    | inl lt ↦ rw (plan-less d m e s ds es (ground arith)) (
        less d m e s ds es (plan ((d, m) ∷ ds) es) (ground arith) (plan_induction ((d, m) ∷ ds) es))
    | inr ge ↦ elim (Bool-cases (s == m)) [
      | inl eq ↦
          let e' : s ≡ m = ground arith in
          rw (plan-same d m e s ds es e')
            (rw e' (same d m e ds es (plan ds es) (plan_induction ds es)))
      | inr ne ↦ rw (plan-rest d m e s ds es (ground arith)) (
          more d m e s ds es (plan ds ((e, s - m) ∷ es)) (ground arith)
            (plan_induction ds ((e, s - m) ∷ es)))
    ]
  ]

pub plan-sent : (k : ℕ) (ds es : Amounts) → sent k (plan ds es) ≤ amount_of k es
unfolding sent amount_of
plan-sent k =
    plan_induction (λ ds es ts. sent k ts ≤ amount_of k es) (λ es. omega arith)
      (λ d m ds. omega arith) (λ d m e s ds es ts lt h. ground arith)
      (λ d m e ds es ts h. ground arith) (λ d m e s ds es ts lt h. ground arith)

-- Every surplus is used up, or every need is met.
pub plan-done_or_met :
    (ds es : Amounts)
    → ((k : ℕ) → sent k (plan ds es) ≡ amount_of k es)
      ⊎ ((k : ℕ) → amount_of k ds ≤ received k (plan ds es))
unfolding sent received amount_of
plan-done_or_met =
    plan_induction
      (λ ds es ts.
        ((k : ℕ) → sent k ts ≡ amount_of k es) ⊎ ((k : ℕ) → amount_of k ds ≤ received k ts))
      (λ es. inr (λ k. omega arith)) (λ d m ds. inl (λ k. refl))
      (λ d m e s ds es ts lt h. elim h [
        | inl done ↦ inl (λ k. ground (arith, done k))
        | inr met ↦ inr (λ k. ground (arith, met k))
      ])
      (λ d m e ds es ts h. elim h [
        | inl done ↦ inl (λ k. ground (arith, done k))
        | inr met ↦ inr (λ k. ground (arith, met k))
      ])
      (λ d m e s ds es ts lt h. elim h [
        | inl done ↦ inl (λ k. ground (arith, done k))
        | inr met ↦ inr (λ k. ground (arith, met k))
      ])

abbrev pub IsPositive : Amounts → Type 0
IsPositive = All (λ p. 0 < p.1)

pub plan-received :
    (k : ℕ) (ds es : Amounts) → IsPositive ds → amount_of k ds ≡ 0 → received k (plan ds es) ≡ 0
unfolding received amount_of
plan-received k =
    plan_induction (λ ds es ts. IsPositive ds → amount_of k ds ≡ 0 → received k ts ≡ 0)
      (λ es p z. refl) (λ d m ds p z. refl) (λ d m e s ds es ts lt h p z. ground (arith, h p z))
      (λ d m e ds es ts h p z. ground (arith, h p.1))
      (λ d m e s ds es ts lt h p z. ground (arith, h p.1))

pub length-plan : (ds es : Amounts) → length (plan ds es) ≤ length ds + length es - 1
length-plan =
    plan_induction (λ ds es ts. length ts ≤ length ds + length es - 1) (λ es. omega arith)
      (λ d m ds. omega arith) (λ d m e s ds es ts lt h. omega arith)
      (λ d m e ds es ts h. omega arith) (λ d m e s ds es ts lt h. omega arith)
