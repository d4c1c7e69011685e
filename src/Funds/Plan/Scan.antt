-- ===== src/Funds/Plan/Scan.antt =====
-- The first loop of `findTransfers`: the surpluses, the needs, and the heap that holds them.
use walletarmy.Common.{
  ℕ, suc, ◌+◌, ◌-◌, ◌≤◌, ◌<◌, ◌≡◌, refl, ap, ◌∙◌, true, Bool-cases, inl, inr, List, [], ◌∷◌, length,
  All, ℤ, pos, negsuc, ◌-ℤ◌, ltbℤ, pos_part, arith,
}
use walletarmy.Funds.{update, Heap, differences}
use walletarmy.Funds.Plan.{Amounts, wallets, Excess, Deficit, surpluses, needs}

Excess-update :
    (n i : ℕ) (v : ℤ) (h : Heap) (es : Amounts)
    → All (λ p. i < p.0) es
    → Excess n h es
    → Excess n (update i v h) es
Excess-update n i v h [] a x = tt
Excess-update n i v h ((e, s) ∷ es) (lt, a) (he, s-pos, e-lt, rising, x) =
    (ground arith, s-pos, e-lt, rising, Excess-update n i v h es a x)

Deficit-update :
    (n i : ℕ) (v : ℤ) (h : Heap) (ds : Amounts)
    → All (λ p. i < p.0) ds
    → Deficit n h ds
    → Deficit n (update i v h) ds
Deficit-update n i v h [] a x = tt
Deficit-update n i v h ((d, m) ∷ ds) (lt, a) (hd, m-pos, d-lt, rising, x) =
    (ground arith, m-pos, d-lt, rising, Deficit-update n i v h ds a x)

abbrev pub After : ℕ → Amounts → Type 0
After i = All (λ p. i < p.0)

pub surpluses-After :
    (j i : ℕ) (initial target : List ℤ) → j < i → After j (surpluses i initial target)
unfolding surpluses
surpluses-After j i [] target lt = tt
surpluses-After j i (a ∷ initial) [] lt = tt
surpluses-After j i (a ∷ initial) (b ∷ target) lt = elim (Bool-cases (ltbℤ b a)) [
  | inl more ↦ rw more (lt, surpluses-After j (suc i) initial target (omega arith))
  | inr less ↦ rw less (surpluses-After j (suc i) initial target (omega arith))
]

pub needs-After : (j i : ℕ) (initial target : List ℤ) → j < i → After j (needs i initial target)
unfolding needs
needs-After j i [] target lt = tt
needs-After j i (a ∷ initial) [] lt = tt
needs-After j i (a ∷ initial) (b ∷ target) lt = elim (Bool-cases (ltbℤ a b)) [
  | inl less ↦ rw less (lt, needs-After j (suc i) initial target (omega arith))
  | inr more ↦ rw more (needs-After j (suc i) initial target (omega arith))
]

excess_test : (a b : ℤ) → ltbℤ (pos 0) (a -ℤ b) ≡ ltbℤ b a
excess_test a b = ground arith

deficit_test : (a b : ℤ) → ltbℤ (a -ℤ b) (pos 0) ≡ ltbℤ a b
deficit_test a b = ground arith

surplus_value :
    (a b : ℤ) → ltbℤ b a ≡ true → (a -ℤ b ≡ pos (pos_part (a -ℤ b))) × (0 < pos_part (a -ℤ b))
surplus_value a b h = ground arith

need_value :
    (a b : ℤ)
    → ltbℤ a b ≡ true
    → (a -ℤ b ≡ negsuc (pos_part (b -ℤ a) - 1)) × (0 < pos_part (b -ℤ a))
need_value a b h = ground arith

update_self : (i : ℕ) (v : ℤ) (h : Heap) → update i v h i ≡ v
update_self i v h = ground arith

pub differences-Excess :
    (n i : ℕ) (initial target : List ℤ)
    → i + length initial ≤ n
    → ((differences i initial target).excess ≡ wallets (surpluses i initial target))
      × Excess n (differences i initial target).difference (surpluses i initial target)
unfolding surpluses
differences-Excess n i [] target le = (refl, tt)
differences-Excess n i (a ∷ initial) [] le = (refl, tt)
differences-Excess n i (a ∷ initial) (b ∷ target) le =
    let ih = differences-Excess n (suc i) initial target (omega arith) in
    let later = surpluses-After i (suc i) initial target (omega arith) in
    let h = (differences (suc i) initial target).difference in
    let kept = Excess-update n i (a -ℤ b) h (surpluses (suc i) initial target) later ih.1 in
    elim (Bool-cases (ltbℤ b a)) [
      | inl more ↦
          let (value, positive) = surplus_value a b more in
          rw (more, excess_test a b)
            (rw more (
              ap (λ t. i ∷ t) ih.0,
              (update_self i (a -ℤ b) h ∙ value, positive, omega arith, later, kept),
            ))
      | inr less ↦ rw (less, excess_test a b) (rw less (ih.0, kept))
    ]

pub differences-Deficit :
    (n i : ℕ) (initial target : List ℤ)
    → i + length initial ≤ n
    → ((differences i initial target).deficit ≡ wallets (needs i initial target))
      × Deficit n (differences i initial target).difference (needs i initial target)
unfolding needs
differences-Deficit n i [] target le = (refl, tt)
differences-Deficit n i (a ∷ initial) [] le = (refl, tt)
differences-Deficit n i (a ∷ initial) (b ∷ target) le =
    let ih = differences-Deficit n (suc i) initial target (omega arith) in
    let later = needs-After i (suc i) initial target (omega arith) in
    let h = (differences (suc i) initial target).difference in
    let kept = Deficit-update n i (a -ℤ b) h (needs (suc i) initial target) later ih.1 in
    elim (Bool-cases (ltbℤ a b)) [
      | inl less ↦
          let (value, positive) = need_value a b less in
          rw (less, deficit_test a b)
            (rw less (
              ap (λ t. i ∷ t) ih.0,
              (update_self i (a -ℤ b) h ∙ value, positive, omega arith, later, kept),
            ))
      | inr more ↦ rw (more, deficit_test a b) (rw more (ih.0, kept))
    ]
