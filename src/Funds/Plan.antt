-- ===== src/Funds/Plan.antt =====
-- The second loop of `findTransfers` without the heap: a list of surpluses against a list of needs.
pub mod Round
pub mod Scan
pub mod Refines
use walletarmy.Common.{
  ℕ, zero, suc, ◌+◌, ◌-◌, ◌≤◌, ◌<◌, ◌≡◌, ◌≢◌, refl, sym, ap, ◌∙◌, Bool, true, false, Bool-cases,
  inl, inr, List, [], ◌∷◌, map, length, All, ltb, ◌==◌, ℤ, pos, negsuc, ◌-ℤ◌, ltbℤ, pos_part,
  if◌then◌else◌, arith,
}
use walletarmy.Funds.{
  Transfer, Heap, is_zero, move_on, big_neg, chosen, spend, transfer_of, after_transfer, Found,
  panics, endless, found, and_transfer, match_from, differences, Differences, find_transfers,
}

-- A wallet, and how much it has too much or too little.
abbrev pub Amounts : Type 0
Amounts = List (ℕ × ℕ)

abbrev pub wallets : Amounts → List ℕ
wallets = map (λ p. p.0)

abbrev pub give : ℕ → ℕ → ℕ → Transfer
give e d amount = record { from = e; to = d; amount = pos amount }

-- A surplus below the need is used up, and the need stays as it was.
unfoldable pub plan : Amounts → Amounts → List Transfer
plan [] es = []
plan ((d, m) ∷ ds) [] = []
plan ((d, m) ∷ ds) ((e, s) ∷ es) = elim (ltb s m) [
  | true ↦ give e d s ∷ plan ((d, m) ∷ ds) es
  | false ↦ give e d m ∷ (elim (s == m) [ true ↦ plan ds es | false ↦ plan ds ((e, s - m) ∷ es) ])
]

-- The heap holds the surpluses, of wallets below n in rising order.
abbrev pub Excess : ℕ → Heap → Amounts → Type 0
Excess n h [] = Unit
Excess n h ((e, s) ∷ es) = (h e ≡ pos s) × (0 < s) × (e < n) × All (λ p. e < p.0) es × Excess n h es

abbrev pub Deficit : ℕ → Heap → Amounts → Type 0
Deficit n h [] = Unit
Deficit n h ((d, m) ∷ ds) =
    (h d ≡ negsuc (m - 1)) × (0 < m) × (d < n) × All (λ p. d < p.0) ds × Deficit n h ds

-- What each wallet has above its target, from the wallet `i` on, and what it lacks.
unfoldable pub surpluses : ℕ → List ℤ → List ℤ → Amounts
surpluses i (a ∷ initial) (b ∷ target) =
    let rest = surpluses (suc i) initial target in
    if ltbℤ b a then (i, pos_part (a -ℤ b)) ∷ rest else rest
surpluses i _ _ = []

unfoldable pub needs : ℕ → List ℤ → List ℤ → Amounts
needs i (a ∷ initial) (b ∷ target) =
    let rest = needs (suc i) initial target in
    if ltbℤ a b then (i, pos_part (b -ℤ a)) ∷ rest else rest
needs i _ _ = []
