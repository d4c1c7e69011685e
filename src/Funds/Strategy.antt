-- ===== src/Funds/Strategy.antt =====
-- examples/fund_distribution/main.go: the two strategies, and the balances that they start from. An address
-- is a number, and the map of the balances lists each address once.
pub mod Consolidation
use Prim.Native.Nat.{◌/◌}
use walletarmy.Common.{
  ℕ, zero, suc, ◌+◌, Bool, true, false, Option, none, some, List, [], ◌∷◌, map, length, ◌==◌, ℤ,
  pos, negsuc, ◌+ℤ◌, if◌then◌else◌,
}
use walletarmy.Outside.{Error, Except, ok, err}
use walletarmy.Funds.{Found, panics, find_transfers}

abbrev pub Balances : Type 0
Balances = List (ℕ × ℤ)

abbrev pub balance_of : ℕ → Balances → Option ℤ
balance_of a [] = none
balance_of a ((b, v) ∷ rest) = if b == a then some v else balance_of a rest

abbrev pub put_balance : ℕ → ℤ → Balances → Balances
put_balance a v [] = (a, v) ∷ []
put_balance a v ((b, w) ∷ rest) = if b == a then (a, v) ∷ rest else (b, w) ∷ put_balance a v rest

abbrev pub total_balance : Balances → ℤ
total_balance [] = pos 0
total_balance ((b, v) ∷ rest) = v +ℤ total_balance rest

-- `Div` of a `big.Int` by a positive number rounds down.
abbrev pub div_by : ℤ → ℕ → ℤ
div_by (pos a) n = pos (a / n)
div_by (negsuc a) n = negsuc (a / n)

-- The initial balances, nil for an address that is not in the map, and the targets.
abbrev pub Targets : Type 0
Targets = List (Option ℤ) × List ℤ

abbrev pub initial_balances : List ℕ → Balances → List (Option ℤ)
initial_balances wallets balances = map (λ a. balance_of a balances) wallets

-- `none`: the index 0 of an empty slice.
unfoldable pub targets_for_consolidation : List ℕ → Balances → Option Targets
targets_for_consolidation [] balances = none
targets_for_consolidation (a ∷ wallets) balances =
    some
      (initial_balances (a ∷ wallets) balances, total_balance balances ∷ map (λ b. pos 0) wallets)

-- `none`: a division by 0.
unfoldable pub targets_for_even_distribution : List ℕ → Balances → Option Targets
targets_for_even_distribution [] balances = none
targets_for_even_distribution (a ∷ wallets) balances = some (
  initial_balances (a ∷ wallets) balances,
  map (λ b. div_by (total_balance balances) (length (a ∷ wallets))) (a ∷ wallets),
)

abbrev pub no_nil : List (Option ℤ) → Option (List ℤ)
no_nil [] = some []
no_nil (none ∷ balances) = none
no_nil (some v ∷ balances) = elim (no_nil balances) [ none ↦ none | some vs ↦ some (v ∷ vs) ]

abbrev pub from_initial : Option (List ℤ) → List ℤ → Found
from_initial none target = panics
from_initial (some initial) target = find_transfers initial target

-- The first lines of `ExecuteStrategy`. `Sub` panics at a nil balance.
abbrev pub strategy_transfers : Option Targets → Found
strategy_transfers none = panics
strategy_transfers (some (initial, target)) = from_initial (no_nil initial) target

-- `GetBalances`, with the reader's `GetBalance`.
module _ {W : Type 0} (get_balance : ℕ → W → Except ℤ × W) where
  abbrev pub with_balance :
      (Balances → W → Except Balances × W) → ℕ → Balances → Except ℤ → W → Except Balances × W
  with_balance rest a so_far (err e) w = (err e, w)
  with_balance rest a so_far (ok v) w = rest (put_balance a v so_far) w

  unfoldable pub read_balances : List ℕ → Balances → W → Except Balances × W
  read_balances [] so_far w = (ok so_far, w)
  read_balances (a ∷ wallets) so_far w =
      let (answer, w') = get_balance a w in with_balance (read_balances wallets) a so_far answer w'

  abbrev pub get_balances : (W → Option Error × W) → List ℕ → W → Except Balances × W
  get_balances make_reader wallets w =
      let (failed, w') = make_reader w in
      elim failed [ some e ↦ (err e, w') | none ↦ read_balances wallets [] w' ]
