-- ===== src/Funds/Tests.antt =====
-- The transfers, the strategies and the keys at small inputs.
use walletarmy.Common.{
  ℕ, suc, ◌+◌, ◌≤◌, ◌≡◌, ◌⊎◌, refl, Option, none, some, List, [], ◌∷◌, length, ℤ, pos, arith,
}
use walletarmy.Outside.{Error, Except, ok, err}
use walletarmy.Funds.{found, panics, find_transfers, match_from, chosen, spend}
use walletarmy.Funds.Plan.{give, surpluses, needs}
use walletarmy.Funds.Balance.{sent, received, amount_of, transfers_of}
use walletarmy.Funds.Transfers.{sent-le-surplus, received_too_much}
use walletarmy.Funds.Strategy.{
  strategy_transfers, targets_for_consolidation, targets_for_even_distribution,
}
use walletarmy.Funds.Strategy.Consolidation.{balances_of, consolidation-exact}
use walletarmy.Funds.Keys.{wallet_count, load_private_key_configs, add_keys}

abbrev four : List ℤ
four = pos 4 ∷ pos 8 ∷ pos 0 ∷ pos 0 ∷ []

abbrev threes : List ℤ
threes = pos 3 ∷ pos 3 ∷ pos 3 ∷ pos 3 ∷ []

-- The wallet 2 lacks 3 and receives 4; the wallet 3 lacks 3 and receives 2.
run_four : find_transfers four threes ≡ found (give 0 2 1 ∷ give 1 2 3 ∷ give 1 3 2 ∷ [])
unfolding find_transfers match_from chosen spend
run_four = refl

different_lengths : find_transfers four [] ≡ panics
unfolding find_transfers
different_lengths = refl

even_targets :
    targets_for_even_distribution (7 ∷ 8 ∷ []) ((7, pos 5) ∷ (8, pos 2) ∷ [])
    ≡ some (some (pos 5) ∷ some (pos 2) ∷ [], pos 3 ∷ pos 3 ∷ [])
unfolding targets_for_even_distribution
even_targets = refl

no_wallets : strategy_transfers (targets_for_consolidation [] []) ≡ panics
unfolding targets_for_consolidation
no_wallets = refl

sent-le-surplus_example :
    (find_transfers four threes ≡ found (transfers_of (find_transfers four threes)))
    × (sent 1 (transfers_of (find_transfers four threes)) ≤ amount_of 1 (surpluses 0 four threes))
    × ((sent 1 (transfers_of (find_transfers four threes)) ≡ 0)
        ⊎ (received 1 (transfers_of (find_transfers four threes)) ≡ 0))
sent-le-surplus_example = sent-le-surplus four threes refl 1

received_too_much_example : 3 + 1 ≤ received 2 (transfers_of (find_transfers four threes))
unfolding surpluses needs
received_too_much_example =
    received_too_much four threes refl 2 3 0 1 1 5 [] ((3, 3) ∷ []) refl refl (omega arith)
      (omega arith)

consolidation-exact_example :
    (sent 2 (
        transfers_of (
          strategy_transfers (
            targets_for_consolidation
              (7 ∷ 8 ∷ 9 ∷ [])
              (balances_of (7 ∷ 8 ∷ 9 ∷ []) (1 ∷ 5 ∷ 4 ∷ [])))))
      ≡ 4)
    × (received 2 (
          transfers_of (
            strategy_transfers (
              targets_for_consolidation
                (7 ∷ 8 ∷ 9 ∷ [])
                (balances_of (7 ∷ 8 ∷ 9 ∷ []) (1 ∷ 5 ∷ 4 ∷ [])))))
        ≡ 0)
consolidation-exact_example =
    consolidation-exact 7 1 (8 ∷ 9 ∷ []) (5 ∷ 4 ∷ []) 2 refl
      ((omega arith, (omega arith, tt)), ((omega arith, tt), (tt, tt)))

-- A generator that counts, and a file that can be written.
abbrev counted : ℕ → Except ℕ × ℕ
counted w = (ok w, suc w)

abbrev saved : List ℕ → ℕ → Option Error × ℕ
saved ks w = (none, w)

abbrev number_of : Except (List ℕ) → ℕ
number_of (ok ks) = length ks
number_of (err e) = 0

filled_up : number_of (load_private_key_configs counted saved (7 ∷ 8 ∷ []) 0).0 ≡ wallet_count
unfolding load_private_key_configs add_keys
filled_up = refl
