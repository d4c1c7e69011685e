-- ===== src/Manager/Accounts.antt =====
-- manager.go: the accounts, by address. An account is known by its address.
use walletarmy.Common.{ℕ, true, Option, none, some, if◌then◌else◌}
use walletarmy.Common.Text.{codes}
use walletarmy.Outside.{Outside, Except, ok, err, wrapped, plain}
use walletarmy.Manager.{Manager, Action, pure, ◌>>=◌, ◌>>◌, outside, modify, set_at}

module _ (o : Outside) where
  abbrev pub set_account : ℕ → Action (Manager o) (Unit {0})
  set_account account = modify o λ m. record m { accounts = set_at account true m.accounts }

  abbrev pub account : ℕ → Action (Manager o) (Option ℕ)
  account wallet m = (if m.accounts wallet then some wallet else none, m)

  abbrev pub register : Except ℕ → Action (Manager o) (Except ℕ)
  register (err e) = pure (err (wrapped (codes "unlocking wallet failed") e))
  register (ok account) = do set_account account; pure (ok account)

  unfoldable pub unlock_account : ℕ → Action (Manager o) (Except ℕ)
  unlock_account wallet = do
    found ← outside o (o.find_account wallet)
    (if found
        then (do unlocked ← outside o (o.unlock wallet); register unlocked)
        else pure (err (plain (codes "wallet doesn't exist in jarvis"))))
