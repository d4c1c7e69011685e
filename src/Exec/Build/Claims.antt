-- ===== src/Exec/Build/Claims.antt =====
-- `BuildTx` of manager_tx.go gives back a nonce that it acquired, unless it returns a transaction.
use walletarmy.Common.{ℕ, ◌≡◌, refl, ◌⊎◌, inl, Bool, true, false, Option, none, some, arith}
use walletarmy.Outside.{Outside, Network, Except, ok, err, KeepsNonce}
use walletarmy.Manager.{Manager, outside}
use walletarmy.Manager.Network.Frame.{KeepsTracker, reader-KeepsTracker}
use walletarmy.Manager.Gas.{gas_setting, refresh_gas}
use walletarmy.Manager.Nonces.{next_nonce}
use walletarmy.Manager.Nonces.Claims.{AddsClaim, nonce_in, next-AddsClaim, release-AddsClaim}
use walletarmy.Exec.{TxParams}
use walletarmy.Exec.Build.{
  Draft, choose_gas_limit, choose_nonce, fresh_nonce, choose_prices, assemble, with_prices,
  with_nonce, with_gas, build_tx,
}

-- The nonce of the transaction that was built.
abbrev pub built_nonce : (o : Outside) → Except o.Tx → Option ℕ
built_nonce o (ok tx) = some (o.nonce_of tx)
built_nonce o (err e) = none

-- The nonce that has to be given back.
abbrev owed : Except (ℕ × Bool) → Option ℕ
owed (err e) = none
owed (ok (n, true)) = some n
owed (ok (n, false)) = none

module _ (o : Outside) where
  refresh-KeepsTracker : (net : Network) → KeepsTracker o (refresh_gas o net)
  unfolding refresh_gas
  refresh-KeepsTracker net m = ground (arith, reader-KeepsTracker o net m)

  gas_setting-KeepsTracker : (net : Network) → KeepsTracker o (gas_setting o net)
  unfolding gas_setting
  gas_setting-KeepsTracker net m =
      ground (arith, refresh-KeepsTracker net m, refresh-KeepsTracker net (outside o o.now m).1)

  module _ (p : TxParams o) (d : Draft o) where
    choose_gas_limit-KeepsTracker : KeepsTracker o (choose_gas_limit o p d)
    unfolding choose_gas_limit
    choose_gas_limit-KeepsTracker m = ground (arith, reader-KeepsTracker o p.network m)

    choose_prices-KeepsTracker : KeepsTracker o (choose_prices o p d)
    unfolding choose_prices
    choose_prices-KeepsTracker m = ground (arith, gas_setting-KeepsTracker p.network m)

    module _ (k : ℕ) where
      fresh-owed : (r : Except ℕ) → owed (fresh_nonce o r) ≡ nonce_in r
      fresh-owed (ok n) = refl
      fresh-owed (err e) = refl

      choose_nonce-AddsClaim :
          (n : Option ℕ) (m : Manager o)
          → AddsClaim o p.from p.network k
              (owed (choose_nonce o p n m).0)
              m
              (choose_nonce o p n m).1
      unfolding choose_nonce
      choose_nonce-AddsClaim (some n) m h = inl h
      choose_nonce-AddsClaim none m h =
          rw (fresh-owed (next_nonce o p.from p.network m).0)
            (next-AddsClaim o p.from p.network k m h)

      nonce-assemble :
          KeepsNonce o
          → (n gas : ℕ) (prices : o.Float × o.Float) → o.nonce_of (assemble o p d n gas prices) ≡ n
      nonce-assemble law n gas prices = law.nonce_built _

      with_prices-AddsClaim :
          KeepsNonce o
          → (gas : ℕ) (nonce : ℕ × Bool) (prices : Except (o.Float × o.Float)) (m m' : Manager o)
          → AddsClaim o p.from p.network k (owed (ok nonce)) m m'
          → AddsClaim o p.from p.network k
              (built_nonce o (with_prices o p d gas nonce prices m').0)
              m
              (with_prices o p d gas nonce prices m').1
      with_prices-AddsClaim law gas (n, true) (err e) m m' h e' =
          release-AddsClaim o p.from p.network k n m m' h e'
      with_prices-AddsClaim law gas (n, false) (err e) m m' h e' = h e'
      with_prices-AddsClaim law gas (n, true) (ok prices) m m' h e' =
          rw (nonce-assemble law n gas prices) (h e')
      with_prices-AddsClaim law gas (n, false) (ok prices) m m' h e' = ground (arith, h e')

      with_nonce-AddsClaim :
          KeepsNonce o
          → (gas : ℕ) (nonce : Except (ℕ × Bool)) (m m' : Manager o)
          → AddsClaim o p.from p.network k (owed nonce) m m'
          → AddsClaim o p.from p.network k
              (built_nonce o (with_nonce o p d gas nonce m').0)
              m
              (with_nonce o p d gas nonce m').1
      with_nonce-AddsClaim law gas (err e) m m' h e' = h e'
      with_nonce-AddsClaim law gas (ok nonce) m m' h e' =
          with_prices-AddsClaim law gas nonce (choose_prices o p d m').0 m
            (choose_prices o p d m').1 (λ e. ground (arith, h, choose_prices-KeepsTracker m')) e'

      with_gas-AddsClaim :
          KeepsNonce o
          → (gas : Except ℕ) (m : Manager o)
          → AddsClaim o p.from p.network k
              (built_nonce o (with_gas o p d gas m).0)
              m
              (with_gas o p d gas m).1
      with_gas-AddsClaim law (err e) m h = inl h
      with_gas-AddsClaim law (ok gas) m h =
          with_nonce-AddsClaim law gas (choose_nonce o p d.nonce m).0 m
            (choose_nonce o p d.nonce m).1 (choose_nonce-AddsClaim d.nonce m) h

      -- The only claim that `BuildTx` adds is that of the nonce of the transaction that it returns:
      -- when it fails, it adds none, whatever it had acquired on the way. `BuildExactTx` is taken to
      -- keep the nonce that it is given.
      pub build_tx-AddsClaim :
          KeepsNonce o
          → (m : Manager o)
          → (build_tx o p d m).1.nonce_tracker.claimed_gaps p.from p.network.chain_id k ≡ true
          → (m.nonce_tracker.claimed_gaps p.from p.network.chain_id k ≡ true)
            ⊎ (built_nonce o (build_tx o p d m).0 ≡ some k)
      unfolding build_tx
      build_tx-AddsClaim law m h = ground (
        arith,
        choose_gas_limit-KeepsTracker m,
        with_gas-AddsClaim law (choose_gas_limit o p d m).0 (choose_gas_limit o p d m).1 h,
      )
