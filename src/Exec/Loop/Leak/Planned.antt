-- ===== src/Exec/Loop/Leak/Planned.antt =====
-- `BuildTx` of manager_tx.go uses the nonce that it is given.
use walletarmy.Common.{ℕ, ◌≡◌, subst, Bool, false, Option, none, some}
use walletarmy.Outside.{Outside, Except, ok, err, KeepsNonce}
use walletarmy.Manager.{Manager}
use walletarmy.Exec.{TxParams}
use walletarmy.Exec.Build.{
  Draft, choose_gas_limit, choose_nonce, choose_prices, assemble, with_prices, with_nonce, with_gas,
  build_tx,
}

module _ (o : Outside) where
  module _ (law : KeepsNonce o) (p : TxParams o) (d : Draft o) (n : ℕ) (tx : o.Tx) where
    with_prices-nonce :
        (gas : ℕ) (b : Bool) (prices : Except (o.Float × o.Float)) (m : Manager o)
        → (with_prices o p d gas (n, b) prices m).0 ≡ ok tx
        → o.nonce_of tx ≡ n
    with_prices-nonce gas b (err e) m h = absurd (cc)
    with_prices-nonce gas b (ok prices) m h =
        let same : o.nonce_of (assemble o p d n gas prices) ≡ n = law.nonce_built _ in cc

    with_nonce-nonce :
        (gas : ℕ) (nonce : Except (ℕ × Bool)) (m : Manager o)
        → nonce ≡ ok (n, false)
        → (with_nonce o p d gas nonce m).0 ≡ ok tx
        → o.nonce_of tx ≡ n
    with_nonce-nonce gas nonce m same h =
        with_prices-nonce gas false (choose_prices o p d m).0 (choose_prices o p d m).1
          (subst (λ a. (with_nonce o p d gas a m).0 ≡ ok tx) same h)

    choose_nonce-given :
        (v : Option ℕ) (m : Manager o) → v ≡ some n → (choose_nonce o p v m).0 ≡ ok (n, false)
    unfolding choose_nonce
    choose_nonce-given none m h = absurd (cc)
    choose_nonce-given (some v) m h = cc

    with_gas-nonce :
        (gas : Except ℕ) (m : Manager o)
        → d.nonce ≡ some n
        → (with_gas o p d gas m).0 ≡ ok tx
        → o.nonce_of tx ≡ n
    with_gas-nonce (err e) m same h = absurd (cc)
    with_gas-nonce (ok gas) m same h =
        with_nonce-nonce gas (choose_nonce o p d.nonce m).0 (choose_nonce o p d.nonce m).1
          (choose_nonce-given d.nonce m same) h

    -- A transaction that is built with a planned nonce has it.
    pub build_tx-nonce :
        (m : Manager o) → d.nonce ≡ some n → (build_tx o p d m).0 ≡ ok tx → o.nonce_of tx ≡ n
    unfolding build_tx
    build_tx-nonce m same h =
        with_gas-nonce (choose_gas_limit o p d m).0 (choose_gas_limit o p d m).1 same h
