-- ===== src/Exec/Build.antt =====
-- manager_tx.go: building, signing and broadcasting one transaction.
pub mod Claims
pub mod Sync
pub mod Records
use walletarmy.Common.{
  ℤ, ℕ, ◌+◌, ◌%◌, ◌^◌, Bool, true, false, Option, none, some, ◌==◌, if◌then◌else◌,
}
use walletarmy.Common.Text.{Text, codes}
use walletarmy.Broadcast.{BroadcastError, other, new_broadcast_error}
use walletarmy.Outside.{
  PendingTx, broadcasted, Outside, Error, Except, ok, err, join, wrapped, plain,
  estimate_gas_failed, acquire_nonce_failed, get_gas_setting_failed, Network,
}
use walletarmy.Manager.{Manager, Action, pure, ◌>>=◌, ◌>>◌, outside, modify, set_at}
use walletarmy.Manager.Network.{reader, broadcaster}
use walletarmy.Manager.Nonces.{next_nonce, release, set_pending}
use walletarmy.Manager.Accounts.{account, unlock_account}
use walletarmy.Manager.Gas.{gas_setting, set_tx}
use walletarmy.Exec.{TxParams}

-- The arguments of `BuildTx` that a retry may change.
pub record Draft (o : Outside) : Type 0 where
  pub nonce : Option ℕ
  pub gas_limit : ℕ
  pub extra_gas_limit : ℕ
  pub gas_price : o.Float
  pub extra_gas_price : o.Float
  pub tip_cap : o.Float
  pub extra_tip_cap : o.Float

module _ (o : Outside) where
  -- The gas limit: the given one, or an estimate.
  unfoldable pub choose_gas_limit : TxParams o → Draft o → Action (Manager o) (Except ℕ)
  choose_gas_limit p d =
      if d.gas_limit == 0
      then (do
        failed ← reader o p.network
        elim failed [
          | some e ↦ pure (err (join estimate_gas_failed (wrapped (codes "couldn't get reader") e)))
          | none ↦ do
            gas ← outside o (o.estimate_gas p.network p.from p.to d.gas_price p.value p.payload)
            elim gas [
              | err e ↦
                  pure (err (join estimate_gas_failed (wrapped (codes "couldn't estimate gas") e)))
              | ok gas ↦ pure (ok gas)
            ]
        ])
      else pure (ok d.gas_limit)

  abbrev pub fresh_nonce : Except ℕ → Except (ℕ × Bool)
  fresh_nonce (err e) = err (join acquire_nonce_failed (wrapped (codes "couldn't get nonce") e))
  fresh_nonce (ok nonce) = ok (nonce, true)

  -- The nonce, and whether it was acquired here.
  unfoldable pub choose_nonce : TxParams o → Option ℕ → Action (Manager o) (Except (ℕ × Bool))
  choose_nonce p (some nonce) = pure (ok (nonce, false))
  choose_nonce p none = do nonce ← next_nonce o p.from p.network; pure (fresh_nonce nonce)

  unfoldable pub choose_prices :
      TxParams o → Draft o → Action (Manager o) (Except (o.Float × o.Float))
  choose_prices p d =
      if o.is_zero d.gas_price
      then (do
        info ← gas_setting o p.network
        elim info [
          | err e ↦
              pure (
                err (join get_gas_setting_failed (wrapped (codes "couldn't get gas price info") e)))
          | ok info ↦ pure (ok (info.gas_price, info.max_priority_price))
        ])
      else pure (ok (d.gas_price, d.tip_cap))

  abbrev pub assemble : TxParams o → Draft o → ℕ → ℕ → o.Float × o.Float → o.Tx
  assemble p d nonce gas (price, tip) =
      let price' = o.plus price d.extra_gas_price in
      let tip' = o.plus tip d.extra_tip_cap in
      o.build_exact_tx (record {
        tx_type = p.tx_type;
        nonce = nonce;
        to = p.to;
        value = p.value;
        gas_limit = (gas + d.extra_gas_limit) % 2 ^ 64;
        gas_price = if o.greater tip' price' then tip' else price';
        tip_cap = tip';
        payload = p.payload;
        chain_id = p.network.chain_id;
      })

  -- The deferred cleanup: give back a nonce that was acquired here.
  abbrev pub give_back : TxParams o → ℕ × Bool → Action (Manager o) (Unit {0})
  give_back p (nonce, true) = release o p.from p.network nonce
  give_back p (nonce, false) = pure tt

  -- The rest of `BuildTx`, once the prices, the nonce and the gas limit have come back.
  abbrev pub with_prices :
      TxParams o
      → Draft o
      → ℕ
      → ℕ × Bool
      → Except (o.Float × o.Float)
      → Action (Manager o) (Except o.Tx)
  with_prices p d gas nonce (err e) = do give_back p nonce; pure (err e)
  with_prices p d gas nonce (ok prices) = pure (ok (assemble p d nonce.0 gas prices))

  abbrev pub with_nonce :
      TxParams o → Draft o → ℕ → Except (ℕ × Bool) → Action (Manager o) (Except o.Tx)
  with_nonce p d gas (err e) = pure (err e)
  with_nonce p d gas (ok nonce) = do prices ← choose_prices p d; with_prices p d gas nonce prices

  abbrev pub with_gas : TxParams o → Draft o → Except ℕ → Action (Manager o) (Except o.Tx)
  with_gas p d (err e) = pure (err e)
  with_gas p d (ok gas) = do nonce ← choose_nonce p d.nonce; with_nonce p d gas nonce

  unfoldable pub build_tx : TxParams o → Draft o → Action (Manager o) (Except o.Tx)
  build_tx p d = do gas ← choose_gas_limit p d; with_gas p d gas

  abbrev with_account : o.Tx → Network → Except ℕ → Action (Manager o) (Except (ℕ × o.Tx))
  with_account tx net (err e) =
      pure (err (plain (codes "the wallet to sign txs is not registered in context manager")))
  with_account tx net (ok account) = outside o (o.sign account tx net.chain_id)

  -- `SignTx`: unlock the account if it is not registered.
  unfoldable pub sign_tx : ℕ → o.Tx → Network → Action (Manager o) (Except (ℕ × o.Tx))
  sign_tx wallet tx net = do
    known ← account o wallet
    found ← elim known [ some a ↦ pure (ok a) | none ↦ unlock_account o wallet ]
    with_account tx net found

  abbrev broadcasted_tx : ℕ → Network → o.Tx → ℤ → ℤ → PendingTx o.Tx o.Receipt
  broadcasted_tx wallet net tx created updated = record {
    hash = o.hash_of tx;
    wallet = wallet;
    chain_id = net.chain_id;
    nonce = o.nonce_of tx;
    status = broadcasted;
    transaction = some tx;
    receipt = none;
    created_at = created;
    updated_at = updated;
  }

  abbrev persist_tx_broadcast : ℕ → Network → o.Tx → Action (Manager o) (Unit {0})
  persist_tx_broadcast wallet net tx m =
      if m.has_tx_store
      then (do
        created ← outside o o.now
        updated ← outside o o.now
        modify o λ m'. record m' {
          world = o.save_tx (broadcasted_tx wallet net tx created updated) m'.world;
        })
          m
      else (tt, m)

  unfoldable pub register_broadcasted_tx : o.Tx → Network → Action (Manager o) (Option Error)
  register_broadcasted_tx tx net = elim (o.signer_of tx net.chain_id) [
    | err e ↦ pure (some (wrapped (codes "couldn't derive sender from the tx data") e))
    | ok wallet ↦ do
      set_pending o wallet net (o.nonce_of tx)
      modify o (set_tx o wallet net tx)
      persist_tx_broadcast wallet net tx
      pure none
  ]

  abbrev pub after_register : Option BroadcastError → Option Error → Bool × Option BroadcastError
  after_register e (some failed) = (false, some (other (codes "couldn't register broadcasted tx")))
  after_register e none = (true, new_broadcast_error e)

  abbrev pub after_broadcast :
      o.Tx
      → Network
      → Bool × Option BroadcastError
      → Action (Manager o) (Bool × Option BroadcastError)
  after_broadcast tx net (false, e) = pure (false, new_broadcast_error e)
  after_broadcast tx net (true, e) = do
    failed ← register_broadcasted_tx tx net
    pure (after_register e failed)

  abbrev pub broadcast_by :
      o.Tx → Network → Option Error → Action (Manager o) (Bool × Option BroadcastError)
  broadcast_by tx net (some e) = pure (false, some (other (codes "couldn't get broadcaster")))
  broadcast_by tx net none = do
    answer ← outside o (o.broadcast net tx)
    after_broadcast tx net answer

  unfoldable pub broadcast_on : o.Tx → Network → Action (Manager o) (Bool × Option BroadcastError)
  broadcast_on tx net = do failed ← broadcaster o net; broadcast_by tx net failed

  -- `BroadcastTx`: whether it was broadcast, and the error.
  unfoldable pub broadcast_tx : o.Tx → Action (Manager o) (Bool × Option BroadcastError)
  broadcast_tx tx = elim (o.resolve_network (o.chain_of tx)) [
    | err e ↦ pure (false, some (other (codes "tx is encoded with unsupported ChainID")))
    | ok net ↦ broadcast_on tx net
  ]
