-- ===== src/Exec/Loop/Tracked.antt =====
-- The transactions that were signed are never forgotten within a run: manager_tx.go.
use walletarmy.Common.{ℕ, ◌≡◌, refl, ◌∙◌, Option, none, some, List, [], ◌∷◌, map, arith}
use walletarmy.Common.Text.{Text}
use walletarmy.Broadcast.{
  BroadcastError, insufficient_fund, nonce_gap, nonce_is_low, replacement_underpriced,
  gas_limit_is_too_low, tx_is_known, sync_broadcast_timeout, other,
}
use walletarmy.Outside.{
  Outside, Error, Except, ok, err, TxInfo, TxStatus, mined, reverted, lost, slow, cancelled,
  pending, done, unset, unknown,
}
use walletarmy.Manager.{Action, outside}
use walletarmy.Manager.Network.{reader}
use walletarmy.Exec.{Config, Machine, increment_retry_and_check, bump_gas_for_slow_tx}
use walletarmy.Exec.Handlers.Statuses.{
  Statuses, ask_statuses, get_tx_statuses, find_completed, best_pending, handle_mined_tx,
}
use walletarmy.Exec.Handlers.{
  count_or_resync, low_completed, low_statuses, gas_best, gas_completed, gas_statuses, gas_tracked,
  handle_replacement_underpriced, handle_nonce_gap, handle_nonce_is_low, retry_same_nonce,
  handle_broadcast_error, gas_estimation_retry, handle_gas_estimation_failure, handle_lost,
  handle_slow, by_status, handle_transaction_status,
}

abbrev pub KeepsTxs : (o : Outside) {A : Type 0} → Action (Machine o) A → Type 0
KeepsTxs o act = (x : Machine o) → (act x).1.state.old_txs ≡ x.state.old_txs

module _ (o : Outside) (cfg : Config o) where
  pub mined-KeepsTxs :
      (tx : o.Tx) (info : TxInfo o.Receipt) → KeepsTxs o (handle_mined_tx o cfg tx info)
  unfolding handle_mined_tx
  mined-KeepsTxs tx info x = ground arith

  ask-KeepsTxs : (hs : List ℕ) → KeepsTxs o (ask_statuses o cfg hs)
  unfolding ask_statuses
  ask-KeepsTxs [] x = refl
  ask-KeepsTxs (h ∷ hs) x = ask-KeepsTxs hs _

  statuses-KeepsTxs : KeepsTxs o (get_tx_statuses o cfg)
  unfolding get_tx_statuses
  statuses-KeepsTxs x = ground (
    arith,
    ask-KeepsTxs
        (o.order (map (λ e. e.0) x.state.old_txs) (reader o cfg.params.network x.manager).1.world).0
        (record x {
          manager =
              (outside o (o.order (map (λ e. e.0) x.state.old_txs))
                (reader o cfg.params.network x.manager).1).1;
        }),
  )

  find-KeepsTxs : (infos : Statuses o) → KeepsTxs o (find_completed o infos)
  unfolding find_completed
  find-KeepsTxs infos x = refl

  best-KeepsTxs : (infos : Statuses o) → KeepsTxs o (best_pending o infos)
  unfolding best_pending
  best-KeepsTxs infos x = refl

  replacement-KeepsTxs : (tx : o.Tx) → KeepsTxs o (handle_replacement_underpriced o cfg tx)
  unfolding handle_replacement_underpriced bump_gas_for_slow_tx
  replacement-KeepsTxs tx x = ground arith

  retry-KeepsTxs : (msg : Text) (tx : o.Tx) → KeepsTxs o (retry_same_nonce o cfg msg tx)
  unfolding retry_same_nonce count_or_resync increment_retry_and_check
  retry-KeepsTxs msg tx x = ground arith

  lost-KeepsTxs : (tx : o.Tx) → KeepsTxs o (handle_lost o cfg tx)
  unfolding handle_lost bump_gas_for_slow_tx
  lost-KeepsTxs tx x = ground arith

  slow-KeepsTxs : (tx : o.Tx) → KeepsTxs o (handle_slow o cfg tx)
  unfolding handle_slow bump_gas_for_slow_tx
  slow-KeepsTxs tx x = ground arith

  pub gas_retry-KeepsTxs : (e : Error) → KeepsTxs o (gas_estimation_retry o cfg e)
  unfolding gas_estimation_retry
  gas_retry-KeepsTxs e x = ground arith

  low_completed-KeepsTxs :
      (c : Option (o.Tx × TxInfo o.Receipt)) → KeepsTxs o (low_completed o cfg c)
  unfolding count_or_resync increment_retry_and_check
  low_completed-KeepsTxs (some (tx, info)) x = mined-KeepsTxs tx info x
  low_completed-KeepsTxs none x = ground arith

  low_statuses-KeepsTxs :
      (statuses : Except (Statuses o)) → KeepsTxs o (low_statuses o cfg statuses)
  unfolding find_completed increment_retry_and_check
  low_statuses-KeepsTxs (err e) x = refl
  low_statuses-KeepsTxs (ok infos) x =
      low_completed-KeepsTxs (find_completed o infos x).0 (find_completed o infos x).1

  low-KeepsTxs : KeepsTxs o (handle_nonce_is_low o cfg)
  unfolding handle_nonce_is_low
  low-KeepsTxs x =
      low_statuses-KeepsTxs (get_tx_statuses o cfg x).0 (get_tx_statuses o cfg x).1
      ∙ statuses-KeepsTxs x

  gas_best-KeepsTxs : (e : Error) (best : Option o.Tx) → KeepsTxs o (gas_best o cfg e best)
  gas_best-KeepsTxs e (some tx) x = refl
  gas_best-KeepsTxs e none x = gas_retry-KeepsTxs e x

  gas_completed-KeepsTxs :
      (e : Error) (infos : Statuses o) (c : Option (o.Tx × TxInfo o.Receipt))
      → KeepsTxs o (gas_completed o cfg e infos c)
  unfolding best_pending
  gas_completed-KeepsTxs e infos (some (tx, info)) x = mined-KeepsTxs tx info x
  gas_completed-KeepsTxs e infos none x =
      gas_best-KeepsTxs e (best_pending o infos x).0 (best_pending o infos x).1

  gas_statuses-KeepsTxs :
      (e : Error) (statuses : Except (Statuses o)) → KeepsTxs o (gas_statuses o cfg e statuses)
  unfolding find_completed
  gas_statuses-KeepsTxs e (err s) x = gas_retry-KeepsTxs e x
  gas_statuses-KeepsTxs e (ok infos) x =
      gas_completed-KeepsTxs e infos (find_completed o infos x).0 (find_completed o infos x).1

  gas_tracked-KeepsTxs : (e : Error) (txs : List (ℕ × o.Tx)) → KeepsTxs o (gas_tracked o cfg e txs)
  gas_tracked-KeepsTxs e [] x = gas_retry-KeepsTxs e x
  gas_tracked-KeepsTxs e (t ∷ ts) x =
      gas_statuses-KeepsTxs e (get_tx_statuses o cfg x).0 (get_tx_statuses o cfg x).1
      ∙ statuses-KeepsTxs x

  pub gas_failure-KeepsTxs : (e : Error) → KeepsTxs o (handle_gas_estimation_failure o cfg e)
  unfolding handle_gas_estimation_failure
  gas_failure-KeepsTxs e x = gas_tracked-KeepsTxs e x.state.old_txs x

  gap-KeepsTxs : KeepsTxs o (handle_nonce_gap o cfg)
  unfolding handle_nonce_gap
  gap-KeepsTxs x = refl

  pub broadcast_error-KeepsTxs :
      (e : Option BroadcastError) (tx : o.Tx) → KeepsTxs o (handle_broadcast_error o cfg e tx)
  unfolding handle_broadcast_error count_or_resync increment_retry_and_check
  broadcast_error-KeepsTxs none tx x = retry-KeepsTxs _ tx x
  broadcast_error-KeepsTxs (some insufficient_fund) tx x = retry-KeepsTxs _ tx x
  broadcast_error-KeepsTxs (some gas_limit_is_too_low) tx x = retry-KeepsTxs _ tx x
  broadcast_error-KeepsTxs (some (other msg)) tx x = retry-KeepsTxs _ tx x
  broadcast_error-KeepsTxs (some tx_is_known) tx x = refl
  broadcast_error-KeepsTxs (some sync_broadcast_timeout) tx x = ground arith
  broadcast_error-KeepsTxs (some nonce_gap) tx x = gap-KeepsTxs x
  broadcast_error-KeepsTxs (some nonce_is_low) tx x = low-KeepsTxs x
  broadcast_error-KeepsTxs (some replacement_underpriced) tx x = replacement-KeepsTxs tx x

  by_status-KeepsTxs :
      (status : TxStatus) (info : TxInfo o.Receipt) (tx : o.Tx)
      → KeepsTxs o (by_status o cfg status info tx)
  unfolding increment_retry_and_check
  by_status-KeepsTxs mined info tx x = mined-KeepsTxs tx info x
  by_status-KeepsTxs reverted info tx x = mined-KeepsTxs tx info x
  by_status-KeepsTxs lost info tx x = lost-KeepsTxs tx x
  by_status-KeepsTxs slow info tx x = slow-KeepsTxs tx x
  by_status-KeepsTxs cancelled info tx x = refl
  by_status-KeepsTxs pending info tx x = refl
  by_status-KeepsTxs done info tx x = refl
  by_status-KeepsTxs unset info tx x = refl
  by_status-KeepsTxs (unknown t) info tx x = refl

  pub status-KeepsTxs :
      (info : TxInfo o.Receipt) (tx : o.Tx) → KeepsTxs o (handle_transaction_status o cfg info tx)
  unfolding handle_transaction_status
  status-KeepsTxs info tx x = by_status-KeepsTxs info.status info tx x
