-- ===== src/Exec/Handlers.antt =====
-- manager_tx.go: what follows a mined transaction, a failed gas estimation, a failed broadcast and
-- a status of the monitor. `panics` is the dereference of a nil receipt.
pub mod Statuses
pub mod Ownership
use Statuses.{
  Outcome, Statuses as TxStatuses, returns, panics, handle_mined_tx, get_tx_statuses,
  find_completed, best_pending,
}
use walletarmy.Common.{
  ℕ, suc, Bool, true, false, Option, none, some, List, [], ◌∷◌, pos, ltb, ltbℤ, ◌==◌, if◌then◌else◌,
}
use walletarmy.Common.Text.{Text, codes}
use walletarmy.Broadcast.{
  BroadcastError, insufficient_fund, nonce_gap, nonce_is_low, replacement_underpriced,
  gas_limit_is_too_low, tx_is_known, sync_broadcast_timeout, other,
}
use walletarmy.Outside.{
  TxInfo, Outside, Error, Except, ok, err, join, plain, gas_estimation, out_of_retries,
  gas_price_limit_reached, TxStatus, mined, reverted, lost, slow, cancelled, pending, done, unset,
  unknown,
}
use walletarmy.Manager.{Manager, Action, pure, ◌>>=◌, ◌>>◌, outside, modify}
use walletarmy.Manager.Nonces.{
  get_nonce_status, resync_nonce_from_chain, NonceStatus, blocking, consumed,
}
use walletarmy.Exec.{
  LoopAction, continue_to_monitor, retry, return, TxExecutionResult, TxRetryState, Config, Machine,
  lift, update, result_return, result_retry, result_give_up, lookup, increment_retry_and_check,
  bump_gas_for_slow_tx,
}

module _ (o : Outside) (cfg : Config o) where
  abbrev resync : Action (Machine o) (Unit {0})
  resync = do lift o (resync_nonce_from_chain o cfg.params.from cfg.params.network); pure tt

  abbrev set_nonce : Option ℕ → Action (Machine o) (Unit {0})
  set_nonce n = update o λ st. record st { nonce = n }

  -- `IncrementRetryAndCheck`, and a retry if attempts are left; a resync if not.
  unfoldable pub count_or_resync :
      Text → Action (Machine o) (Outcome o) → Action (Machine o) (Outcome o)
  count_or_resync msg next = do
    out ← increment_retry_and_check o cfg msg
    elim out [ some r ↦ (do resync; pure (returns r)) | none ↦ next ]

  abbrev pub count_at_nonce : ℕ → List (ℕ × o.Tx) → ℕ
  count_at_nonce n [] = 0
  count_at_nonce n ((h, tx) ∷ txs) =
      let rest = count_at_nonce n txs in if o.nonce_of tx == n then suc rest else rest

  unfoldable pub handle_replacement_underpriced : o.Tx → Action (Machine o) (Outcome o)
  handle_replacement_underpriced tx = do
    own ← λ x. (ltb 1 (count_at_nonce (o.nonce_of tx) x.state.old_txs), x)
    (if own
        then (do
          set_nonce (some (o.nonce_of tx))
          bumped ← bump_gas_for_slow_tx o cfg tx
          pure (
              returns (
                if bumped
                then result_retry o
                else result_give_up o tx (
                    join gas_price_limit_reached
                      (plain (codes "replacement underpriced and gas limits reached"))))))
        else (do set_nonce none; pure (returns (result_retry o))))

  unfoldable pub handle_nonce_gap : Action (Machine o) (Outcome o)
  handle_nonce_gap = do resync; set_nonce none; pure (returns (result_retry o))

  abbrev pub low_completed : Option (o.Tx × TxInfo o.Receipt) → Action (Machine o) (Outcome o)
  low_completed (some (tx, info)) = handle_mined_tx o cfg tx info
  low_completed none =
      count_or_resync (codes "nonce is low and no pending transactions")
        (do resync; set_nonce none; pure (returns (result_retry o)))

  abbrev pub low_statuses : Except (TxStatuses o) → Action (Machine o) (Outcome o)
  low_statuses (err e) = do
    out ← increment_retry_and_check o cfg (codes "nonce is low and status check failed")
    pure (returns (elim out [ some r ↦ r | none ↦ result_retry o ]))
  low_statuses (ok infos) = do completed ← find_completed o infos; low_completed completed

  unfoldable pub handle_nonce_is_low : Action (Machine o) (Outcome o)
  handle_nonce_is_low = do statuses ← get_tx_statuses o cfg; low_statuses statuses

  -- The errors that count as attempts, and keep the nonce.
  unfoldable pub retry_same_nonce : Text → o.Tx → Action (Machine o) (Outcome o)
  retry_same_nonce msg tx =
      count_or_resync msg (do set_nonce (some (o.nonce_of tx)); pure (returns (result_retry o)))

  unfoldable pub handle_broadcast_error :
      Option BroadcastError → o.Tx → Action (Machine o) (Outcome o)
  handle_broadcast_error none tx = retry_same_nonce (codes "broadcast error: nil") tx
  handle_broadcast_error (some replacement_underpriced) tx = handle_replacement_underpriced tx
  handle_broadcast_error (some nonce_gap) tx = handle_nonce_gap
  handle_broadcast_error (some nonce_is_low) tx = handle_nonce_is_low
  handle_broadcast_error (some sync_broadcast_timeout) tx = do
    set_nonce (some (o.nonce_of tx))
    count_or_resync (codes "sync broadcast timed out, tx not found on chain")
        (pure (returns (result_retry o)))
  handle_broadcast_error (some tx_is_known) tx = do
    set_nonce (some (o.nonce_of tx))
    pure (returns (result_retry o))
  handle_broadcast_error (some insufficient_fund) tx =
      retry_same_nonce (codes "insufficient fund") tx
  handle_broadcast_error (some gas_limit_is_too_low) tx =
      retry_same_nonce (codes "gas limit too low") tx
  handle_broadcast_error (some (other msg)) tx = retry_same_nonce msg tx

  -- The end of `handleGasEstimationFailure`: the hook, and the count of attempts.
  abbrev after_hook : Error → Except (Option ℕ) → Action (Machine o) (Outcome o)
  after_hook e (err hook) = pure (returns (result_return o (gas_estimation hook)))
  after_hook e (ok limit) = do
    update o λ st. record st {
      gas_limit = elim limit [ none ↦ st.gas_limit | some g ↦ g ];
      attempt_count = suc st.attempt_count;
    }
    λ x. (
      returns (
          if ltbℤ cfg.retry.max_attempts (pos x.state.attempt_count)
          then result_return o (gas_estimation (join out_of_retries e))
          else result_retry o),
      x,
    )

  unfoldable pub gas_estimation_retry : Error → Action (Machine o) (Outcome o)
  gas_estimation_retry e = elim cfg.hooks.gas_estimation_failed [
    | none ↦ after_hook e (ok none)
    | some hook ↦ do answer ← lift o (outside o (hook e)); after_hook e answer
  ]

  abbrev pub gas_best : Error → Option o.Tx → Action (Machine o) (Outcome o)
  gas_best e (some tx) = pure (
      returns (record {
        transaction = some tx;
        receipt = none;
        action = continue_to_monitor;
        error = none;
      }))
  gas_best e none = gas_estimation_retry e

  abbrev pub gas_completed :
      Error → TxStatuses o → Option (o.Tx × TxInfo o.Receipt) → Action (Machine o) (Outcome o)
  gas_completed e infos (some (tx, info)) = handle_mined_tx o cfg tx info
  gas_completed e infos none = do best ← best_pending o infos; gas_best e best

  abbrev pub gas_statuses : Error → Except (TxStatuses o) → Action (Machine o) (Outcome o)
  gas_statuses e (err s) = gas_estimation_retry e
  gas_statuses e (ok infos) = do completed ← find_completed o infos; gas_completed e infos completed

  -- `len(State.OldTxs) > 0`
  abbrev pub gas_tracked : Error → List (ℕ × o.Tx) → Action (Machine o) (Outcome o)
  gas_tracked e [] = gas_estimation_retry e
  gas_tracked e (t ∷ ts) = do statuses ← get_tx_statuses o cfg; gas_statuses e statuses

  unfoldable pub handle_gas_estimation_failure : Error → Action (Machine o) (Outcome o)
  handle_gas_estimation_failure e x = gas_tracked e x.state.old_txs x

  abbrev bump_or_stop : o.Tx → Text → Action (Machine o) (Outcome o)
  bump_or_stop tx msg = do
    bumped ← bump_gas_for_slow_tx o cfg tx
    pure (
        returns (
          if bumped
          then result_retry o
          else result_give_up o tx (join gas_price_limit_reached (plain msg))))

  abbrev nonce_consumed : o.Tx → TxExecutionResult o
  nonce_consumed tx =
      result_give_up o tx (plain (codes "nonce already consumed by another transaction"))

  unfoldable pub handle_lost : o.Tx → Action (Machine o) (Outcome o)
  handle_lost tx = do
    status ← lift o (get_nonce_status o (o.nonce_of tx) cfg.params.from cfg.params.network)
    elim status [
      | consumed ↦ pure (returns (nonce_consumed tx))
      | _ ↦ bump_or_stop tx (codes "transaction lost")
    ]

  unfoldable pub handle_slow : o.Tx → Action (Machine o) (Outcome o)
  handle_slow tx = do
    status ← lift o (get_nonce_status o (o.nonce_of tx) cfg.params.from cfg.params.network)
    elim status [
      | consumed ↦ pure (returns (nonce_consumed tx))
      | blocking ↦ bump_or_stop tx (codes "gas limits reached")
      | _ ↦ do update o λ st. record st { resume_with = some tx }; pure (returns (result_retry o))
    ]

  abbrev pub by_status : TxStatus → TxInfo o.Receipt → o.Tx → Action (Machine o) (Outcome o)
  by_status mined info tx = handle_mined_tx o cfg tx info
  by_status reverted info tx = handle_mined_tx o cfg tx info
  by_status lost info tx = handle_lost tx
  by_status slow info tx = handle_slow tx
  by_status _ info tx = do
    out ← increment_retry_and_check o cfg (codes "unknown monitor status")
    pure (returns (elim out [ some r ↦ r | none ↦ result_retry o ]))

  unfoldable pub handle_transaction_status :
      TxInfo o.Receipt → o.Tx → Action (Machine o) (Outcome o)
  handle_transaction_status info tx = by_status info.status info tx
