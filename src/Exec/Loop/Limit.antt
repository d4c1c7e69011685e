-- ===== src/Exec/Loop/Limit.antt =====
-- How many attempts a run counts, and the prices in its retry state: the handlers of manager_tx.go.
pub mod Stages
pub mod Runs
use walletarmy.Common.{
  false, ℕ, ◌≡◌, refl, sym, subst, map, Option, none, some, List, [], ◌∷◌, ℤ, pos, ◌+ℤ◌, ◌≤ℤ◌,
  arith,
}
use walletarmy.Common.Text.{Text}
use walletarmy.Broadcast.{
  BroadcastError, insufficient_fund, nonce_gap, nonce_is_low, replacement_underpriced,
  gas_limit_is_too_low, tx_is_known, sync_broadcast_timeout, other,
}
use walletarmy.Outside.{
  Outside, Error, Except, ok, err, TxInfo, TxStatus, mined, reverted, lost, slow, cancelled,
  pending, done, unset, unknown,
}
use walletarmy.Manager.{Action, outside}
use walletarmy.Manager.Network.{reader}
use walletarmy.Exec.{
  LoopAction, continue_to_monitor, retry, return, Config, Machine, TxRetryState, over,
  increment_retry_and_check, bump_gas_for_slow_tx,
}
use walletarmy.Exec.Handlers.Statuses.{
  Outcome, returns, panics, Statuses, ask_statuses, get_tx_statuses, find_completed, best_pending,
  handle_mined_tx,
}
use walletarmy.Exec.Handlers.{
  count_or_resync, low_completed, low_statuses, gas_best, gas_completed, gas_statuses, gas_tracked,
  handle_replacement_underpriced, handle_nonce_gap, handle_nonce_is_low, retry_same_nonce,
  handle_broadcast_error, gas_estimation_retry, handle_gas_estimation_failure, handle_lost,
  handle_slow, by_status, handle_transaction_status,
}

-- The count that a result may leave: one more than the limit if the loop returns with it.
abbrev pub allowance : LoopAction → ℤ → ℤ
allowance return limit = limit +ℤ pos 1
allowance _ limit = limit

module _ (o : Outside) (cfg : Config o) where
  -- The prices in the retry state are within the caps. They are not yet those of a transaction: BuildTx
  -- adds the extra prices, and asks the nodes where the price is 0.
  abbrev pub IsCapped : TxRetryState o → Type 0
  IsCapped st =
      (over o cfg.gas.max_gas_price st.gas_price ≡ false)
      × (over o cfg.gas.max_tip_cap st.tip_cap ≡ false)

  abbrev pub Within : ℤ → TxRetryState o → Type 0
  Within limit st = (pos st.attempt_count ≤ℤ limit) × IsCapped st

  abbrev pub IsLimited : Machine o → Type 0
  IsLimited x = Within cfg.retry.max_attempts x.state

  abbrev pub LimitedOutcome : Outcome o → Machine o → Type 0
  LimitedOutcome (returns r) x = Within (allowance r.action cfg.retry.max_attempts) x.state
  LimitedOutcome panics x = IsLimited x

  abbrev pub Limits : Action (Machine o) (Outcome o) → Type 0
  Limits act = (x : Machine o) → IsLimited x → LimitedOutcome (act x).0 (act x).1

  pub mined-Limits : (tx : o.Tx) (info : TxInfo o.Receipt) → Limits (handle_mined_tx o cfg tx info)
  unfolding handle_mined_tx
  mined-Limits tx info x h = ground arith

  replacement-Limits : (tx : o.Tx) → Limits (handle_replacement_underpriced o cfg tx)
  unfolding handle_replacement_underpriced bump_gas_for_slow_tx
  replacement-Limits tx x h = ground arith

  retry-Limits : (msg : Text) (tx : o.Tx) → Limits (retry_same_nonce o cfg msg tx)
  unfolding retry_same_nonce count_or_resync increment_retry_and_check
  retry-Limits msg tx x h = ground arith

  lost-Limits : (tx : o.Tx) → Limits (handle_lost o cfg tx)
  unfolding handle_lost bump_gas_for_slow_tx
  lost-Limits tx x h = ground arith

  slow-Limits : (tx : o.Tx) → Limits (handle_slow o cfg tx)
  unfolding handle_slow bump_gas_for_slow_tx
  slow-Limits tx x h = ground arith

  gas_retry-Limits : (e : Error) → Limits (gas_estimation_retry o cfg e)
  unfolding gas_estimation_retry
  gas_retry-Limits e x h = ground arith

  -- The questions to the nodes change no state of the run.
  ask-state : (hs : List ℕ) (x : Machine o) → (ask_statuses o cfg hs x).1.state ≡ x.state
  unfolding ask_statuses
  ask-state [] x = refl
  ask-state (h ∷ hs) x = ask-state hs _

  statuses-state : (x : Machine o) → (get_tx_statuses o cfg x).1.state ≡ x.state
  unfolding get_tx_statuses
  statuses-state x = ground (
    arith,
    ask-state
        (o.order (map (λ e. e.0) x.state.old_txs) (reader o cfg.params.network x.manager).1.world).0
        (record x {
          manager =
              (outside o (o.order (map (λ e. e.0) x.state.old_txs))
                (reader o cfg.params.network x.manager).1).1;
        }),
  )

  statuses-IsLimited : (x : Machine o) → IsLimited x → IsLimited (get_tx_statuses o cfg x).1
  statuses-IsLimited x h = subst (Within cfg.retry.max_attempts) (sym (statuses-state x)) h

  low_completed-Limits : (c : Option (o.Tx × TxInfo o.Receipt)) → Limits (low_completed o cfg c)
  unfolding count_or_resync increment_retry_and_check
  low_completed-Limits (some (tx, info)) x h = mined-Limits tx info x h
  low_completed-Limits none x h = ground arith

  low_statuses-Limits : (statuses : Except (Statuses o)) → Limits (low_statuses o cfg statuses)
  unfolding find_completed increment_retry_and_check
  low_statuses-Limits (err e) x h = ground arith
  low_statuses-Limits (ok infos) x h =
      low_completed-Limits (find_completed o infos x).0 (find_completed o infos x).1 h

  low-Limits : Limits (handle_nonce_is_low o cfg)
  unfolding handle_nonce_is_low
  low-Limits x h =
      low_statuses-Limits (get_tx_statuses o cfg x).0 (get_tx_statuses o cfg x).1
        (statuses-IsLimited x h)

  gas_best-Limits : (e : Error) (best : Option o.Tx) → Limits (gas_best o cfg e best)
  gas_best-Limits e (some tx) x h = h
  gas_best-Limits e none x h = gas_retry-Limits e x h

  gas_completed-Limits :
      (e : Error) (infos : Statuses o) (c : Option (o.Tx × TxInfo o.Receipt))
      → Limits (gas_completed o cfg e infos c)
  unfolding best_pending
  gas_completed-Limits e infos (some (tx, info)) x h = mined-Limits tx info x h
  gas_completed-Limits e infos none x h =
      gas_best-Limits e (best_pending o infos x).0 (best_pending o infos x).1 h

  gas_statuses-Limits :
      (e : Error) (statuses : Except (Statuses o)) → Limits (gas_statuses o cfg e statuses)
  unfolding find_completed
  gas_statuses-Limits e (err s) x h = gas_retry-Limits e x h
  gas_statuses-Limits e (ok infos) x h =
      gas_completed-Limits e infos (find_completed o infos x).0 (find_completed o infos x).1 h

  gas_tracked-Limits : (e : Error) (txs : List (ℕ × o.Tx)) → Limits (gas_tracked o cfg e txs)
  gas_tracked-Limits e [] x h = gas_retry-Limits e x h
  gas_tracked-Limits e (t ∷ ts) x h =
      gas_statuses-Limits e (get_tx_statuses o cfg x).0 (get_tx_statuses o cfg x).1
        (statuses-IsLimited x h)

  pub gas_failure-Limits : (e : Error) → Limits (handle_gas_estimation_failure o cfg e)
  unfolding handle_gas_estimation_failure
  gas_failure-Limits e x h = gas_tracked-Limits e x.state.old_txs x h

  gap-Limits : Limits (handle_nonce_gap o cfg)
  unfolding handle_nonce_gap
  gap-Limits x h = h

  pub broadcast_error-Limits :
      (e : Option BroadcastError) (tx : o.Tx) → Limits (handle_broadcast_error o cfg e tx)
  unfolding handle_broadcast_error count_or_resync increment_retry_and_check
  broadcast_error-Limits none tx x h = retry-Limits _ tx x h
  broadcast_error-Limits (some insufficient_fund) tx x h = retry-Limits _ tx x h
  broadcast_error-Limits (some gas_limit_is_too_low) tx x h = retry-Limits _ tx x h
  broadcast_error-Limits (some (other msg)) tx x h = retry-Limits _ tx x h
  broadcast_error-Limits (some tx_is_known) tx x h = h
  broadcast_error-Limits (some sync_broadcast_timeout) tx x h = ground arith
  broadcast_error-Limits (some nonce_gap) tx x h = gap-Limits x h
  broadcast_error-Limits (some nonce_is_low) tx x h = low-Limits x h
  broadcast_error-Limits (some replacement_underpriced) tx x h = replacement-Limits tx x h

  by_status-Limits :
      (status : TxStatus) (info : TxInfo o.Receipt) (tx : o.Tx)
      → Limits (by_status o cfg status info tx)
  unfolding increment_retry_and_check
  by_status-Limits mined info tx x h = mined-Limits tx info x h
  by_status-Limits reverted info tx x h = mined-Limits tx info x h
  by_status-Limits lost info tx x h = lost-Limits tx x h
  by_status-Limits slow info tx x h = slow-Limits tx x h
  by_status-Limits cancelled info tx x h = ground arith
  by_status-Limits pending info tx x h = ground arith
  by_status-Limits done info tx x h = ground arith
  by_status-Limits unset info tx x h = ground arith
  by_status-Limits (unknown t) info tx x h = ground arith

  pub status-Limits :
      (info : TxInfo o.Receipt) (tx : o.Tx) → Limits (handle_transaction_status o cfg info tx)
  unfolding handle_transaction_status
  status-Limits info tx x h = by_status-Limits info.status info tx x h
