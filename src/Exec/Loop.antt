-- ===== src/Exec/Loop.antt =====
-- manager_tx.go: `executeTransactionLoop`. One round is a step; the deferred release runs at the end.
pub mod Exit
pub mod Tracked
pub mod Stages
pub mod Leak
pub mod Limit
use walletarmy.Common.{
  ℕ, zero, suc, Bool, true, false, not, ◌&&◌, ltb, Option, none, some, List, [], ◌∷◌, if◌then◌else◌,
}
use walletarmy.Outside.{Outside, Error, TxInfo, TxStatus, cancelled}
use walletarmy.Manager.{Manager, Action, pure, ◌>>=◌, ◌>>◌, outside}
use walletarmy.Manager.Nonces.{release, resync_nonce_from_chain}
use walletarmy.Exec.{
  LoopAction, continue_to_monitor, retry, return, TxExecutionResult, TxRetryState, Config, Machine,
  lift, update,
}
use walletarmy.Exec.Monitor.{monitor_tx}
use walletarmy.Exec.Handlers.Statuses.{Outcome, returns, panics}
use walletarmy.Exec.Handlers.{handle_transaction_status}
use walletarmy.Exec.Submit.{execute_attempt}

-- What the loop returns: transaction, receipt and error.
pub record Final (o : Outside) : Type 0 where
  pub transaction : Option o.Tx
  pub receipt : Option o.Receipt
  pub error : Option Error

-- A round goes on, or returns, or panics, or waits for ever on a monitor that sends nothing.
pub data Round (o : Outside) : Type 0 where
  again : Round o
  ends : Final o → Round o
  crashes : Round o
  hangs : Round o

module _ (o : Outside) (cfg : Config o) where
  abbrev pub fails : Error → Round o
  fails e = ends (record { transaction = none; receipt = none; error = some e })

  abbrev pub by_result : TxExecutionResult o → Round o
  by_result r = elim r.action [
    | return ↦ ends (record { transaction = r.transaction; receipt = r.receipt; error = r.error })
    | _ ↦ again
  ]

  abbrev pub by_outcome : Outcome o → Round o
  by_outcome (returns r) = by_result r
  by_outcome panics = crashes

  abbrev pub is_cancelled : TxStatus → Bool
  is_cancelled cancelled = true
  is_cancelled _ = false

  -- `ctx.Err()` is asked for again after the monitor has reported the end of the context.
  abbrev pub by_info : o.Tx → Option (TxInfo o.Receipt) → Action (Machine o) (Round o)
  by_info tx none = pure hangs
  by_info tx (some info) =
      if is_cancelled info.status
      then (do
        e ← lift o (outside o o.context_error)
        pure (ends (record { transaction = none; receipt = none; error = e })))
      else do out ← handle_transaction_status o cfg info tx; pure (by_outcome out)

  -- The monitor that `getTxMonitor` answers is called at once; it is nil where the network was not initialised.
  abbrev pub by_monitor : o.Tx → Bool → Action (Machine o) (Round o)
  by_monitor tx false = pure crashes
  by_monitor tx true = do
    info ← lift o (monitor_tx o cfg.params.network (o.hash_of tx) cfg.retry.tx_check_interval)
    by_info tx info

  -- The part of the loop under `result.Transaction != nil && result.Receipt == nil`.
  unfoldable pub watch_tx : o.Tx → Action (Machine o) (Round o)
  watch_tx tx x = by_monitor tx (x.manager.tx_monitors cfg.params.network.chain_id) x

  abbrev pub watch_result : TxExecutionResult o → Action (Machine o) (Round o)
  watch_result r = elim r.receipt [
    | some receipt ↦ pure again
    | none ↦ elim r.transaction [ none ↦ pure again | some tx ↦ watch_tx tx ]
  ]

  abbrev pub dispatch : Outcome o → Action (Machine o) (Round o)
  dispatch panics = pure crashes
  dispatch (returns r) = elim r.action [
    | return ↦ pure (by_result r)
    | retry ↦ pure again
    | continue_to_monitor ↦ watch_result r
  ]

  abbrev pub attempt_with : Option o.Tx → Action (Machine o) (Outcome o)
  attempt_with none x = execute_attempt o cfg x
  attempt_with (some tx) x = (
    returns (record {
      transaction = some tx;
      receipt = none;
      action = continue_to_monitor;
      error = none;
    }),
    record x { state = record x.state { resume_with = none } },
  )

  -- The first iteration of a resumed transaction goes straight to the monitor.
  unfoldable pub attempt_or_resume : Action (Machine o) (Outcome o)
  attempt_or_resume x = attempt_with x.state.resume_with x

  abbrev no_resume : Option o.Tx → Bool
  no_resume none = true
  no_resume (some tx) = false

  -- The sleep after an attempt that was counted, which the end of the context cuts short.
  unfoldable pub pause : Action (Machine o) (Option Error)
  pause = do
    wait ← λ x. (ltb 0 x.state.attempt_count && no_resume x.state.resume_with, x)
    (if wait then lift o (outside o (o.sleep cfg.retry.sleep_duration)) else pure none)

  abbrev pub unless_interrupted : Option Error → Action (Machine o) (Round o)
  unless_interrupted (some e) = pure (fails e)
  unless_interrupted none = do out ← attempt_or_resume; dispatch out

  abbrev pub unless_ended : Option Error → Action (Machine o) (Round o)
  unless_ended (some e) = pure (fails e)
  unless_ended none = do ended ← pause; unless_interrupted ended

  unfoldable pub round : Action (Machine o) (Round o)
  round = do ended ← lift o (outside o o.context_error); unless_ended ended

  -- The deferred function, at an error.
  abbrev pub clean_up_at : List (ℕ × o.Tx) → Option ℕ → Action (Machine o) (Unit {0})
  clean_up_at [] none = pure tt
  clean_up_at [] (some n) = lift o (release o cfg.params.from cfg.params.network n)
  clean_up_at (t ∷ ts) n = do
    lift o (resync_nonce_from_chain o cfg.params.from cfg.params.network)
    pure tt

  abbrev pub clean_up_after : Option Error → Action (Machine o) (Unit {0})
  clean_up_after none x = (tt, x)
  clean_up_after (some e) x = clean_up_at x.state.old_txs x.state.nonce x

  unfoldable pub clean_up : Final o → Action (Machine o) (Unit {0})
  clean_up f = clean_up_after f.error

  -- What follows a round, where `rest` is the rest of the loop.
  abbrev pub after_round : Action (Machine o) (Round o) → Round o → Action (Machine o) (Round o)
  after_round rest again x = rest x
  after_round rest (ends f) x = (ends f, (clean_up f x).1)
  after_round rest crashes x = (crashes, x)
  after_round rest hangs x = (hangs, x)

  -- The loop within a number of rounds; `again` when they are used up.
  unfoldable pub execute_loop : ℕ → Action (Machine o) (Round o)
  execute_loop zero x = (again, x)
  execute_loop (suc rounds) x = let (r, x') = round x in after_round (execute_loop rounds) r x'
