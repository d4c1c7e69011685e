-- ===== src/Exec/Loop/Limit/Stages.antt =====
-- The attempts that one attempt counts, and the prices it leaves in the retry state: manager_tx.go.
use walletarmy.Common.{◌≡◌, refl, sym, subst, Bool, true, false, Option, none, some, arith}
use walletarmy.Broadcast.{BroadcastError}
use walletarmy.Outside.{
  Outside, Error, Except, ok, err, SyncAnswer, answered, timed_out, interrupted, unset,
}
use walletarmy.Manager.{Action}
use walletarmy.Exec.{TxExecutionResult, Config, Machine, lift, increment_retry_and_check}
use walletarmy.Exec.Build.{build_tx}
use walletarmy.Exec.Handlers.Statuses.{Outcome, returns, panics, map_outcome}
use walletarmy.Exec.Attempt.{
  Stage, stop, go, simulation_hook, handle_eth_call_revert, after_call, after_reader, simulate,
  simulate_unless, build_failed, after_build, build_stage, draft, before_hook, sign_stage,
}
use walletarmy.Exec.Submit.{
  Sent, cut_off, accepted, refused, send, finish_sent, after_send, submit, submit_stage,
  sign_and_broadcast, with_built, broadcast_stage, execute_attempt, track, after_hook, send_by,
  sync_answer,
}
use walletarmy.Exec.Loop.Limit.{
  allowance, Within, IsLimited, LimitedOutcome, Limits, mined-Limits, gas_failure-Limits,
  broadcast_error-Limits,
}

module _ (o : Outside) (cfg : Config o) where
  abbrev LimitedStage : Stage o → Machine o → Type 0
  LimitedStage (stop out) x = LimitedOutcome o cfg out x
  LimitedStage (go tx) x = IsLimited o cfg x

  abbrev LimitsStage : Action (Machine o) (Stage o) → Type 0
  LimitsStage act = (x : Machine o) → IsLimited o cfg x → LimitedStage (act x).0 (act x).1

  revert-LimitsStage : (tx : o.Tx) (e : Error) → LimitsStage (handle_eth_call_revert o cfg tx e)
  unfolding handle_eth_call_revert simulation_hook increment_retry_and_check
  revert-LimitsStage tx e x h = ground arith

  after_call-LimitsStage :
      (tx : o.Tx) (r : Option (Error × Bool)) → LimitsStage (after_call o cfg tx r)
  after_call-LimitsStage tx none x h = h
  after_call-LimitsStage tx (some (e, true)) x h = revert-LimitsStage tx e x h
  after_call-LimitsStage tx (some (e, false)) x h = ground arith

  after_reader-LimitsStage : (tx : o.Tx) (e : Option Error) → LimitsStage (after_reader o cfg tx e)
  after_reader-LimitsStage tx (some e) x h = ground arith
  after_reader-LimitsStage tx none x h = after_call-LimitsStage tx _ _ h

  simulate_unless-LimitsStage :
      (skip : Bool) (tx : o.Tx) → LimitsStage (simulate_unless o cfg skip tx)
  simulate_unless-LimitsStage true tx x h = h
  simulate_unless-LimitsStage false tx x h = after_reader-LimitsStage tx _ _ h

  build_failed-LimitsStage :
      (estimate : Bool) (e : Error) → LimitsStage (build_failed o cfg estimate e)
  build_failed-LimitsStage true e x h = gas_failure-Limits o cfg e x h
  build_failed-LimitsStage false e x h = ground arith

  after_build-LimitsStage : (built : Except o.Tx) → LimitsStage (after_build o cfg built)
  unfolding simulate
  after_build-LimitsStage (ok tx) x h =
      simulate_unless-LimitsStage cfg.params.skip_simulation tx x h
  after_build-LimitsStage (err e) x h = build_failed-LimitsStage _ e x h

  build_stage-LimitsStage : LimitsStage (build_stage o cfg)
  unfolding build_stage
  build_stage-LimitsStage x h =
      after_build-LimitsStage (build_tx o cfg.params (draft o cfg x.state) x.manager).0
        (lift o (build_tx o cfg.params (draft o cfg x.state)) x).1 h

  sign_stage-LimitsStage : (tx : o.Tx) → LimitsStage (sign_stage o cfg tx)
  unfolding sign_stage before_hook
  sign_stage-LimitsStage tx x h = ground arith

  answer-state :
      (tx : o.Tx) (a : SyncAnswer o.Receipt) (x : Machine o)
      → (sync_answer o cfg tx a x).1.state ≡ x.state
  answer-state tx (answered (some r) e) x = refl
  answer-state tx (answered none e) x = refl
  answer-state tx timed_out x = ground arith
  answer-state tx (interrupted e) x = refl

  send_by-state :
      (sync : Bool) (tx : o.Tx) (x : Machine o) → (send_by o cfg sync tx x).1.state ≡ x.state
  send_by-state true tx x =
      answer-state tx (o.broadcast_sync cfg.params.network tx x.manager.world).0 _
  send_by-state false tx x = refl

  send-IsLimited :
      (tx : o.Tx) (x : Machine o) → IsLimited o cfg x → IsLimited o cfg (send o cfg tx x).1
  unfolding send
  send-IsLimited tx x h =
      subst (Within o cfg cfg.retry.max_attempts)
        (sym (send_by-state cfg.params.network.is_sync_tx_supported tx x)) h

  finish-Limits :
      (tx : o.Tx) (receipt : Option o.Receipt) (e : Option BroadcastError)
      → Limits o cfg (finish_sent o cfg tx receipt e)
  unfolding finish_sent
  finish-Limits tx none e x h = ground arith
  finish-Limits tx (some r) e x h = ground (
    arith,
    mined-Limits o cfg tx (record { status = unset; receipt = some r }) (after_hook o cfg tx e x).1,
  )

  after_send-Limits :
      (built signed : o.Tx) (s : Sent o) → Limits o cfg (after_send o cfg built signed s)
  after_send-Limits built signed (cut_off e) x h = ground arith
  after_send-Limits built signed (accepted r e) x h =
      finish-Limits signed r e (track o cfg signed x).1 h
  after_send-Limits built signed (refused r e) x h =
      broadcast_error-Limits o cfg e built (track o cfg signed x).1 h

  submit_stage-Limits :
      (tx : o.Tx) (s : Stage o) (x : Machine o)
      → LimitedStage s x
      → LimitedOutcome o cfg (submit_stage o cfg tx s x).0 (submit_stage o cfg tx s x).1
  unfolding submit
  submit_stage-Limits tx (stop out) x h = h
  submit_stage-Limits tx (go signed) x h =
      after_send-Limits tx signed (send o cfg signed x).0 (send o cfg signed x).1
        (send-IsLimited signed x h)

  with_built-action :
      (tx : o.Tx) (r : TxExecutionResult o) → (with_built o cfg tx r).action ≡ r.action
  with_built-action tx r = ground arith

  built-LimitedOutcome :
      (tx : o.Tx) (out : Outcome o) (x : Machine o)
      → LimitedOutcome o cfg out x
      → LimitedOutcome o cfg (map_outcome o (with_built o cfg tx) out) x
  built-LimitedOutcome tx (returns r) x h =
      subst (λ a. Within o cfg (allowance a cfg.retry.max_attempts) x.state)
        (sym (with_built-action tx r)) h
  built-LimitedOutcome tx panics x h = h

  broadcast_stage-Limits :
      (s : Stage o) (x : Machine o)
      → LimitedStage s x
      → LimitedOutcome o cfg (broadcast_stage o cfg s x).0 (broadcast_stage o cfg s x).1
  unfolding sign_and_broadcast
  broadcast_stage-Limits (stop out) x h = h
  broadcast_stage-Limits (go tx) x h =
      let stage = sign_stage o cfg tx x in
      built-LimitedOutcome tx _ _
        (submit_stage-Limits tx stage.0 stage.1 (sign_stage-LimitsStage tx x h))

  pub execute_attempt-Limits : Limits o cfg (execute_attempt o cfg)
  unfolding execute_attempt
  execute_attempt-Limits x h =
      let stage = build_stage o cfg x in
      broadcast_stage-Limits stage.0 stage.1 (build_stage-LimitsStage x h)
