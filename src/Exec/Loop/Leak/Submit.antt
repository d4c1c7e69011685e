-- ===== src/Exec/Loop/Leak/Submit.antt =====
-- A broadcast that is not cut off leaves a signed transaction, and so does every later step:
-- manager_tx.go.
use walletarmy.Common.{
  ℕ, ◌≡◌, refl, sym, subst, inl, inr, Bool, true, false, Bool-cases, Option, none, some, List, [],
  ◌∷◌, arith, ◌==◌,
}
use walletarmy.Broadcast.{BroadcastError}
use walletarmy.Outside.{Outside, SyncAnswer, answered, timed_out, interrupted, unset, KeepsNonce}
use walletarmy.Exec.{Config, Machine, insert}
use walletarmy.Exec.Handlers.Statuses.{Outcome, returns, panics, map_outcome}
use walletarmy.Exec.Attempt.{Stage, stop, go, sign_stage, build_stage}
use walletarmy.Exec.Submit.{
  Sent, cut_off, accepted, refused, sync_answer, send_by, send, track, after_hook, finish_sent,
  after_send, submit, submit_stage, sign_and_broadcast, with_built, broadcast_stage,
  execute_attempt,
}
use walletarmy.Exec.Loop.Tracked.{KeepsTxs, mined-KeepsTxs, broadcast_error-KeepsTxs}
use walletarmy.Exec.Loop.Stages.{sign_stage-KeepsTxs}
use walletarmy.Exec.Loop.Leak.{IsTracked, NotMonitored, Safe, Attempted, Staged}
use walletarmy.Exec.Loop.Leak.Build.{build_stage-Staged}
use walletarmy.Exec.Loop.Leak.Sign.{Signed, sign_stage-Signed}

insert-IsTracked {ℓ} : {A : Type ℓ} (h : ℕ) (a : A) (m : List (ℕ × A)) → IsTracked (insert h a m)
insert-IsTracked h a [] = tt
insert-IsTracked h a ((k, b) ∷ m) = elim (Bool-cases (k == h)) [
  | inl same ↦ rw same tt
  | inr other ↦ rw other tt
]

abbrev IsAnswer : {R : Type 0} → SyncAnswer R → Type 0
IsAnswer (answered r e) = Unit
IsAnswer timed_out = Unit
IsAnswer (interrupted e) = ⊥

-- The context does not end while a synchronous broadcast is running, where the network has any.
abbrev pub NeverInterrupted : (o : Outside) → Config o → Type 0
NeverInterrupted o cfg =
    (tx : o.Tx) (w : o.World)
    → cfg.params.network.is_sync_tx_supported ≡ true
    → IsAnswer (o.broadcast_sync cfg.params.network tx w).0

abbrev NotCutOff : (o : Outside) → Sent o → Type 0
NotCutOff o (cut_off e) = ⊥
NotCutOff o (accepted r e) = Unit
NotCutOff o (refused r e) = Unit

module _ (o : Outside) (cfg : Config o) where
  answer-NotCutOff :
      (tx : o.Tx) (a : SyncAnswer o.Receipt) (x : Machine o)
      → IsAnswer a
      → NotCutOff o (sync_answer o cfg tx a x).0
  answer-NotCutOff tx (answered (some r) e) x h = tt
  answer-NotCutOff tx (answered none e) x h = tt
  answer-NotCutOff tx timed_out x h = ground arith
  answer-NotCutOff tx (interrupted e) x h = absurd h

  send_by-NotCutOff :
      (sync : Bool) (tx : o.Tx) (x : Machine o)
      → ((w : o.World) → sync ≡ true → IsAnswer (o.broadcast_sync cfg.params.network tx w).0)
      → NotCutOff o (send_by o cfg sync tx x).0
  send_by-NotCutOff true tx x h =
      answer-NotCutOff tx (o.broadcast_sync cfg.params.network tx x.manager.world).0 _
        (h x.manager.world refl)
  send_by-NotCutOff false tx x h = ground arith

  finish-KeepsTxs :
      (tx : o.Tx) (receipt : Option o.Receipt) (e : Option BroadcastError)
      → KeepsTxs o (finish_sent o cfg tx receipt e)
  unfolding finish_sent
  finish-KeepsTxs tx none e x = ground arith
  finish-KeepsTxs tx (some r) e x = ground (
    arith,
    mined-KeepsTxs o cfg tx (record { status = unset; receipt = some r })
        (after_hook o cfg tx e x).1,
  )

  after_send-IsTracked :
      (built signed : o.Tx) (s : Sent o) (x : Machine o)
      → NotCutOff o s
      → IsTracked (after_send o cfg built signed s x).1.state.old_txs
  after_send-IsTracked built signed (cut_off e) x h = absurd h
  after_send-IsTracked built signed (accepted receipt e) x h =
      let y = (track o cfg signed x).1 in
      subst IsTracked (sym (finish-KeepsTxs signed receipt e y))
        (insert-IsTracked (o.hash_of signed) signed x.state.old_txs)
  after_send-IsTracked built signed (refused receipt e) x h =
      let y = (track o cfg signed x).1 in
      subst IsTracked (sym (broadcast_error-KeepsTxs o cfg e built y))
        (insert-IsTracked (o.hash_of signed) signed x.state.old_txs)

  submit-IsTracked :
      NeverInterrupted o cfg
      → (built signed : o.Tx) (x : Machine o)
      → IsTracked (submit o cfg built signed x).1.state.old_txs
  unfolding submit send
  submit-IsTracked never built signed x =
      after_send-IsTracked built signed (send o cfg signed x).0 (send o cfg signed x).1
        (send_by-NotCutOff cfg.params.network.is_sync_tx_supported signed x (never signed))

  module _ (never : NeverInterrupted o cfg) (k : ℕ) (was : Bool) where
    submit_stage-Attempted :
        (tx : o.Tx) (s : Stage o) (x : Machine o)
        → Signed o cfg k was tx s x
        → Attempted o cfg k was (submit_stage o cfg tx s x).0 (submit_stage o cfg tx s x).1
    submit_stage-Attempted tx (stop out) x h = h
    submit_stage-Attempted tx (go signed) x h = inl (submit-IsTracked never tx signed x)

    tracked-Signed :
        (tx : o.Tx) (s : Stage o) (x : Machine o)
        → IsTracked x.state.old_txs
        → Signed o cfg k was tx s x
    tracked-Signed tx (stop out) x h = inl h
    tracked-Signed tx (go signed) x h = tt

    sign-Attempted :
        (tx : o.Tx) (x : Machine o)
        → Staged o cfg k was (go tx) x
        → Attempted o cfg k was (sign_and_broadcast o cfg tx x).0 (sign_and_broadcast o cfg tx x).1
    unfolding sign_and_broadcast
    sign-Attempted tx x (inl signed) =
        submit_stage-Attempted tx (sign_stage o cfg tx x).0 (sign_stage o cfg tx x).1 (
          tracked-Signed tx (sign_stage o cfg tx x).0 (sign_stage o cfg tx x).1
            (subst IsTracked (sym (sign_stage-KeepsTxs o cfg tx x)) signed))
    sign-Attempted tx x (inr h) =
        submit_stage-Attempted tx (sign_stage o cfg tx x).0 (sign_stage o cfg tx x).1
          (sign_stage-Signed o cfg k was tx x h)

    with_built-NotMonitored :
        (tx : o.Tx) (out : Outcome o)
        → NotMonitored o out
        → NotMonitored o (map_outcome o (with_built o cfg tx) out)
    with_built-NotMonitored tx panics h = tt
    with_built-NotMonitored tx (returns r) h = ground arith

    mapped-Attempted :
        (tx : o.Tx) (out : Outcome o) (x : Machine o)
        → Attempted o cfg k was out x
        → Attempted o cfg k was (map_outcome o (with_built o cfg tx) out) x
    mapped-Attempted tx out x (inl h) = inl h
    mapped-Attempted tx out x (inr (n, u)) = inr (with_built-NotMonitored tx out n, u)

    broadcast_stage-Attempted :
        (s : Stage o) (x : Machine o)
        → Staged o cfg k was s x
        → Attempted o cfg k was (broadcast_stage o cfg s x).0 (broadcast_stage o cfg s x).1
    broadcast_stage-Attempted (stop out) x h = h
    broadcast_stage-Attempted (go tx) x h =
        mapped-Attempted tx (sign_and_broadcast o cfg tx x).0 (sign_and_broadcast o cfg tx x).1
          (sign-Attempted tx x h)

    -- An attempt leaves `k` claimed only if it was before, or as the nonce of the next attempt, unless
    -- something was signed; it goes on to the monitor only with something signed.
    pub execute_attempt-Attempted :
        KeepsNonce o
        → (x : Machine o) → Safe o cfg k was x.state x.manager.nonce_tracker
        → Attempted o cfg k was (execute_attempt o cfg x).0 (execute_attempt o cfg x).1
    unfolding execute_attempt
    execute_attempt-Attempted law x h =
        broadcast_stage-Attempted (build_stage o cfg x).0 (build_stage o cfg x).1
          (build_stage-Staged o cfg k was law x h)
