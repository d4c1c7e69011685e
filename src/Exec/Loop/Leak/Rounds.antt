-- ===== src/Exec/Loop/Leak/Rounds.antt =====
-- The claims after a round of `executeTransactionLoop`: manager_tx.go.
use walletarmy.Common.{
  ℕ, ◌≡◌, refl, sym, subst, inl, inr, Bool, true, false, Option, none, some, arith,
}
use walletarmy.Outside.{Outside, Error, TxInfo, KeepsNonce}
use walletarmy.Exec.{
  LoopAction, continue_to_monitor, retry, return, TxExecutionResult, Config, Machine, lift,
}
use walletarmy.Exec.Handlers.Statuses.{Outcome, returns, panics}
use walletarmy.Exec.Monitor.{monitor_tx}
use walletarmy.Exec.Loop.{
  Round, again, ends, crashes, hangs, by_info, by_monitor, watch_tx, watch_result, dispatch,
  attempt_with, attempt_or_resume, pause, unless_interrupted, unless_ended, round,
}
use walletarmy.Exec.Loop.Tracked.{KeepsTxs, status-KeepsTxs}
use walletarmy.Exec.Loop.Leak.{IsTracked, Safe, Attempted}
use walletarmy.Exec.Loop.Leak.Submit.{NeverInterrupted, execute_attempt-Attempted}

module _ (o : Outside) (cfg : Config o) where
  by_info-KeepsTxs :
      (tx : o.Tx) (info : Option (TxInfo o.Receipt)) → KeepsTxs o (by_info o cfg tx info)
  by_info-KeepsTxs tx none x = refl
  by_info-KeepsTxs tx (some info) x = ground (arith, status-KeepsTxs o cfg info tx x)

  monitor-KeepsTxs : (tx : o.Tx) (there : Bool) → KeepsTxs o (by_monitor o cfg tx there)
  monitor-KeepsTxs tx false x = refl
  monitor-KeepsTxs tx true x =
      let seen =
        lift o (monitor_tx o cfg.params.network (o.hash_of tx) cfg.retry.tx_check_interval) x in
      by_info-KeepsTxs tx seen.0 seen.1

  watch-KeepsTxs : (tx : o.Tx) → KeepsTxs o (watch_tx o cfg tx)
  unfolding watch_tx
  watch-KeepsTxs tx x = monitor-KeepsTxs tx (x.manager.tx_monitors cfg.params.network.chain_id) x

  module _ (k : ℕ) (was : Bool) where
    abbrev pub IsSafe : Machine o → Type 0
    IsSafe x = Safe o cfg k was x.state x.manager.nonce_tracker

    safe_same :
        (x y : Machine o)
        → (y.state ≡ x.state) × (y.manager.nonce_tracker ≡ x.manager.nonce_tracker)
        → IsSafe x
        → IsSafe y
    safe_same x y (p, q) h =
        subst (λ st. Safe o cfg k was st y.manager.nonce_tracker) (sym p)
          (subst (λ t. Safe o cfg k was x.state t) (sym q) h)

    abbrev pub SafeRound : Round o → Machine o → Type 0
    SafeRound again x = IsSafe x
    SafeRound (ends f) x = IsSafe x
    SafeRound crashes x = Unit {0}
    SafeRound hangs x = Unit {0}

    tracked-SafeRound : (r : Round o) (x : Machine o) → IsTracked x.state.old_txs → SafeRound r x
    tracked-SafeRound again x h = inl h
    tracked-SafeRound (ends f) x h = inl h
    tracked-SafeRound crashes x h = tt
    tracked-SafeRound hangs x h = tt

    watched :
        (t : Option o.Tx) (receipt : Option o.Receipt) (a : LoopAction) (e : Option Error)
        (x : Machine o)
        → IsTracked x.state.old_txs
        → let r : TxExecutionResult o = record {
          transaction = t;
          receipt = receipt;
          action = a;
          error = e;
        } in
          SafeRound (watch_result o cfg r x).0 (watch_result o cfg r x).1
    watched t (some receipt) a e x h = inl h
    watched none none a e x h = inl h
    watched (some tx) none a e x h =
        tracked-SafeRound (watch_tx o cfg tx x).0 (watch_tx o cfg tx x).1
          (subst IsTracked (sym (watch-KeepsTxs tx x)) h)

    settled : (out : Outcome o) (x : Machine o) → Attempted o cfg k was out x → IsSafe x
    settled out x (inl h) = inl h
    settled out x (inr (n, u)) = inr u

    by_action-SafeRound :
        (t : Option o.Tx) (receipt : Option o.Receipt) (a : LoopAction) (e : Option Error)
        (x : Machine o)
        → let r : TxExecutionResult o = record {
          transaction = t;
          receipt = receipt;
          action = a;
          error = e;
        } in
          Attempted o cfg k was (returns r) x
          → SafeRound (dispatch o cfg (returns r) x).0 (dispatch o cfg (returns r) x).1
    by_action-SafeRound t receipt return e x h =
        settled
          (returns (record { transaction = t; receipt = receipt; action = return; error = e })) x h
    by_action-SafeRound t receipt retry e x h =
        settled (returns (record { transaction = t; receipt = receipt; action = retry; error = e }))
          x h
    by_action-SafeRound t receipt continue_to_monitor e x (inl h) =
        watched t receipt continue_to_monitor e x h
    by_action-SafeRound t receipt continue_to_monitor e x (inr (n, u)) = absurd (cc)

    dispatch-SafeRound :
        (out : Outcome o) (x : Machine o)
        → Attempted o cfg k was out x
        → SafeRound (dispatch o cfg out x).0 (dispatch o cfg out x).1
    dispatch-SafeRound panics x h = tt
    dispatch-SafeRound (returns r) x h =
        by_action-SafeRound r.transaction r.receipt r.action r.error x h

    module _ (never : NeverInterrupted o cfg) (law : KeepsNonce o) where
      attempt_with-Attempted :
          (v : Option o.Tx) (x : Machine o)
          → x.state.resume_with ≡ v
          → IsSafe x
          → Attempted o cfg k was (attempt_with o cfg v x).0 (attempt_with o cfg v x).1
      attempt_with-Attempted none x same h = execute_attempt-Attempted o cfg never k was law x h
      attempt_with-Attempted (some tx) x same (inl h) = inl h
      attempt_with-Attempted (some tx) x same (inr u) = let none_there = u.1 in absurd (cc)

      unless_interrupted-SafeRound :
          (e : Option Error) (x : Machine o)
          → IsSafe x
          → SafeRound (unless_interrupted o cfg e x).0 (unless_interrupted o cfg e x).1
      unfolding attempt_or_resume
      unless_interrupted-SafeRound (some e) x h = h
      unless_interrupted-SafeRound none x h =
          let out = attempt_or_resume o cfg x in
          dispatch-SafeRound out.0 out.1 (attempt_with-Attempted x.state.resume_with x refl h)

      pause-same :
          (x : Machine o)
          → ((pause o cfg x).1.state ≡ x.state)
            × ((pause o cfg x).1.manager.nonce_tracker ≡ x.manager.nonce_tracker)
      unfolding pause
      pause-same x = (ground arith, ground arith)

      unless_ended-SafeRound :
          (e : Option Error) (x : Machine o)
          → IsSafe x
          → SafeRound (unless_ended o cfg e x).0 (unless_ended o cfg e x).1
      unless_ended-SafeRound (some e) x h = h
      unless_ended-SafeRound none x h =
          unless_interrupted-SafeRound (pause o cfg x).0 (pause o cfg x).1
            (safe_same x (pause o cfg x).1 (pause-same x) h)

      pub round-SafeRound :
          (x : Machine o) → IsSafe x → SafeRound (round o cfg x).0 (round o cfg x).1
      unfolding round
      round-SafeRound x h =
          unless_ended-SafeRound (o.context_error x.manager.world).0
            (record x {
              manager = record x.manager { world = (o.context_error x.manager.world).1 };
            })
            h
