-- ===== src/Exec/Handlers/Ownership.antt =====
-- Which nonce a failed broadcast, or a lost or slow transaction, is tried again with:
-- `handleBroadcastError` and `handleTransactionStatus` of manager_tx.go.
use walletarmy.Common.{
  ◌⊎◌, inl, inr, ap, subst, sym, if◌then◌else◌, suc, ◌≡◌, Option, none, some, arith, pos, ◌≤ℤ◌, ltb,
}
use walletarmy.Common.Text.{Text}
use walletarmy.Broadcast.{
  BroadcastError, insufficient_fund, nonce_gap, nonce_is_low, replacement_underpriced,
  gas_limit_is_too_low, tx_is_known, sync_broadcast_timeout, other,
}
use walletarmy.Outside.{TxInfo, lost, slow, Outside}
use walletarmy.Exec.{retry, Config, Machine, increment_retry_and_check, bump_gas_for_slow_tx}
use walletarmy.Exec.Handlers.Statuses.{Outcome, returns, panics}
use walletarmy.Exec.Handlers.{
  handle_transaction_status, handle_lost, handle_slow, by_status, count_or_resync, retry_same_nonce,
  handle_broadcast_error, handle_replacement_underpriced, count_at_nonce,
}

-- The errors that do not make the code give up the nonce.
abbrev pub StaysAt : Option BroadcastError → Type 0
StaysAt (some nonce_gap) = ⊥
StaysAt (some nonce_is_low) = ⊥
StaysAt (some replacement_underpriced) = ⊥
StaysAt _ = Unit {0}

-- The errors that count as an attempt.
abbrev pub IsCounted : Option BroadcastError → Type 0
IsCounted (some tx_is_known) = ⊥
IsCounted e = StaysAt e

-- The attempt is tried again.
abbrev pub Retries : (o : Outside) → Outcome o → Type 0
Retries o (returns r) = r.action ≡ retry
Retries o panics = ⊥

module _ (o : Outside) (cfg : Config o) where
  retry_same_nonce-nonce :
      (msg : Text) (tx : o.Tx) (x : Machine o)
      → Retries o (retry_same_nonce o cfg msg tx x).0
      → ((retry_same_nonce o cfg msg tx x).1.state.nonce ≡ some (o.nonce_of tx))
        × ((retry_same_nonce o cfg msg tx x).1.state.attempt_count ≡ suc x.state.attempt_count)
        × (pos (suc x.state.attempt_count) ≤ℤ cfg.retry.max_attempts)
  unfolding retry_same_nonce count_or_resync increment_retry_and_check
  retry_same_nonce-nonce msg tx x h = ground arith

  counted :
      (msg : Text) (tx : o.Tx) (x : Machine o)
      → Retries o (retry_same_nonce o cfg msg tx x).0
      → ((retry_same_nonce o cfg msg tx x).1.state.attempt_count ≡ suc x.state.attempt_count)
        × (pos (suc x.state.attempt_count) ≤ℤ cfg.retry.max_attempts)
  counted msg tx x h = let (_, a, b) = retry_same_nonce-nonce msg tx x h in (a, b)

  -- After an error that says nothing about the nonce, a retry uses the transaction's own nonce.
  pub handle_broadcast_error-nonce :
      (e : Option BroadcastError) (tx : o.Tx) (x : Machine o)
      → StaysAt e
      → Retries o (handle_broadcast_error o cfg e tx x).0
      → (handle_broadcast_error o cfg e tx x).1.state.nonce ≡ some (o.nonce_of tx)
  unfolding handle_broadcast_error count_or_resync increment_retry_and_check
  handle_broadcast_error-nonce none tx x s h = (retry_same_nonce-nonce _ tx x h).0
  handle_broadcast_error-nonce (some insufficient_fund) tx x s h =
      (retry_same_nonce-nonce _ tx x h).0
  handle_broadcast_error-nonce (some gas_limit_is_too_low) tx x s h =
      (retry_same_nonce-nonce _ tx x h).0
  handle_broadcast_error-nonce (some (other msg)) tx x s h = (retry_same_nonce-nonce _ tx x h).0
  handle_broadcast_error-nonce (some tx_is_known) tx x s h = ground arith
  handle_broadcast_error-nonce (some sync_broadcast_timeout) tx x s h = ground arith
  handle_broadcast_error-nonce (some nonce_gap) tx x s h = absurd s
  handle_broadcast_error-nonce (some nonce_is_low) tx x s h = absurd s
  handle_broadcast_error-nonce (some replacement_underpriced) tx x s h = absurd s

  -- A retry after one of the counted errors counts one attempt, within the limit.
  handle_broadcast_error-count :
      (e : Option BroadcastError) (tx : o.Tx) (x : Machine o)
      → IsCounted e
      → Retries o (handle_broadcast_error o cfg e tx x).0
      → ((handle_broadcast_error o cfg e tx x).1.state.attempt_count ≡ suc x.state.attempt_count)
        × (pos (suc x.state.attempt_count) ≤ℤ cfg.retry.max_attempts)
  unfolding handle_broadcast_error count_or_resync increment_retry_and_check
  handle_broadcast_error-count none tx x s h = counted _ tx x h
  handle_broadcast_error-count (some insufficient_fund) tx x s h = counted _ tx x h
  handle_broadcast_error-count (some gas_limit_is_too_low) tx x s h = counted _ tx x h
  handle_broadcast_error-count (some (other msg)) tx x s h = counted _ tx x h
  handle_broadcast_error-count (some tx_is_known) tx x s h = absurd s
  handle_broadcast_error-count (some sync_broadcast_timeout) tx x s h = ground arith
  handle_broadcast_error-count (some nonce_gap) tx x s h = absurd s
  handle_broadcast_error-count (some nonce_is_low) tx x s h = absurd s
  handle_broadcast_error-count (some replacement_underpriced) tx x s h = absurd s

  -- A replacement that a node finds underpriced is tried again with the same nonce if the code has
  -- signed more than one transaction of that nonce, and with a nonce yet to be acquired if not.
  handle_replacement-nonce :
      (tx : o.Tx) (x : Machine o)
      → Retries o (handle_replacement_underpriced o cfg tx x).0
      → (handle_replacement_underpriced o cfg tx x).1.state.nonce ≡ (
          if ltb 1 (count_at_nonce o cfg (o.nonce_of tx) x.state.old_txs)
          then some (o.nonce_of tx)
          else none)
  unfolding handle_replacement_underpriced bump_gas_for_slow_tx
  handle_replacement-nonce tx x h = ground arith

  handle_lost-nonce :
      (tx : o.Tx) (x : Machine o)
      → Retries o (handle_lost o cfg tx x).0
      → (handle_lost o cfg tx x).1.state.nonce ≡ some (o.nonce_of tx)
  unfolding handle_lost bump_gas_for_slow_tx
  handle_lost-nonce tx x h = ground arith

  handle_slow-nonce :
      (tx : o.Tx) (x : Machine o)
      → Retries o (handle_slow o cfg tx x).0
      → let st = (handle_slow o cfg tx x).1.state in
        (st.nonce ≡ some (o.nonce_of tx)) ⊎ (st.resume_with ≡ some tx)
  unfolding handle_slow bump_gas_for_slow_tx
  handle_slow-nonce tx x h = ground arith

  -- A transaction that was lost or is slow is tried again with its own nonce, or is watched again.
  handle_status-nonce :
      (info : TxInfo o.Receipt) (tx : o.Tx) (x : Machine o)
      → (info.status ≡ lost) ⊎ (info.status ≡ slow)
      → Retries o (handle_transaction_status o cfg info tx x).0
      → let st = (handle_transaction_status o cfg info tx x).1.state in
        (st.nonce ≡ some (o.nonce_of tx)) ⊎ (st.resume_with ≡ some tx)
  unfolding handle_transaction_status
  handle_status-nonce info tx x (inl s) h =
      let same : by_status o cfg info.status info tx ≡ handle_lost o cfg tx =
        ap (λ t. by_status o cfg t info tx) s in
      inl (
        subst (λ act. (act x).1.state.nonce ≡ some (o.nonce_of tx)) (sym same)
          (handle_lost-nonce tx x (subst (λ act. Retries o (act x).0) same h)))
  handle_status-nonce info tx x (inr s) h =
      let same : by_status o cfg info.status info tx ≡ handle_slow o cfg tx =
        ap (λ t. by_status o cfg t info tx) s in
      subst
        (λ act.
          ((act x).1.state.nonce ≡ some (o.nonce_of tx)) ⊎ ((act x).1.state.resume_with ≡ some tx))
        (sym same) (handle_slow-nonce tx x (subst (λ act. Retries o (act x).0) same h))
