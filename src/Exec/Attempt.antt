-- ===== src/Exec/Attempt.antt =====
-- manager_tx.go: one attempt, from building the transaction to the answer of the broadcast. It runs
-- in three stages; a stage that stops has the outcome of the attempt.
pub mod Ownership
use walletarmy.Common.{ℕ, Bool, true, false, Option, none, some, List, ◌==◌, if◌then◌else◌}
use walletarmy.Common.Text.{Text, codes}
use walletarmy.Broadcast.{BroadcastError, sync_broadcast_timeout, new_broadcast_error}
use walletarmy.Outside.{
  Outside, Error, Except, ok, err, sentinel, join, wrapped, plain, gas_estimation,
  simulation_revert, broadcast_failed, Sentinel, estimate_gas_failed, acquire_nonce_failed,
  get_gas_setting_failed, out_of_retries, gas_price_limit_reached, from_address_zero, network_nil,
  simulated_tx_reverted, simulated_tx_failed, circuit_breaker_open, tx_reverted,
  abnormal_nonce_state, SyncAnswer, answered, timed_out, interrupted, TxInfo, TxStatus, mined,
  reverted, pending, done, unset,
}
use walletarmy.Manager.{Manager, Action, pure, ◌>>=◌, ◌>>◌, outside, modify}
use walletarmy.Manager.Network.{reader, broadcaster}
use walletarmy.Manager.Nonces.{release}
use walletarmy.Exec.{
  LoopAction, continue_to_monitor, retry, return, TxExecutionResult, TxRetryState, Config, Machine,
  lift, update, result_return, result_retry, lookup, insert, increment_retry_and_check,
}
use walletarmy.Exec.Build.{Draft, build_tx, sign_tx, register_broadcasted_tx, broadcast_tx}
use walletarmy.Exec.Handlers.Statuses.{Outcome, returns, panics, map_outcome, handle_mined_tx}
use walletarmy.Exec.Handlers.{handle_gas_estimation_failure, handle_broadcast_error}

pub data Stage (o : Outside) : Type 0 where
  stop : Outcome o → Stage o
  go : o.Tx → Stage o

-- `errors.Is(err, ErrEstimateGasFailed)`.
abbrev is_estimate_sentinel : Sentinel → Bool
is_estimate_sentinel estimate_gas_failed = true
is_estimate_sentinel _ = false

abbrev pub is_estimate_gas_failed : Error → Bool
is_estimate_gas_failed (plain t) = false
is_estimate_gas_failed (sentinel s) = is_estimate_sentinel s
is_estimate_gas_failed (join s e) =
    let rest = is_estimate_gas_failed e in if is_estimate_sentinel s then true else rest
is_estimate_gas_failed (wrapped t e) = is_estimate_gas_failed e
is_estimate_gas_failed (gas_estimation e) = is_estimate_gas_failed e
is_estimate_gas_failed (simulation_revert e) = is_estimate_gas_failed e
is_estimate_gas_failed (broadcast_failed e) = false

module _ (o : Outside) (cfg : Config o) where
  abbrev pub release_tx : o.Tx → Action (Machine o) (Unit {0})
  release_tx tx = lift o (release o cfg.params.from cfg.params.network (o.nonce_of tx))

  -- Give up before any broadcast.
  abbrev pub release_and_return : o.Tx → Error → Action (Machine o) (Stage o)
  release_and_return tx e = do release_tx tx; pure (stop (returns (result_return o e)))

  -- The arguments that `executeTransactionAttempt` gives to `BuildTx`.
  abbrev pub draft : TxRetryState o → Draft o
  draft st = record {
    nonce = st.nonce;
    gas_limit = st.gas_limit;
    extra_gas_limit = cfg.gas.extra_gas_limit;
    gas_price = st.gas_price;
    extra_gas_price = cfg.gas.extra_gas_price;
    tip_cap = st.tip_cap;
    extra_tip_cap = cfg.gas.extra_tip_cap;
  }

  abbrev hook_verdict : Error → Except Bool → Option Error
  hook_verdict e (err h) =
      some (simulation_revert (wrapped (codes "simulation failed hook error") h))
  hook_verdict e (ok again) = if again then none else some (simulation_revert e)

  -- The simulation failed hook: an error to give up with, or to go on.
  unfoldable pub simulation_hook : o.Tx → Error → Action (Machine o) (Option Error)
  simulation_hook tx e = elim cfg.hooks.simulation_failed [
    | none ↦ pure none
    | some hook ↦ do answer ← lift o (outside o (hook tx e)); pure (hook_verdict e answer)
  ]

  abbrev pub after_count : o.Tx → Option (TxExecutionResult o) → Action (Machine o) (Stage o)
  after_count tx (some r) = do
    release_tx tx
    pure (
        stop (
          returns (record r {
            error =
                some
                  (simulation_revert (join out_of_retries (plain (codes "simulation reverted"))));
          })))
  after_count tx none = do
    update o λ st. record st { nonce = some (o.nonce_of tx); gas_limit = o.gas_of tx }
    pure (stop (returns (result_retry o)))

  abbrev pub after_simulation_hook : o.Tx → Option Error → Action (Machine o) (Stage o)
  after_simulation_hook tx (some e) = release_and_return tx e
  after_simulation_hook tx none = do
    out ← increment_retry_and_check o cfg (codes "simulation reverted")
    after_count tx out

  unfoldable pub handle_eth_call_revert : o.Tx → Error → Action (Machine o) (Stage o)
  handle_eth_call_revert tx e = do
    failed ← simulation_hook tx (join simulated_tx_reverted e)
    after_simulation_hook tx failed

  -- `none`: the call went through; else its error, and whether that is a revert.
  abbrev pub after_call : o.Tx → Option (Error × Bool) → Action (Machine o) (Stage o)
  after_call tx none = pure (go tx)
  after_call tx (some (e, true)) = handle_eth_call_revert tx e
  after_call tx (some (e, false)) =
      release_and_return tx
        (join simulated_tx_failed (wrapped (codes "couldn't simulate tx at pending state") e))

  abbrev pub after_reader : o.Tx → Option Error → Action (Machine o) (Stage o)
  after_reader tx (some e) =
      release_and_return tx
        (join simulated_tx_failed (wrapped (codes "couldn't get reader for simulation") e))
  after_reader tx none = do
    answer ← lift o (
        outside o (
          o.eth_call cfg.params.network cfg.params.from cfg.params.to cfg.params.value
            cfg.params.payload))
    after_call tx answer

  abbrev pub simulate_unless : Bool → o.Tx → Action (Machine o) (Stage o)
  simulate_unless true tx = pure (go tx)
  simulate_unless false tx = do
    failed ← lift o (reader o cfg.params.network)
    after_reader tx failed

  -- The simulation by `eth_call`.
  unfoldable pub simulate : o.Tx → Action (Machine o) (Stage o)
  simulate tx = simulate_unless cfg.params.skip_simulation tx

  abbrev pub build_failed : Bool → Error → Action (Machine o) (Stage o)
  build_failed true e = do out ← handle_gas_estimation_failure o cfg e; pure (stop out)
  build_failed false e = pure (stop (returns (result_return o e)))

  abbrev pub after_build : Except o.Tx → Action (Machine o) (Stage o)
  after_build (ok tx) = simulate tx
  after_build (err e) = build_failed (is_estimate_gas_failed e) e

  -- Build and simulate.
  unfoldable pub build_stage : Action (Machine o) (Stage o)
  build_stage = do
    d ← λ x. (draft x.state, x)
    built ← lift o (build_tx o cfg.params d)
    after_build built

  abbrev pub release_if_untracked : o.Tx → Error → Option o.Tx → Action (Machine o) (Stage o)
  release_if_untracked tx e none = release_and_return tx e
  release_if_untracked tx e (some old) = pure (stop (returns (result_return o e)))

  -- `releaseNonce` in `signAndBroadcastTransaction`.
  abbrev pub release_unless_tracked : o.Tx → Error → Action (Machine o) (Stage o)
  release_unless_tracked tx e = do
    tracked ← λ x. (lookup (o.hash_of tx) x.state.old_txs, x)
    release_if_untracked tx e tracked

  unfoldable pub before_hook : o.Tx → Action (Machine o) (Option Error)
  before_hook tx = elim cfg.hooks.before_sign_and_broadcast [
    | none ↦ pure none
    | some hook ↦ lift o (outside o (hook tx))
  ]

  -- The broadcaster of the synchronous path, which is asked for before the broadcast.
  abbrev pub sync_broadcaster : Action (Machine o) (Option Error)
  sync_broadcaster =
      if cfg.params.network.is_sync_tx_supported
      then lift o (broadcaster o cfg.params.network)
      else pure none

  abbrev pub after_broadcaster : o.Tx → o.Tx → Option Error → Action (Machine o) (Stage o)
  after_broadcaster tx signed (some e) =
      release_unless_tracked tx (wrapped (codes "couldn't get broadcaster") e)
  after_broadcaster tx signed none = pure (go signed)

  abbrev pub after_sign : o.Tx → Except (ℕ × o.Tx) → Action (Machine o) (Stage o)
  after_sign tx (err e) = release_unless_tracked tx (wrapped (codes "failed to sign transaction") e)
  after_sign tx (ok (signer, signed)) =
      if signer == cfg.params.from
      then (do failed ← sync_broadcaster; after_broadcaster tx signed failed)
      else release_unless_tracked tx (plain (codes "signed from wrong address"))

  abbrev pub after_before_hook : o.Tx → Option Error → Action (Machine o) (Stage o)
  after_before_hook tx (some e) =
      release_unless_tracked tx
        (wrapped (codes "after tx building and before signing and broadcasting hook error") e)
  after_before_hook tx none = do
    signed ← lift o (sign_tx o cfg.params.from tx cfg.params.network)
    after_sign tx signed

  -- The hook, the signature and its address: all of `signAndBroadcastTransaction` that may stop
  -- before the transaction is sent.
  unfoldable pub sign_stage : o.Tx → Action (Machine o) (Stage o)
  sign_stage tx = do failed ← before_hook tx; after_before_hook tx failed
