-- ===== src/Recovery/Tests.antt =====
-- The theorems on restarts, where the nonce 7 was stored when it was acquired, and on a recovery at the
-- small world: its nodes answer the nonce 5, and a pending transaction has no known status.
use walletarmy.Common.{◌≡◌, refl, max, none, some, [], ◌∷◌, pos, arith}
use walletarmy.Breaker
use walletarmy.Outside.{NonceState, PendingTxStatus}
use walletarmy.Nonce.{new_tracker, acquire_nonce}
use walletarmy.Nonce.Next.{nonce_of}
use walletarmy.Manager.Network.{
  reader, component, allow_network, record_network_success, init_network,
}
use walletarmy.Recovery.{RecoveryResult, no_result, stored_or_zero, reconcile}
use walletarmy.Recovery.Restart.{acquire-reconcile}
use walletarmy.Recovery.Nonces.{reconcile_states}
use walletarmy.Recovery.Nonces.Raises.{Raises, reconcile_states-Raises}
use walletarmy.Recovery.Pending.{Pending, Progress, process_tx, process_txs}
use walletarmy.Recovery.Pending.Counts.{TxsCounted, process_txs-counts}
use walletarmy.Recovery.Run.{default_recovery_options}
use walletarmy.Exec.Tests.{small, start, tx}

acquire-reconcile_example :
    nonce_of (acquire_nonce 1 1 5 6 none (reconcile 1 1 (some 7) 5 6 new_tracker)).0
    ≡ some (max (stored_or_zero (some 7)) 6)
acquire-reconcile_example = acquire-reconcile 1 1 5 6 (some 7) (omega arith) (omega arith)

abbrev stored_state : NonceState
stored_state = record {
  wallet = 1;
  chain_id = 1;
  local_pending_nonce = some 7;
  reserved_nonces = 4 ∷ 6 ∷ [];
}

abbrev one_reconciled : RecoveryResult
one_reconciled = record no_result { reconciled_nonces = 1 }

reconcile_states-Raises_example :
    Raises 1 1 start.nonce_tracker
      (reconcile_states small (stored_state ∷ []) no_result start).1.nonce_tracker
reconcile_states-Raises_example =
    reconcile_states-Raises small 1 1 (stored_state ∷ []) no_result start

abbrev unknown_tx : Pending small
unknown_tx = record {
  hash = 7;
  wallet = 1;
  chain_id = 1;
  nonce = 7;
  status = PendingTxStatus.broadcasted;
  transaction = some tx;
  receipt = none;
  created_at = pos 0;
  updated_at = pos 0;
}

abbrev nothing_yet : Progress small
nothing_yet = record { result = no_result; resumed = [] }

abbrev one_dropped : Progress small
one_dropped = record { result = record no_result { dropped_txs = 1 }; resumed = [] }

process_txs-counts_example : TxsCounted small 1 nothing_yet one_dropped
unfolding process_txs process_tx reader component allow_network record_network_success init_network
    Breaker.new Breaker.allow Breaker.current_state Breaker.record_success Breaker.default_config
process_txs-counts_example =
    process_txs-counts small (default_recovery_options small) (unknown_tx ∷ []) nothing_yet
      one_dropped start
      (process_txs small (default_recovery_options small) (unknown_tx ∷ []) nothing_yet start).1
      refl
