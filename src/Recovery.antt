-- ===== src/Recovery.antt =====
-- recovery.go: what a restart does to the nonces and the transactions of the stores. The options and
-- the result are those of persistence.go.
pub mod Restart
pub mod Nonces
pub mod Pending
pub mod Resume
pub mod Run
pub mod Monitors
mod Tests
use walletarmy.Common.{
  ℕ, ◌+◌, ◌-◌, Bool, Option, none, some, List, [], ◌∷◌, ◌++◌, ℤ, ltb, if◌then◌else◌,
}
use walletarmy.Outside.{Outside, Error, PendingTx}
use walletarmy.Nonce.{Tracker, set_pending_nonce}

abbrev pub stored_or_zero : Option ℕ → ℕ
stored_or_zero none = 0
stored_or_zero (some n) = n

-- `LocalPendingNonce`, raised to the mined and then to the remote pending nonce.
abbrev pub reconciled_nonce : Option ℕ → ℕ → ℕ → ℕ
reconciled_nonce stored mined remote =
    let local = stored_or_zero stored in
    let raised = if ltb local mined then mined else local in
    if ltb raised remote then remote else raised

-- One stored state, once the node has answered the mined and the pending nonce.
pub reconcile : ℕ → ℕ → Option ℕ → ℕ → ℕ → Tracker → Tracker
unfolding set_pending_nonce
reconcile w c stored mined remote t =
    let n = reconciled_nonce stored mined remote in
    if ltb 0 n then set_pending_nonce w c (n - 1) t else t

pub record RecoveryResult : Type 0 where
  pub recovered_txs : ℕ
  pub mined_txs : ℕ
  pub dropped_txs : ℕ
  pub reconciled_nonces : ℕ
  pub errors : List Error

abbrev pub no_result : RecoveryResult
no_result = record {
  recovered_txs = 0;
  mined_txs = 0;
  dropped_txs = 0;
  reconciled_nonces = 0;
  errors = [];
}

abbrev pub add_error : Error → RecoveryResult → RecoveryResult
add_error e r = record r { errors = r.errors ++ e ∷ [] }

abbrev pub add_recovered : RecoveryResult → RecoveryResult
add_recovered r = record r { recovered_txs = r.recovered_txs + 1 }

abbrev pub add_mined : RecoveryResult → RecoveryResult
add_mined r = record r { mined_txs = r.mined_txs + 1 }

abbrev pub add_dropped : RecoveryResult → RecoveryResult
add_dropped r = record r { dropped_txs = r.dropped_txs + 1 }

abbrev pub add_reconciled : RecoveryResult → RecoveryResult
add_reconciled r = record r { reconciled_nonces = r.reconciled_nonces + 1 }

-- A callback that is nil is `none`.
pub record RecoveryOptions (o : Outside) : Type 0 where
  pub resume_monitoring : Bool
  pub tx_check_interval : ℤ
  pub max_concurrent_monitors : ℤ
  pub on_tx_recovered : Option (PendingTx o.Tx o.Receipt → o.World → o.World)
  pub on_tx_mined : Option (PendingTx o.Tx o.Receipt → Option o.Receipt → o.World → o.World)
  pub on_tx_dropped : Option (PendingTx o.Tx o.Receipt → o.World → o.World)
