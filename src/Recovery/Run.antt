-- ===== src/Recovery/Run.antt =====
-- recovery.go and manager.go: `Recover`, `RecoverWithOptions`.
pub mod Ends
use walletarmy.Common.{ℕ, ◌||◌, Bool, true, false, Option, none, some, [], ℤ, pos, if◌then◌else◌}
use walletarmy.Outside.{Outside, Error}
use walletarmy.Manager.{Manager, Action, pure, ◌>>=◌}
use walletarmy.Recovery.{RecoveryResult, RecoveryOptions, no_result}
use walletarmy.Recovery.Nonces.{reconcile_nonce_state}
use walletarmy.Recovery.Pending.{Progress, Processed, processed, process_pending}
use walletarmy.Defaults.{default_duration}

module _ (o : Outside) where
  -- `DefaultRecoveryOptions` of persistence.go
  abbrev pub default_recovery_options : RecoveryOptions o
  default_recovery_options = record {
    resume_monitoring = true;
    tx_check_interval = default_duration;
    max_concurrent_monitors = pos 10;
    on_tx_recovered = none;
    on_tx_mined = none;
    on_tx_dropped = none;
  }

  abbrev stops : RecoveryResult → Option Error → Processed o
  stops r e = processed (record { result = r; resumed = [] }) e

  abbrev pub pending_step : RecoveryOptions o → RecoveryResult → Action (Manager o) (Processed o)
  pending_step opts r m = if m.has_tx_store then process_pending o opts r m else (stops r none, m)

  abbrev pub after_nonces :
      RecoveryOptions o → RecoveryResult × Option Error → Action (Manager o) (Processed o)
  after_nonces opts (r, some e) m = (stops r (some e), m)
  after_nonces opts (r, none) m = pending_step opts r m

  abbrev pub nonces_step : Bool → Action (Manager o) (RecoveryResult × Option Error)
  nonces_step true = reconcile_nonce_state o no_result
  nonces_step false = pure (no_result, none)

  -- `Recover` of the handler: the nonces, then the transactions.
  unfoldable pub recover_stores : RecoveryOptions o → Action (Manager o) (Processed o)
  recover_stores opts m = (do out ← nonces_step m.has_nonce_store; after_nonces opts out) m

  unfoldable pub recover_with_options : RecoveryOptions o → Action (Manager o) (Processed o)
  recover_with_options opts m =
      if m.has_nonce_store || m.has_tx_store
      then recover_stores opts m
      else (stops no_result none, m)

  unfoldable pub recover : Action (Manager o) (Processed o)
  recover = recover_with_options default_recovery_options
