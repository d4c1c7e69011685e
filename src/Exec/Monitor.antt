-- ===== src/Exec/Monitor.antt =====
-- `MonitorTxContext` of manager_tx.go: one status out of the monitor, the slow timer and the
-- context. The `select` takes events in any order, so the order is the list of events.
pub mod Order
use walletarmy.Common.{
  ℕ, ◌≡◌, ◌⊎◌, inl, inr, Bool, true, false, Option, none, some, List, [], ◌∷◌, ◌++◌, ℤ, arith,
  if◌then◌else◌,
}
use walletarmy.Outside.{
  TxInfo, Outside, Event, context_done, slow_timer, closed_, status, MonitorStatus, said_done,
  said_reverted, said_lost, said_other, TxStatus, mined, reverted, lost, slow, cancelled, pending,
  done, unset, unknown, Network,
}
use walletarmy.Manager.{Manager, Action, pure, ◌>>=◌, outside}

-- What the `select` may receive: the monitor until its channel is disabled, the timer once it is
-- armed. Both change at the first event that is not terminal.
pub data Phase : Type 0 where
  checking timing : Phase

module _ {Receipt : Type 0} where
  abbrev pub terminal : MonitorStatus → Option Receipt → Option (TxInfo Receipt)
  terminal said_done r = some (record { status = mined; receipt = r })
  terminal said_reverted r = some (record { status = reverted; receipt = r })
  terminal said_lost r = some (record { status = lost; receipt = none })
  terminal said_other r = none

  -- An event that the `select` cannot receive in this phase is passed over. `none`: it waits on.
  unfoldable pub watch : Phase → List (Event Receipt) → Option (TxInfo Receipt)
  watch phase [] = none
  watch phase (context_done ∷ events) = some (record { status = cancelled; receipt = none })
  watch checking (slow_timer ∷ events) = watch checking events
  watch timing (slow_timer ∷ events) = some (record { status = slow; receipt = none })
  watch checking (closed_ ∷ events) = watch timing events
  watch timing (closed_ ∷ events) = watch timing events
  watch checking (status s r ∷ events) =
      let rest = watch timing events in elim (terminal s r) [ some info ↦ some info | none ↦ rest ]
  watch timing (status s r ∷ events) = watch timing events

module _ (o : Outside) where
  unfoldable pub monitor_tx : Network → ℕ → ℤ → Action (Manager o) (Option (TxInfo o.Receipt))
  monitor_tx net hash interval = do
    timeout ← λ m. (m.defaults.slow_tx_timeout, m)
    events ← outside o (o.events net hash interval timeout)
    pure (watch checking events)
