-- ===== src/Exec/Monitor/Order.antt =====
-- What `MonitorTxContext` of manager_tx.go can answer, and in which order of events.
use walletarmy.Common.{◌≡◌, Bool, true, false, some, List, [], ◌∷◌, arith, if◌then◌else◌}
use walletarmy.Outside.{
  TxInfo, Event, context_done, slow_timer, closed_, status, said_done, said_reverted, said_lost,
  said_other, slow,
}
use walletarmy.Exec.Monitor.{checking, watch}

module _ {Receipt : Type 0} where
  -- Whether the monitor sent a status that is not terminal, or closed its channel.
  abbrev is_not_terminal : Event Receipt → Bool
  is_not_terminal closed_ = true
  is_not_terminal (status said_other r) = true
  is_not_terminal _ = false

  abbrev any_not_terminal : List (Event Receipt) → Bool
  any_not_terminal [] = false
  any_not_terminal (e ∷ es) =
      let rest = any_not_terminal es in if is_not_terminal e then true else rest

  -- A transaction is reported as slow only after the monitor has sent something that is not terminal.
  watch-slow :
      (events : List (Event Receipt)) (info : TxInfo Receipt)
      → watch checking events ≡ some info
      → info.status ≡ slow
      → any_not_terminal events ≡ true
  unfolding watch
  watch-slow [] info e h = ground arith
  watch-slow (context_done ∷ es) info e h = ground arith
  watch-slow (slow_timer ∷ es) info e h = ground (arith, watch-slow es info e h)
  watch-slow (closed_ ∷ es) info e h = ground arith
  watch-slow (status said_done r ∷ es) info e h = ground arith
  watch-slow (status said_reverted r ∷ es) info e h = ground arith
  watch-slow (status said_lost r ∷ es) info e h = ground arith
  watch-slow (status said_other r ∷ es) info e h = ground arith
