-- ===== src/Adapters/Forwarded.antt =====
-- What `MonitorTxContext` sees through the adapter of the monitor: adapters.go and manager_tx.go.
use walletarmy.Common.{◌≡◌, refl, Bool, true, false, Option, none, some, List, [], ◌∷◌, arith}
use walletarmy.Outside.{
  ok, Network, Event, context_done, slow_timer, closed_, status, said_done, said_reverted,
  said_lost, said_other,
}
use walletarmy.Exec.Monitor.{checking, timing, watch}
use walletarmy.Adapters.{
  Jarvis, EthReader, default_reader_factory, jarvis_reader_from_interface,
  default_tx_monitor_factory, left_alone, forwarded,
}

module _ {Receipt : Type 0} where
  watch-left_alone :
      (events : List (Event Receipt)) → watch timing (left_alone events) ≡ watch timing events
  unfolding watch
  watch-left_alone [] = refl
  watch-left_alone (context_done ∷ events) = refl
  watch-left_alone (slow_timer ∷ events) = refl
  watch-left_alone (closed_ ∷ events) = watch-left_alone events
  watch-left_alone (status s r ∷ events) = watch-left_alone events

  -- The manager comes to the same through the adapter as it would on the channel of jarvis itself, whatever
  -- the order of the events: of the monitor it only takes the first one, or that there is none.
  pub watch-forwarded :
      (events : List (Event Receipt)) → watch checking (forwarded events) ≡ watch checking events
  unfolding watch forwarded
  watch-forwarded [] = refl
  watch-forwarded (context_done ∷ events) = refl
  watch-forwarded (slow_timer ∷ events) = watch-forwarded events
  watch-forwarded (closed_ ∷ events) = watch-left_alone events
  watch-forwarded (status said_done r ∷ events) = refl
  watch-forwarded (status said_reverted r ∷ events) = refl
  watch-forwarded (status said_lost r ∷ events) = refl
  watch-forwarded (status said_other r ∷ events) = watch-left_alone events

abbrev is_made : {A : Type 0} → Option A → Bool
is_made none = false
is_made (some a) = true

-- The default factories make a monitor for every reader that they make.
default_monitor :
    (j : Jarvis) (Own : Type 0) (net : Network) (w : j.World) (r : EthReader j Own)
    → (default_reader_factory j Own net w).0 ≡ ok r
    → is_made (default_tx_monitor_factory j Own r) ≡ true
unfolding default_reader_factory default_tx_monitor_factory jarvis_reader_from_interface
default_monitor j Own net w r h = ground arith
