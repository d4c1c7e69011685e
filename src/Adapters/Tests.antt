-- ===== src/Adapters/Tests.antt =====
-- The theorem on the adapter of the monitor at a run of events.
use walletarmy.Common.{ℕ, ◌≡◌, none, some, List, [], ◌∷◌}
use walletarmy.Outside.{Event, context_done, slow_timer, status, said_other, said_done}
use walletarmy.Exec.Monitor.{checking, watch}
use walletarmy.Adapters.{forwarded}
use walletarmy.Adapters.Forwarded.{watch-forwarded}

-- Jarvis reports a pending transaction as done before the timer fires.
abbrev events : List (Event ℕ)
events =
    slow_timer ∷ status said_other none ∷ status said_done (some 3) ∷ slow_timer ∷ context_done ∷ []

watch-forwarded_example : watch checking (forwarded events) ≡ watch checking events
watch-forwarded_example = watch-forwarded events
