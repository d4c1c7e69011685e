-- ===== src/Manager/Network/Ready.antt =====
-- What a call for a component of a network leaves behind: manager_network.go.
use walletarmy.Common.{ℕ, ◌≡◌, ◌⊎◌, Bool, true, false, none, arith}
use walletarmy.Outside.{Outside, Network}
use walletarmy.Manager.{Manager}
use walletarmy.Manager.Network.{
  allow_network, record_network_success, record_network_failure, init_network, component, reader,
  broadcaster, analyzer,
}

module _ (o : Outside) (c : ℕ) where
  -- A broadcaster has a monitor beside it.
  abbrev pub IsWatched : Manager o → Type 0
  IsWatched m = (m.broadcasters c ≡ false) ⊎ (m.tx_monitors c ≡ true)

module _ (o : Outside) (net : Network) where
  abbrev HasAll : Manager o → Type 0
  HasAll m =
      (m.readers net.chain_id ≡ true)
      × (m.analyzers net.chain_id ≡ true)
      × (m.broadcasters net.chain_id ≡ true)

  init_network-HasAll :
      (m : Manager o) → (init_network o net m).0 ≡ none → HasAll (init_network o net m).1
  unfolding init_network
  init_network-HasAll m h = ground arith

  init_network-IsWatched :
      ((w : o.World) → (o.make_monitor net w).0 ≡ true)
      → (m : Manager o) → IsWatched o net.chain_id m
      → IsWatched o net.chain_id (init_network o net m).1
  unfolding init_network
  init_network-IsWatched makes m h = grind (arith, makes, h)

  -- What each of the three calls leaves, where it answers no error.
  reader-there :
      (m : Manager o) → (reader o net m).0 ≡ none → (reader o net m).1.readers net.chain_id ≡ true
  unfolding reader component allow_network record_network_success record_network_failure
  reader-there m h = ground (arith, init_network-HasAll (allow_network o net.chain_id m).1)

  broadcaster-there :
      (m : Manager o)
      → (broadcaster o net m).0 ≡ none
      → (broadcaster o net m).1.broadcasters net.chain_id ≡ true
  unfolding broadcaster component allow_network record_network_success record_network_failure
  broadcaster-there m h = ground (arith, init_network-HasAll (allow_network o net.chain_id m).1)

  analyzer-there :
      (m : Manager o)
      → (analyzer o net m).0 ≡ none
      → (analyzer o net m).1.analyzers net.chain_id ≡ true
  unfolding analyzer component allow_network record_network_success record_network_failure
  analyzer-there m h = ground (arith, init_network-HasAll (allow_network o net.chain_id m).1)

  component-IsWatched :
      ((w : o.World) → (o.make_monitor net w).0 ≡ true)
      → (there : Manager o → Bool) (m : Manager o) → IsWatched o net.chain_id m
      → IsWatched o net.chain_id (component o there net m).1
  unfolding component allow_network record_network_success record_network_failure
  component-IsWatched makes there m h =
      ground (arith, init_network-IsWatched makes (allow_network o net.chain_id m).1 h)

  -- Broadcaster, called on a manager that has a monitor beside each broadcaster, leaves both there when it
  -- answers no error, where the factory makes a monitor.
  pub broadcaster_watched :
      ((w : o.World) → (o.make_monitor net w).0 ≡ true)
      → (m : Manager o) → IsWatched o net.chain_id m
      → (broadcaster o net m).0 ≡ none
      → ((broadcaster o net m).1.broadcasters net.chain_id ≡ true)
        × ((broadcaster o net m).1.tx_monitors net.chain_id ≡ true)
  unfolding broadcaster
  broadcaster_watched makes m h e = ground (
    arith,
    component-IsWatched makes (λ m'. m'.broadcasters net.chain_id) m h,
    broadcaster-there m e,
  )
