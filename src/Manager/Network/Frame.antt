-- ===== src/Manager/Network/Frame.antt =====
-- Reaching a network, its gas settings and its breaker changes no nonce: manager_network.go.
use walletarmy.Common.{◌≡◌, ◌∙◌, Bool, arith}
use walletarmy.Outside.{Outside, Network}
use walletarmy.Manager.{Manager, Action, ◌>>=◌}
use walletarmy.Manager.Network.{
  allow_network, record_network_success, record_network_failure, init_network, component, reader,
  broadcaster,
}

-- An action that leaves the tracker as it is.
abbrev pub KeepsTracker : (o : Outside) {A : Type 0} → Action (Manager o) A → Type 0
KeepsTracker o act = (m : Manager o) → (act m).1.nonce_tracker ≡ m.nonce_tracker

module _ (o : Outside) where
  init-KeepsTracker : (net : Network) → KeepsTracker o (init_network o net)
  unfolding init_network
  init-KeepsTracker net m = ground arith

  component-KeepsTracker :
      (there : Manager o → Bool) (net : Network) → KeepsTracker o (component o there net)
  unfolding component allow_network record_network_success record_network_failure
  component-KeepsTracker there net m =
      ground (arith, init-KeepsTracker net (allow_network o net.chain_id m).1)

  pub reader-KeepsTracker : (net : Network) → KeepsTracker o (reader o net)
  unfolding reader
  reader-KeepsTracker net = component-KeepsTracker _ net

  pub broadcaster-KeepsTracker : (net : Network) → KeepsTracker o (broadcaster o net)
  unfolding broadcaster
  broadcaster-KeepsTracker net = component-KeepsTracker _ net

-- Actions in a row.
pub bind-KeepsTracker :
    (o : Outside) {A B : Type 0} (act : Action (Manager o) A) (next : A → Action (Manager o) B)
    → KeepsTracker o act
    → ((a : A) → KeepsTracker o (next a))
    → KeepsTracker o (act >>= next)
bind-KeepsTracker o act next h k m = k (act m).0 (act m).1 ∙ h m
