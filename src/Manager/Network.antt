-- ===== src/Manager/Network.antt =====
-- manager_network.go: the components of a network behind its circuit breaker, and the gas settings.
pub mod Frame
pub mod Ready
use walletarmy.Common.{
  ℕ, Bool, true, false, not, ◌&&◌, ◌||◌, Option, none, some, ℤ, pos, ◌-ℤ◌, lebℤ, ltbℤ, ◌==◌,
  if◌then◌else◌,
}
use walletarmy.Outside.{
  Outside, Error, Except, ok, err, sentinel, wrapped, circuit_breaker_open, Network,
}
use walletarmy.Breaker.{allow, record_success, record_failure, seconds, reset, Stats, stats}
use walletarmy.Manager.{
  Manager, GasInfo, Action, pure, ◌>>=◌, ◌>>◌, outside, modify, set_at, get_circuit_breaker,
  set_circuit_breaker,
}
use walletarmy.Common.Text.{codes}

module _ (o : Outside) where
  unfoldable pub allow_network : ℕ → Action (Manager o) Bool
  allow_network chain = do
    now ← outside o o.now
    λ m. (
      allow now (get_circuit_breaker o chain m),
      set_circuit_breaker o chain (get_circuit_breaker o chain m) m,
    )

  unfoldable pub record_network_success : ℕ → Action (Manager o) (Unit {0})
  record_network_success chain = do
    now ← outside o o.now
    modify o λ m. set_circuit_breaker o chain (record_success now (get_circuit_breaker o chain m)) m

  pub record_network_failure : ℕ → Action (Manager o) (Unit {0})
  record_network_failure chain = do
    now ← outside o o.now
    modify o λ m. set_circuit_breaker o chain (record_failure now (get_circuit_breaker o chain m)) m

  -- A part of `initNetwork`: make the component if it is missing.
  abbrev ensure :
      Bool
      → Action (Manager o) (Option Error)
      → (Manager o → Manager o)
      → Action (Manager o) (Option Error)
  ensure true make store = pure none
  ensure false make store = do
    failed ← make
    elim failed [ none ↦ (do modify o store; pure none) | some e ↦ pure (some e) ]

  abbrev or_else :
      Option Error → Action (Manager o) (Option Error) → Action (Manager o) (Option Error)
  or_else none next = next
  or_else (some e) next = pure (some e)

  abbrev ensure_monitor : Bool → Network → Action (Manager o) (Option Error)
  ensure_monitor true net = pure none
  ensure_monitor false net = do
    made ← outside o (o.make_monitor net)
    modify o λ m. record m {
      tx_monitors = if made then set_at net.chain_id true m.tx_monitors else m.tx_monitors;
    }
    pure none

  unfoldable pub init_network : Network → Action (Manager o) (Option Error)
  init_network net m =
      (do
        e ←
            ensure (m.readers net.chain_id) (outside o (o.make_reader net))
              (λ m. record m { readers = set_at net.chain_id true m.readers })
        or_else e (do
          e ←
              ensure (m.analyzers net.chain_id) (outside o (o.make_analyzer net))
                (λ m. record m { analyzers = set_at net.chain_id true m.analyzers })
          or_else e (do
            e ←
                ensure (m.broadcasters net.chain_id) (outside o (o.make_broadcaster net))
                  (λ m. record m { broadcasters = set_at net.chain_id true m.broadcasters })
            or_else e (ensure_monitor (m.tx_monitors net.chain_id) net))))
        m

  -- The common body of `Reader`, `Broadcaster` and `Analyzer`: `there` reads their map.
  unfoldable pub component : (Manager o → Bool) → Network → Action (Manager o) (Option Error)
  component there net = do
    allowed ← allow_network net.chain_id
    if allowed
        then (do
          present ← λ m. (there m, m)
          e ← if present then pure none else init_network net
          elim e [
            | none ↦ (do record_network_success net.chain_id; pure none)
            | some e ↦ (do
              record_network_failure net.chain_id
              pure (some (wrapped (codes "couldn't init") e)))
          ])
        else pure (some (sentinel circuit_breaker_open))

  unfoldable pub reader : Network → Action (Manager o) (Option Error)
  reader net = component (λ m. m.readers net.chain_id) net

  unfoldable pub broadcaster : Network → Action (Manager o) (Option Error)
  broadcaster net = component (λ m. m.broadcasters net.chain_id) net

  unfoldable pub analyzer : Network → Action (Manager o) (Option Error)
  analyzer net = component (λ m. m.analyzers net.chain_id) net

  unfoldable pub get_circuit_breaker_stats : Network → Action (Manager o) Stats
  get_circuit_breaker_stats net = do
    now ← outside o o.now
    λ m. (
      stats now (get_circuit_breaker o net.chain_id m),
      set_circuit_breaker o net.chain_id (get_circuit_breaker o net.chain_id m) m,
    )

  unfoldable pub reset_circuit_breaker : Network → Action (Manager o) (Unit {0})
  reset_circuit_breaker net =
      modify o
        λ m. set_circuit_breaker o net.chain_id (reset (get_circuit_breaker o net.chain_id m)) m
