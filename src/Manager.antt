-- ===== src/Manager.antt =====
-- manager.go: the state of a `WalletManager`, and the actions on it. A map is a function of its
-- keys; a lock is held for the whole of each body that it protects, and has no state of its own.
pub mod Network
pub mod Nonces
pub mod Gas
pub mod Accounts
pub mod Options
use walletarmy.Common.{ℕ, Bool, true, false, Option, none, some, ℤ, ◌==◌, ◌&&◌, if◌then◌else◌}
use walletarmy.Outside.{Outside, Error, Except}
use walletarmy.Breaker.{CircuitBreaker, default_config, new}
use walletarmy.Nonce.{Tracker}
use walletarmy.Idempotency.{InMemoryStore}
use walletarmy.Defaults.{ManagerDefaults}

-- `GasInfo` of gas_info.go, without `BaseGasPrice`, which is always nil.
pub record GasInfo (o : Outside) : Type 0 where
  pub gas_price : o.Float
  pub max_priority_price : o.Float
  pub fee_per_gas : o.Float
  pub timestamp : ℤ

pub record Manager (o : Outside) : Type 0 where
  pub nonce_tracker : Tracker
  pub circuit_breakers : ℕ → Option CircuitBreaker
  -- whether a reader, an analyzer, a broadcaster, a monitor is there, by chain
  pub readers : ℕ → Bool
  pub analyzers : ℕ → Bool
  pub broadcasters : ℕ → Bool
  pub tx_monitors : ℕ → Bool
  pub accounts : ℕ → Bool
  -- by wallet, chain and nonce
  pub txs : ℕ → ℕ → ℕ → Option o.Tx
  pub gas_settings : ℕ → Option (GasInfo o)
  pub defaults : ManagerDefaults o
  pub idempotency_store : Option (InMemoryStore o.Tx o.Receipt Error)
  pub has_tx_store : Bool
  pub has_nonce_store : Bool
  pub world : o.World

abbrev pub set_at {ℓ} : {A : Type ℓ} → ℕ → A → (ℕ → A) → ℕ → A
set_at key a m k = if k == key then a else m k

-- An action on a state: a method reads and writes it and returns a value.
abbrev pub Action {ℓ} : Type ℓ → Type ℓ → Type ℓ
Action S A = S → A × S

module _ {ℓ} {S A : Type ℓ} where
  abbrev pub pure : A → Action S A
  pure a s = (a, s)

  infixl 10 ◌>>=◌ ◌>>◌
  abbrev pub ◌>>=◌ : {B : Type ℓ} → Action S A → (A → Action S B) → Action S B
  ◌>>=◌ m f s = let (a, s') = m s in f a s'

  abbrev pub ◌>>◌ : {B : Type ℓ} → Action S A → Action S B → Action S B
  m >> k = m >>= λ _. k

module _ (o : Outside) where
  -- A call of the outside.
  abbrev pub outside : {A : Type 0} → (o.World → A × o.World) → Action (Manager o) A
  outside call m = let (a, w) = call m.world in (a, record m { world = w })

  abbrev pub modify : (Manager o → Manager o) → Action (Manager o) (Unit {0})
  modify f m = (tt, f m)

  abbrev breaker_or_new : Option CircuitBreaker → CircuitBreaker
  breaker_or_new none = new default_config
  breaker_or_new (some cb) = cb

  abbrev pub get_circuit_breaker : ℕ → Manager o → CircuitBreaker
  get_circuit_breaker chain m = breaker_or_new (m.circuit_breakers chain)

  abbrev pub set_circuit_breaker : ℕ → CircuitBreaker → Manager o → Manager o
  set_circuit_breaker chain cb m = record m {
    circuit_breakers = set_at chain (some cb) m.circuit_breakers;
  }
