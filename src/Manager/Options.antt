-- ===== src/Manager/Options.antt =====
-- options.go and the constructor of manager.go. The factories and the network resolver that options
-- may set are those of `Outside`: a manager is used with the ones that it was given.
use walletarmy.Common.{ℕ, true, false, Option, none, some, List, [], ◌∷◌, ℤ}
use walletarmy.Outside.{Outside, Error, Network}
use walletarmy.Nonce.{new_tracker}
use walletarmy.Idempotency.{InMemoryStore, new_store}
use walletarmy.Defaults.{ManagerDefaults, zero_defaults, resolve}
use walletarmy.Manager.{Manager, Action, modify}

-- What an option of the package sets: one constructor for each `With...` that sets a value of the
-- manager.
pub data ManagerOption (o : Outside) : Type 0 where
  with_idempotency_store : InMemoryStore o.Tx o.Receipt Error → ManagerOption o
  with_default_idempotency_store : ℤ → ManagerOption o
  with_default_num_retries : ℤ → ManagerOption o
  with_default_sleep_duration : ℤ → ManagerOption o
  with_default_tx_check_interval : ℤ → ManagerOption o
  with_default_extra_gas_limit : ℕ → ManagerOption o
  with_default_extra_gas_price : o.Float → ManagerOption o
  with_default_extra_tip_cap : o.Float → ManagerOption o
  with_default_max_gas_price : o.Float → ManagerOption o
  with_default_max_tip_cap : o.Float → ManagerOption o
  with_default_network : Option Network → ManagerOption o
  with_default_tx_type : ℕ → ManagerOption o
  with_default_slow_tx_timeout : ℤ → ManagerOption o
  with_default_gas_price_bump_factor : o.Float → ManagerOption o
  with_default_tip_cap_bump_factor : o.Float → ManagerOption o
  with_defaults : ManagerDefaults o → ManagerOption o
  with_nonce_store with_tx_store : ManagerOption o

module _ (o : Outside) where
  abbrev on_defaults : (ManagerDefaults o → ManagerDefaults o) → Manager o → Manager o
  on_defaults f m = record m { defaults = f m.defaults }

  unfoldable pub apply_option : ManagerOption o → Manager o → Manager o
  apply_option (with_idempotency_store s) m = record m { idempotency_store = some s }
  apply_option (with_default_idempotency_store ttl) m = record m {
    idempotency_store = some (new_store ttl);
  }
  apply_option (with_default_num_retries n) m = on_defaults (λ d. record d { num_retries = n }) m
  apply_option (with_default_sleep_duration t) m =
      on_defaults (λ d. record d { sleep_duration = t }) m
  apply_option (with_default_tx_check_interval t) m =
      on_defaults (λ d. record d { tx_check_interval = t }) m
  apply_option (with_default_extra_gas_limit n) m =
      on_defaults (λ d. record d { extra_gas_limit = n }) m
  apply_option (with_default_extra_gas_price x) m =
      on_defaults (λ d. record d { extra_gas_price = x }) m
  apply_option (with_default_extra_tip_cap x) m =
      on_defaults (λ d. record d { extra_tip_cap = x }) m
  apply_option (with_default_max_gas_price x) m =
      on_defaults (λ d. record d { max_gas_price = x }) m
  apply_option (with_default_max_tip_cap x) m = on_defaults (λ d. record d { max_tip_cap = x }) m
  apply_option (with_default_network n) m = on_defaults (λ d. record d { network = n }) m
  apply_option (with_default_tx_type n) m = on_defaults (λ d. record d { tx_type = n }) m
  apply_option (with_default_slow_tx_timeout t) m =
      on_defaults (λ d. record d { slow_tx_timeout = t }) m
  apply_option (with_default_gas_price_bump_factor x) m =
      on_defaults (λ d. record d { gas_price_bump_factor = x }) m
  apply_option (with_default_tip_cap_bump_factor x) m =
      on_defaults (λ d. record d { tip_cap_bump_factor = x }) m
  apply_option (with_defaults d) m = on_defaults (λ _. d) m
  apply_option with_nonce_store m = record m { has_nonce_store = true }
  apply_option with_tx_store m = record m { has_tx_store = true }

  abbrev blank_manager : o.World → Manager o
  blank_manager w = record {
    nonce_tracker = new_tracker;
    circuit_breakers = λ chain. none;
    readers = λ chain. false;
    analyzers = λ chain. false;
    broadcasters = λ chain. false;
    tx_monitors = λ chain. false;
    accounts = λ wallet. false;
    txs = λ wallet chain nonce. none;
    gas_settings = λ chain. none;
    defaults = zero_defaults o;
    idempotency_store = none;
    has_tx_store = false;
    has_nonce_store = false;
    world = w;
  }

  unfoldable pub apply_options : List (ManagerOption o) → Manager o → Manager o
  apply_options [] m = m
  apply_options (option ∷ options) m = apply_options options (apply_option option m)

  abbrev pub resolve_defaults : Manager o → Manager o
  resolve_defaults m = record m { defaults = resolve o m.defaults }

  -- `NewWalletManager`
  unfoldable pub new_wallet_manager : List (ManagerOption o) → o.World → Manager o
  new_wallet_manager options w = resolve_defaults (apply_options options (blank_manager w))

  unfoldable pub set_defaults : ManagerDefaults o → Action (Manager o) (Unit {0})
  set_defaults d = modify o λ m. resolve_defaults (record m { defaults = d })
