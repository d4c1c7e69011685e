-- ===== src/Defaults.antt =====
-- `ManagerDefaults` of types.go, and how manager.go fills in what is not set.
pub mod Resolved
use walletarmy.Common.{ℕ, Bool, Option, none, some, ℤ, pos, lebℤ, if◌then◌else◌}
use walletarmy.Outside.{Outside, Network}
use walletarmy.Breaker.{seconds}

pub record ManagerDefaults (o : Outside) : Type 0 where
  pub num_retries : ℤ
  pub sleep_duration : ℤ
  pub tx_check_interval : ℤ
  pub slow_tx_timeout : ℤ
  pub extra_gas_limit : ℕ
  pub extra_gas_price : o.Float
  pub extra_tip_cap : o.Float
  pub max_gas_price : o.Float
  pub max_tip_cap : o.Float
  pub gas_price_bump_factor : o.Float
  pub tip_cap_bump_factor : o.Float
  pub network : Option Network
  pub tx_type : ℕ

-- The constants of types.go.
abbrev pub default_num_retries : ℤ
default_num_retries = pos 9

abbrev pub default_duration : ℤ
default_duration = seconds 5

-- `if z <= 0 { z = d }`
abbrev pub positive_or : ℤ → ℤ → ℤ
positive_or d z = if lebℤ z (pos 0) then d else z

module _ (o : Outside) where
  abbrev pub zero_float : o.Float
  zero_float = o.literal 0 1

  abbrev pub default_gas_price_bump_factor : o.Float
  default_gas_price_bump_factor = o.literal 12 10

  abbrev pub default_tip_cap_bump_factor : o.Float
  default_tip_cap_bump_factor = o.literal 11 10

  abbrev pub max_cap_multiplier : o.Float
  max_cap_multiplier = o.literal 5 1

  -- The zero value of the struct.
  abbrev pub zero_defaults : ManagerDefaults o
  zero_defaults = record {
    num_retries = pos 0;
    sleep_duration = pos 0;
    tx_check_interval = pos 0;
    slow_tx_timeout = pos 0;
    extra_gas_limit = 0;
    extra_gas_price = zero_float;
    extra_tip_cap = zero_float;
    max_gas_price = zero_float;
    max_tip_cap = zero_float;
    gas_price_bump_factor = zero_float;
    tip_cap_bump_factor = zero_float;
    network = none;
    tx_type = 0;
  }

  abbrev pub positive_float_or : o.Float → o.Float → o.Float
  positive_float_or d x = if o.at_most x zero_float then d else x

  abbrev or_mainnet : Option Network → Option Network
  or_mainnet none = some o.ethereum_mainnet
  or_mainnet (some net) = some net

  -- `applyDefaultsResolution`
  unfoldable pub resolve : ManagerDefaults o → ManagerDefaults o
  resolve d = record d {
    num_retries = positive_or default_num_retries d.num_retries;
    sleep_duration = positive_or default_duration d.sleep_duration;
    tx_check_interval = positive_or default_duration d.tx_check_interval;
    slow_tx_timeout = positive_or default_duration d.slow_tx_timeout;
    gas_price_bump_factor = positive_float_or default_gas_price_bump_factor d.gas_price_bump_factor;
    tip_cap_bump_factor = positive_float_or default_tip_cap_bump_factor d.tip_cap_bump_factor;
    network = or_mainnet d.network;
  }
