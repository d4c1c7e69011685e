-- ===== src/Defaults/Resolved.antt =====
-- What `applyDefaultsResolution` of manager.go promises.
use walletarmy.Common.{◌≡◌, ◌⊎◌, false, Option, none, some, arith, pos, ◌≤ℤ◌}
use walletarmy.Outside.{Outside, Network}
use walletarmy.Defaults.{
  ManagerDefaults, resolve, zero_float, default_gas_price_bump_factor, default_tip_cap_bump_factor,
}

-- Positive counts and durations, a network, and bump factors that are set or the package's own.
pub record IsResolved (o : Outside) (d : ManagerDefaults o) : Type 0 where
  pub retries : pos 1 ≤ℤ d.num_retries
  pub sleep : pos 1 ≤ℤ d.sleep_duration
  pub interval : pos 1 ≤ℤ d.tx_check_interval
  pub timeout : pos 1 ≤ℤ d.slow_tx_timeout
  pub price_factor :
      (o.at_most d.gas_price_bump_factor (zero_float o) ≡ false)
      ⊎ (d.gas_price_bump_factor ≡ default_gas_price_bump_factor o)
  pub tip_factor :
      (o.at_most d.tip_cap_bump_factor (zero_float o) ≡ false)
      ⊎ (d.tip_cap_bump_factor ≡ default_tip_cap_bump_factor o)
  pub network : (net : Network) × (d.network ≡ some net)

module _ (o : Outside) where
  resolved_network :
      (d : ManagerDefaults o) (n : Option Network)
      → d.network ≡ n
      → (net : Network) × ((resolve o d).network ≡ some net)
  unfolding resolve
  resolved_network d none e = (o.ethereum_mainnet, ground arith)
  resolved_network d (some net) e = (net, ground arith)

  -- Whatever a caller sets, the defaults that are resolved are positive.
  pub resolve-IsResolved : (d : ManagerDefaults o) → IsResolved o (resolve o d)
  unfolding resolve
  resolve-IsResolved d = record {
    retries = ground arith;
    sleep = ground arith;
    interval = ground arith;
    timeout = ground arith;
    price_factor = ground arith;
    tip_factor = ground arith;
    network = resolved_network d d.network (λ i. d.network);
  }

  -- Resolving defaults that are resolved changes nothing but that.
  pub resolve-resolve : (d : ManagerDefaults o) → resolve o (resolve o d) ≡ resolve o d
  unfolding resolve
  resolve-resolve d = ground arith
