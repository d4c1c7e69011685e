-- ===== src/Exec/Context.antt =====
-- execution_context.go: `NewTxExecutionContext`, and what a bump and a count do to the retry state.
pub mod Caps
use walletarmy.Common.{
  ℕ, ◌≡◌, ◌⊎◌, Bool, true, false, Option, none, some, [], arith, pos, ◌≤ℤ◌, ltbℤ, ◌==◌,
  if◌then◌else◌,
}
use walletarmy.Common.Text.{Text}
use walletarmy.Outside.{Outside, Except, ok, err, sentinel, from_address_zero, network_nil, Network}
use walletarmy.Defaults.{
  positive_or, default_duration, max_cap_multiplier, default_gas_price_bump_factor,
  default_tip_cap_bump_factor,
}
use walletarmy.Exec.{
  RetryConfig, GasBounds, TxHooks, TxRetryState, Config, Machine, bump_gas_for_slow_tx, over,
}

-- The arguments of a caller, where the network and the value may be nil.
pub record Given (o : Outside) : Type 0 where
  pub tx_type : ℕ
  pub from : ℕ
  pub to : ℕ
  pub value : Option ℕ
  pub payload : Text
  pub network : Option Network
  pub skip_simulation : Bool

module _ (o : Outside) where
  abbrev zero_or : o.Float → o.Float → o.Float
  zero_or d x = if o.is_zero x then d else x

  abbrev sanitize_retry : RetryConfig → RetryConfig
  sanitize_retry r = record {
    max_attempts = if ltbℤ r.max_attempts (pos 0) then pos 0 else r.max_attempts;
    sleep_duration = positive_or default_duration r.sleep_duration;
    tx_check_interval = positive_or default_duration r.tx_check_interval;
    slow_tx_timeout = positive_or default_duration r.slow_tx_timeout;
  }

  abbrev sanitize_gas : GasBounds o → o.Float → o.Float → GasBounds o
  sanitize_gas g price tip = record g {
    max_gas_price = zero_or (o.times price (max_cap_multiplier o)) g.max_gas_price;
    max_tip_cap = zero_or (o.times tip (max_cap_multiplier o)) g.max_tip_cap;
    gas_price_bump_factor = zero_or (default_gas_price_bump_factor o) g.gas_price_bump_factor;
    tip_cap_bump_factor = zero_or (default_tip_cap_bump_factor o) g.tip_cap_bump_factor;
  }

  abbrev or_zero : Option ℕ → ℕ
  or_zero none = 0
  or_zero (some v) = v

  abbrev context_on :
      Given o
      → Network
      → RetryConfig
      → GasBounds o
      → TxHooks o
      → o.Float
      → o.Float
      → Config o × TxRetryState o
  context_on given net retry gas hooks price tip = (
    record {
      params = record {
        tx_type = given.tx_type;
        from = given.from;
        to = given.to;
        value = or_zero given.value;
        payload = given.payload;
        network = net;
        skip_simulation = given.skip_simulation;
      };
      retry = sanitize_retry retry;
      gas = sanitize_gas gas price tip;
      hooks = hooks;
    },
    record {
      attempt_count = 0;
      gas_price = price;
      tip_cap = tip;
      gas_limit = 0;
      nonce = none;
      old_txs = [];
      resume_with = none;
    },
  )

  -- `NewTxExecutionContext`
  unfoldable pub new_context :
      Given o
      → RetryConfig
      → GasBounds o
      → TxHooks o
      → o.Float
      → o.Float
      → Except (Config o × TxRetryState o)
  new_context given retry gas hooks price tip =
      if given.from == 0 then err (sentinel from_address_zero) else elim given.network [
        | none ↦ err (sentinel network_nil)
        | some net ↦ ok (context_on given net retry gas hooks price tip)
      ]

-- A context that was created has a sender, no negative number of attempts and positive durations,
-- and starts with no attempt counted, no nonce and no transaction.
new_context-sane :
    (o : Outside) (given : Given o) (retry : RetryConfig) (gas : GasBounds o) (hooks : TxHooks o)
    (price tip : o.Float) (cfg : Config o) (st : TxRetryState o)
    → new_context o given retry gas hooks price tip ≡ ok (cfg, st)
    → ((cfg.params.from == 0) ≡ false)
      × (pos 0 ≤ℤ cfg.retry.max_attempts)
      × (pos 1 ≤ℤ cfg.retry.sleep_duration)
      × (pos 1 ≤ℤ cfg.retry.tx_check_interval)
      × (pos 1 ≤ℤ cfg.retry.slow_tx_timeout)
      × (st.attempt_count ≡ 0)
      × (st.nonce ≡ none)
      × (st.old_txs ≡ [])
unfolding new_context
new_context-sane o given retry gas hooks price tip cfg st e = ground arith

-- A bump either leaves the machine as it is, because a cap would be exceeded, or changes only the
-- prices and the nonce: the prices stay within the caps and the nonce is that of the transaction.
bump-cases :
    (o : Outside) (cfg : Config o) (tx : o.Tx) (x : Machine o)
    → let (bumped, x') = bump_gas_for_slow_tx o cfg tx x in
      ((bumped ≡ false) × (x' ≡ x))
      ⊎ ((bumped ≡ true)
          × (over o cfg.gas.max_gas_price x'.state.gas_price ≡ false)
          × (over o cfg.gas.max_tip_cap x'.state.tip_cap ≡ false)
          × (x'.state.nonce ≡ some (o.nonce_of tx))
          × (x'.state.attempt_count ≡ x.state.attempt_count)
          × (x'.state.old_txs ≡ x.state.old_txs)
          × (x'.manager ≡ x.manager))
unfolding bump_gas_for_slow_tx
bump-cases o cfg tx x = ground arith
