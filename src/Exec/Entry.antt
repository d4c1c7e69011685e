-- ===== src/Exec/Entry.antt =====
-- The entry points of manager_tx.go that run the loop: `EnsureTx`, `EnsureTxWithHooks`,
-- `EnsureTxWithHooksContext`, `ResumePendingTransaction`. The ABIs serve only the error decoder.
pub mod Resume
use walletarmy.Common.{
  ℕ, ◌%◌, ◌^◌, Bool, true, false, Option, none, some, List, [], ◌∷◌, ℤ, pos, if◌then◌else◌,
}
use walletarmy.Common.Text.{Text, codes}
use walletarmy.Outside.{Outside, Error, Except, ok, err, plain, wrapped, Network, PendingTx}
use walletarmy.Defaults.{
  ManagerDefaults, default_num_retries, default_duration, positive_or, positive_float_or,
  zero_float, max_cap_multiplier,
}
use walletarmy.Manager.{Manager, Action, pure, ◌>>=◌}
use walletarmy.Exec.{TxParams, RetryConfig, GasBounds, TxHooks, TxRetryState, Config, Machine}
use walletarmy.Exec.Context.{Given, new_context}
use walletarmy.Exec.Loop.{Final, Round, ends, crashes, execute_loop}

-- What the callers of the loop fix, besides the parameters of the transaction.
pub record Choices (o : Outside) : Type 0 where
  pub num_retries : ℤ
  pub sleep_duration : ℤ
  pub tx_check_interval : ℤ
  pub gas_limit : ℕ
  pub extra_gas_limit : ℕ
  pub gas_price : o.Float
  pub extra_gas_price : o.Float
  pub tip_cap : o.Float
  pub extra_tip_cap : o.Float
  pub max_gas_price : o.Float
  pub max_tip_cap : o.Float
  pub hooks : TxHooks o

-- `ResumeTransactionOptions` of persistence.go.
pub record ResumeOptions (o : Outside) : Type 0 where
  pub num_retries : ℤ
  pub sleep_duration : ℤ
  pub tx_check_interval : ℤ
  pub max_gas_price : o.Float
  pub max_tip_cap : o.Float
  pub tx_mined_hook : Option (o.Tx → Option o.Receipt → o.World → Option Error × o.World)

module _ (o : Outside) where
  abbrev pub fails_with : Error → Round o
  fails_with e = ends (record { transaction = none; receipt = none; error = some e })

  abbrev pub no_hooks : TxHooks o
  no_hooks = record {
    before_sign_and_broadcast = none;
    after_sign_and_broadcast = none;
    gas_estimation_failed = none;
    simulation_failed = none;
    tx_mined = none;
  }

  -- The loop on a retry state of its own, which the caller does not see.
  abbrev pub run_loop : ℕ → Config o → TxRetryState o → Action (Manager o) (Round o)
  run_loop rounds cfg st m =
      let (r, x) = execute_loop o cfg rounds (record { manager = m; state = st }) in (r, x.manager)

  abbrev pub retry_config : Choices o → ManagerDefaults o → RetryConfig
  retry_config c d = record {
    max_attempts = c.num_retries;
    sleep_duration = c.sleep_duration;
    tx_check_interval = c.tx_check_interval;
    slow_tx_timeout = d.slow_tx_timeout;
  }

  abbrev pub gas_bounds : Choices o → ManagerDefaults o → GasBounds o
  gas_bounds c d = record {
    extra_gas_limit = c.extra_gas_limit;
    extra_gas_price = c.extra_gas_price;
    extra_tip_cap = c.extra_tip_cap;
    max_gas_price = c.max_gas_price;
    max_tip_cap = c.max_tip_cap;
    gas_price_bump_factor = d.gas_price_bump_factor;
    tip_cap_bump_factor = d.tip_cap_bump_factor;
  }

  abbrev with_context :
      ℕ → Choices o → Except (Config o × TxRetryState o) → Action (Manager o) (Round o)
  with_context rounds c (err e) = pure (fails_with e)
  with_context rounds c (ok (cfg, st)) = run_loop rounds cfg (record st { gas_limit = c.gas_limit })

  -- A context, and the loop: what `EnsureTxWithHooksContext` and `executeInternal` do.
  unfoldable pub execute_new : ℕ → Given o → Choices o → Action (Manager o) (Round o)
  execute_new rounds given c m =
      with_context rounds c
        (new_context o given (retry_config c m.defaults) (gas_bounds c m.defaults) c.hooks
          c.gas_price c.tip_cap)
        m

  -- It has no argument to skip the simulation.
  unfoldable pub ensure_tx_with_hooks_context :
      ℕ → Given o → Choices o → Action (Manager o) (Round o)
  ensure_tx_with_hooks_context rounds given c =
      execute_new rounds (record given { skip_simulation = false }) c

  -- `EnsureTxWithHooks`, which has no argument for two of the hooks.
  unfoldable pub ensure_tx_with_hooks : ℕ → Given o → Choices o → Action (Manager o) (Round o)
  ensure_tx_with_hooks rounds given c =
      ensure_tx_with_hooks_context rounds given
        (record c { hooks = record c.hooks { simulation_failed = none; tx_mined = none } })

  -- `EnsureTx`
  unfoldable pub ensure_tx :
      ℕ → Given o → ℕ → ℕ → o.Float → o.Float → o.Float → o.Float → Action (Manager o) (Round o)
  ensure_tx rounds given gas_limit extra_gas_limit gas_price extra_gas_price tip_cap extra_tip_cap =
      ensure_tx_with_hooks rounds given (record {
        num_retries = default_num_retries;
        sleep_duration = default_duration;
        tx_check_interval = default_duration;
        gas_limit = gas_limit;
        extra_gas_limit = extra_gas_limit;
        gas_price = gas_price;
        extra_gas_price = extra_gas_price;
        tip_cap = tip_cap;
        extra_tip_cap = extra_tip_cap;
        max_gas_price = zero_float o;
        max_tip_cap = zero_float o;
        hooks = no_hooks;
      })

  abbrev pub tx_gas_price : o.Tx → o.Float
  tx_gas_price tx = o.gwei_of (o.gas_price_of tx % 2 ^ 64)

  abbrev pub tx_tip_cap : o.Tx → o.Float
  tx_tip_cap tx = o.gwei_of (o.tip_cap_of tx % 2 ^ 64)

  abbrev pub resumed_config :
      ResumeOptions o → ManagerDefaults o → ℕ → o.Tx → ℕ → Network → Config o
  resumed_config opts d wallet tx to net = record {
    params = record {
      tx_type = o.type_of tx;
      from = wallet;
      to = to;
      value = o.value_of tx;
      payload = o.payload_of tx;
      network = net;
      skip_simulation = false;
    };
    retry = record {
      max_attempts = positive_or default_num_retries opts.num_retries;
      sleep_duration = positive_or default_duration opts.sleep_duration;
      tx_check_interval = positive_or default_duration opts.tx_check_interval;
      slow_tx_timeout = d.slow_tx_timeout;
    };
    gas = record {
      extra_gas_limit = 0;
      extra_gas_price = zero_float o;
      extra_tip_cap = zero_float o;
      max_gas_price =
          positive_float_or o (o.times (tx_gas_price tx) (max_cap_multiplier o)) opts.max_gas_price;
      max_tip_cap =
          positive_float_or o (o.times (tx_tip_cap tx) (max_cap_multiplier o)) opts.max_tip_cap;
      gas_price_bump_factor = d.gas_price_bump_factor;
      tip_cap_bump_factor = d.tip_cap_bump_factor;
    };
    hooks = record no_hooks { tx_mined = opts.tx_mined_hook };
  }

  abbrev pub resumed_state : o.Tx → TxRetryState o
  resumed_state tx = record {
    attempt_count = 0;
    gas_price = tx_gas_price tx;
    tip_cap = tx_tip_cap tx;
    gas_limit = o.gas_of tx;
    nonce = some (o.nonce_of tx);
    old_txs = (o.hash_of tx, tx) ∷ [];
    resume_with = some tx;
  }

  -- `*tx.To()` of a contract creation is the dereference of nil.
  abbrev resume_to :
      ℕ → ResumeOptions o → ℕ → o.Tx → Network → Option ℕ → Action (Manager o) (Round o)
  resume_to rounds opts wallet tx net none m = (crashes, m)
  resume_to rounds opts wallet tx net (some to) m =
      run_loop rounds (resumed_config opts m.defaults wallet tx to net) (resumed_state tx) m

  abbrev resume_on : ℕ → ResumeOptions o → ℕ → o.Tx → Except Network → Action (Manager o) (Round o)
  resume_on rounds opts wallet tx (err e) =
      pure (fails_with (wrapped (codes "failed to get network for chainID") e))
  resume_on rounds opts wallet tx (ok net) = resume_to rounds opts wallet tx net (o.to_of tx)

  abbrev resume_tx :
      ℕ → ResumeOptions o → PendingTx o.Tx o.Receipt → Option o.Tx → Action (Manager o) (Round o)
  resume_tx rounds opts p none =
      pure (fails_with (plain (codes "pendingTx.Transaction cannot be nil")))
  resume_tx rounds opts p (some tx) =
      resume_on rounds opts p.wallet tx (o.resolve_network p.chain_id)

  -- `ResumePendingTransaction`
  unfoldable pub resume_pending_transaction :
      ℕ → ResumeOptions o → Option (PendingTx o.Tx o.Receipt) → Action (Manager o) (Round o)
  resume_pending_transaction rounds opts none =
      pure (fails_with (plain (codes "pendingTx cannot be nil")))
  resume_pending_transaction rounds opts (some p) = resume_tx rounds opts p p.transaction
