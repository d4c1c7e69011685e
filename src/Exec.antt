-- ===== src/Exec.antt =====
-- execution_context.go and types.go: the configuration of one execution, which does not change, and
-- its retry state, which does.
pub mod Context
pub mod Build
pub mod Monitor
pub mod Handlers
pub mod Attempt
pub mod Submit
pub mod Loop
pub mod Entry
pub mod Tests
use walletarmy.Common.{
  ℕ, suc, Bool, true, false, not, ◌&&◌, Option, none, some, List, [], ◌∷◌, ℤ, pos, ltbℤ, lebℤ, ◌==◌,
  if◌then◌else◌,
}
use walletarmy.Common.Text.{Text, codes}
use walletarmy.Outside.{
  Outside, Error, Except, ok, err, sentinel, join, plain, from_address_zero, network_nil,
  out_of_retries, Network,
}
use walletarmy.Breaker.{seconds}
use walletarmy.Manager.{Manager, Action, pure}

pub data LoopAction : Type 0 where
  continue_to_monitor retry return : LoopAction

pub record TxExecutionResult (o : Outside) : Type 0 where
  pub transaction : Option o.Tx
  pub receipt : Option o.Receipt
  pub action : LoopAction
  pub error : Option Error

pub record TxParams (o : Outside) : Type 0 where
  pub tx_type : ℕ
  pub from : ℕ
  pub to : ℕ
  pub value : ℕ
  pub payload : Text
  pub network : Network
  pub skip_simulation : Bool

pub record RetryConfig : Type 0 where
  pub max_attempts : ℤ
  pub sleep_duration : ℤ
  pub tx_check_interval : ℤ
  pub slow_tx_timeout : ℤ

pub record GasBounds (o : Outside) : Type 0 where
  pub extra_gas_limit : ℕ
  pub extra_gas_price : o.Float
  pub extra_tip_cap : o.Float
  pub max_gas_price : o.Float
  pub max_tip_cap : o.Float
  pub gas_price_bump_factor : o.Float
  pub tip_cap_bump_factor : o.Float

-- The hooks of hook.go. `gas_estimation_failed` answers a gas limit or none, `simulation_failed`
-- whether to retry.
pub record TxHooks (o : Outside) : Type 0 where
  pub before_sign_and_broadcast : Option (o.Tx → o.World → Option Error × o.World)
  pub after_sign_and_broadcast : Option (o.Tx → Option Error → o.World → Option Error × o.World)
  pub gas_estimation_failed : Option (Error → o.World → Except (Option ℕ) × o.World)
  pub simulation_failed : Option (o.Tx → Error → o.World → Except Bool × o.World)
  pub tx_mined : Option (o.Tx → Option o.Receipt → o.World → Option Error × o.World)

pub record TxRetryState (o : Outside) : Type 0 where
  pub attempt_count : ℕ
  pub gas_price : o.Float
  pub tip_cap : o.Float
  pub gas_limit : ℕ
  pub nonce : Option ℕ
  -- by hash
  pub old_txs : List (ℕ × o.Tx)
  pub resume_with : Option o.Tx

-- The immutable part of `TxExecutionContext`.
pub record Config (o : Outside) : Type 0 where
  pub params : TxParams o
  pub retry : RetryConfig
  pub gas : GasBounds o
  pub hooks : TxHooks o

-- The manager and the retry state together: what a step of the execution changes.
pub record Machine (o : Outside) : Type 0 where
  pub manager : Manager o
  pub state : TxRetryState o

-- `m[hash]`
abbrev pub lookup {ℓ} : {A : Type ℓ} → ℕ → List (ℕ × A) → Option A
lookup h [] = none
lookup h ((k, a) ∷ m) = if k == h then some a else lookup h m

-- `m[hash] = tx`
abbrev pub insert {ℓ} : {A : Type ℓ} → ℕ → A → List (ℕ × A) → List (ℕ × A)
insert h a [] = (h, a) ∷ []
insert h a ((k, b) ∷ m) = if k == h then (h, a) ∷ m else (k, b) ∷ insert h a m

module _ (o : Outside) where
  abbrev pub zero_float : o.Float
  zero_float = o.literal 0 1

  abbrev pub lift : {A : Type 0} → Action (Manager o) A → Action (Machine o) A
  lift act x = let (a, m) = act x.manager in (a, record x { manager = m })

  abbrev pub update : (TxRetryState o → TxRetryState o) → Action (Machine o) (Unit {0})
  update f x = (tt, record x { state = f x.state })

  abbrev pub result_return : Error → TxExecutionResult o
  result_return e = record { transaction = none; receipt = none; action = return; error = some e }

  abbrev pub result_retry : TxExecutionResult o
  result_retry = record { transaction = none; receipt = none; action = retry; error = none }

  abbrev pub result_give_up : o.Tx → Error → TxExecutionResult o
  result_give_up tx e = record {
    transaction = some tx;
    receipt = none;
    action = return;
    error = some e;
  }

  -- `IncrementRetryAndCheck`: a result if the attempts are used up.
  unfoldable pub increment_retry_and_check :
      Config o → Text → Action (Machine o) (Option (TxExecutionResult o))
  increment_retry_and_check cfg msg x =
      let st = record x.state { attempt_count = suc x.state.attempt_count } in
      (
        (if ltbℤ cfg.retry.max_attempts (pos st.attempt_count)
            then some (result_return (join out_of_retries (plain msg)))
            else none),
        record x { state = st },
      )

  abbrev pub over : o.Float → o.Float → Bool
  over limit price = o.greater limit zero_float && o.greater price limit

  -- `BumpGasForSlowTx` at a transaction that is not nil.
  unfoldable pub bump_gas_for_slow_tx : Config o → o.Tx → Action (Machine o) Bool
  bump_gas_for_slow_tx cfg tx x =
      let new_gas_price =
        o.times (o.big_to_float (o.gas_price_of tx)) cfg.gas.gas_price_bump_factor in
      let new_tip_cap = o.times (o.big_to_float (o.tip_cap_of tx)) cfg.gas.tip_cap_bump_factor in
      if over cfg.gas.max_gas_price new_gas_price
      then (false, x)
      else if over cfg.gas.max_tip_cap new_tip_cap
      then (false, x)
      else (
        true,
        record x {
          state = record x.state {
            gas_price = new_gas_price;
            tip_cap = new_tip_cap;
            nonce = some (o.nonce_of tx);
          };
        },
      )
