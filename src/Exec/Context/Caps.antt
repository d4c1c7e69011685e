-- ===== src/Exec/Context/Caps.antt =====
-- The caps of a context whose caller sets no price and no cap: execution_context.go.
use walletarmy.Common.{◌≡◌, true, false, arith}
use walletarmy.Outside.{Outside, ok}
use walletarmy.Defaults.{max_cap_multiplier}
use walletarmy.Exec.{
  RetryConfig, GasBounds, TxHooks, TxRetryState, Config, Machine, zero_float, bump_gas_for_slow_tx,
}
use walletarmy.Exec.Context.{Given, new_context}

-- A context that was made with no initial prices and no caps bumps every transaction, whatever its
-- prices, where no multiple of zero is above zero.
pub new_context_uncapped :
    (o : Outside) (given : Given o) (retry : RetryConfig) (gas : GasBounds o) (hooks : TxHooks o)
    (cfg : Config o) (st : TxRetryState o) (tx : o.Tx) (x : Machine o)
    → o.greater (o.times (zero_float o) (max_cap_multiplier o)) (zero_float o) ≡ false
    → o.is_zero gas.max_gas_price ≡ true
    → o.is_zero gas.max_tip_cap ≡ true
    → new_context o given retry gas hooks (zero_float o) (zero_float o) ≡ ok (cfg, st)
    → (bump_gas_for_slow_tx o cfg tx x).0 ≡ true
unfolding new_context bump_gas_for_slow_tx
new_context_uncapped o given retry gas hooks cfg st tx x zero_times no_price no_tip e = ground arith
