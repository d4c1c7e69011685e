-- ===== src/Exec/Loop/Stages.antt =====
-- The stages of an attempt keep the transactions that were signed, and a broadcast adds one:
-- manager_tx.go.
use walletarmy.Common.{refl, Bool, true, false, Option, none, some, arith}
use walletarmy.Outside.{Outside, Error, Except, ok, err}
use walletarmy.Exec.{Config, lift, increment_retry_and_check}
use walletarmy.Exec.Build.{build_tx}
use walletarmy.Exec.Attempt.{
  simulation_hook, handle_eth_call_revert, after_call, after_reader, simulate, simulate_unless,
  build_failed, after_build, build_stage, draft, before_hook, sign_stage,
}
use walletarmy.Exec.Loop.Tracked.{KeepsTxs, gas_failure-KeepsTxs}

module _ (o : Outside) (cfg : Config o) where
  revert-KeepsTxs : (tx : o.Tx) (e : Error) → KeepsTxs o (handle_eth_call_revert o cfg tx e)
  unfolding handle_eth_call_revert simulation_hook increment_retry_and_check
  revert-KeepsTxs tx e x = ground arith

  after_call-KeepsTxs : (tx : o.Tx) (r : Option (Error × Bool)) → KeepsTxs o (after_call o cfg tx r)
  after_call-KeepsTxs tx none x = refl
  after_call-KeepsTxs tx (some (e, true)) x = revert-KeepsTxs tx e x
  after_call-KeepsTxs tx (some (e, false)) x = refl

  after_reader-KeepsTxs : (tx : o.Tx) (e : Option Error) → KeepsTxs o (after_reader o cfg tx e)
  after_reader-KeepsTxs tx (some e) x = refl
  after_reader-KeepsTxs tx none x = after_call-KeepsTxs tx _ _

  simulate_unless-KeepsTxs : (skip : Bool) (tx : o.Tx) → KeepsTxs o (simulate_unless o cfg skip tx)
  simulate_unless-KeepsTxs true tx x = refl
  simulate_unless-KeepsTxs false tx x = after_reader-KeepsTxs tx _ _

  build_failed-KeepsTxs : (estimate : Bool) (e : Error) → KeepsTxs o (build_failed o cfg estimate e)
  build_failed-KeepsTxs true e x = gas_failure-KeepsTxs o cfg e x
  build_failed-KeepsTxs false e x = refl

  after_build-KeepsTxs : (built : Except o.Tx) → KeepsTxs o (after_build o cfg built)
  unfolding simulate
  after_build-KeepsTxs (ok tx) x = simulate_unless-KeepsTxs cfg.params.skip_simulation tx x
  after_build-KeepsTxs (err e) x = build_failed-KeepsTxs _ e x

  pub build_stage-KeepsTxs : KeepsTxs o (build_stage o cfg)
  unfolding build_stage
  build_stage-KeepsTxs x =
      after_build-KeepsTxs (build_tx o cfg.params (draft o cfg x.state) x.manager).0
        (lift o (build_tx o cfg.params (draft o cfg x.state)) x).1

  pub sign_stage-KeepsTxs : (tx : o.Tx) → KeepsTxs o (sign_stage o cfg tx)
  unfolding sign_stage before_hook
  sign_stage-KeepsTxs tx x = ground arith
