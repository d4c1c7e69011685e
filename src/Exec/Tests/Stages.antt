-- ===== src/Exec/Tests/Stages.antt =====
-- The theorems on the stages of an execution at the small world.
use walletarmy.Common.{◌≡◌, refl, true, false, none, some, []}
use walletarmy.Broadcast.{insufficient_fund}
use walletarmy.Exec.{bump_gas_for_slow_tx, Config, TxRetryState, increment_retry_and_check}
use walletarmy.Exec.Context.{Given, new_context}
use walletarmy.Exec.Context.Caps.{new_context_uncapped}
use walletarmy.Exec.Handlers.{handle_broadcast_error, retry_same_nonce, count_or_resync}
use walletarmy.Exec.Handlers.Ownership.{handle_broadcast_error-nonce}
use walletarmy.Exec.Attempt.{simulate, sign_stage}
use walletarmy.Exec.Attempt.Ownership.{Settles, Frees, simulate-Settles, sign_stage-Frees}
use walletarmy.Exec.Loop.{execute_loop}
use walletarmy.Exec.Loop.Exit.{Clean, execute_loop-Clean}
use walletarmy.Exec.Tests.{small, net, cfg, tx, ready, bounds, retries, no_hooks}

sign_stage-Frees_example :
    Frees small cfg tx (sign_stage small cfg tx ready).0 (sign_stage small cfg tx ready).1
sign_stage-Frees_example = sign_stage-Frees small cfg tx ready refl

simulate-Settles_example :
    Settles small cfg tx (simulate small cfg tx ready).0 (simulate small cfg tx ready).1
simulate-Settles_example = simulate-Settles small cfg tx ready

execute_loop-Clean_example :
    Clean small cfg (execute_loop small cfg 2 ready).0 (execute_loop small cfg 2 ready).1
execute_loop-Clean_example = execute_loop-Clean small cfg 2 ready

handle_broadcast_error-nonce_example :
    (handle_broadcast_error small cfg (some insufficient_fund) tx ready).1.state.nonce ≡ some 7
unfolding handle_broadcast_error retry_same_nonce count_or_resync increment_retry_and_check
handle_broadcast_error-nonce_example =
    handle_broadcast_error-nonce small cfg (some insufficient_fund) tx ready tt refl

abbrev given : Given small
given = record {
  tx_type = 2;
  from = 1;
  to = 2;
  value = none;
  payload = [];
  network = some net;
  skip_simulation = false;
}

-- No caps, and no prices at the start.
abbrev uncapped : Config small
uncapped = record cfg { gas = record bounds { max_gas_price = 0; max_tip_cap = 0 } }

abbrev fresh : TxRetryState small
fresh = record ready.state { gas_limit = 0; nonce = none }

new_context_uncapped_example : (bump_gas_for_slow_tx small uncapped tx ready).0 ≡ true
unfolding new_context
new_context_uncapped_example =
    new_context_uncapped small given retries uncapped.gas no_hooks uncapped fresh tx ready refl refl
      refl refl
