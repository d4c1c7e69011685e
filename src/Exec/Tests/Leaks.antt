-- ===== src/Exec/Tests/Leaks.antt =====
-- The theorem on claims that are left, at the small world: a run that acquires its nonce, and whose
-- simulation fails.
use walletarmy.Common.{refl, none}
use walletarmy.Exec.{Machine}
use walletarmy.Exec.Loop.{execute_loop}
use walletarmy.Exec.Loop.Leak.Runs.{NoLeak, execute_loop-NoLeak}
use walletarmy.Exec.Tests.{small, cfg, law, ready}

abbrev unplanned : Machine small
unplanned = record ready { state = record ready.state { nonce = none } }

execute_loop-NoLeak_example :
    let was = unplanned.manager.nonce_tracker.claimed_gaps 1 1 5 in
    NoLeak small cfg 5 was
      (execute_loop small cfg 2 unplanned).0
      (execute_loop small cfg 2 unplanned).1
execute_loop-NoLeak_example =
    execute_loop-NoLeak small cfg 5 2 unplanned law (λ tx w h. tt) refl refl
