-- ===== src/Exec/Loop/Limit/Runs.antt =====
-- The count of attempts and the prices of the retry state over `executeTransactionLoop`: manager_tx.go.
use walletarmy.Common.{pos, ◌+ℤ◌}
use walletarmy.Outside.{Outside}
use walletarmy.Manager.{Action}
use walletarmy.Exec.{retry, Config, Machine}
use walletarmy.Exec.Loop.{Round, again}
use walletarmy.Exec.Loop.Limit.{Within, IsLimited}

module _ (o : Outside) (cfg : Config o) where
  -- The limit while the loop goes on, and one more at its end.
  abbrev pub LimitedRound : Round o → Machine o → Type 0
  LimitedRound again x = IsLimited o cfg x
  LimitedRound _ x = Within o cfg (cfg.retry.max_attempts +ℤ pos 1) x.state

  abbrev LimitsRound : Action (Machine o) (Round o) → Type 0
  LimitsRound act = (x : Machine o) → IsLimited o cfg x → LimitedRound (act x).0 (act x).1
