-- ===== src/Exec/Entry/Resume.antt =====
-- `ResumePendingTransaction` of manager_tx.go on a network that the manager has not initialised.
use walletarmy.Common.{ℕ, suc, ◌≡◌, refl, false, none, some}
use walletarmy.Outside.{Outside, ok, Network, PendingTx}
use walletarmy.Manager.{Manager}
use walletarmy.Exec.Loop.{crashes, watch_tx, attempt_or_resume, pause, round, execute_loop}
use walletarmy.Exec.Entry.{ResumeOptions, resumed_config, resumed_state, resume_pending_transaction}

module _ (o : Outside) where
  round-crashes :
      (opts : ResumeOptions o) (wallet to : ℕ) (tx : o.Tx) (net : Network) (m : Manager o)
      (rounds : ℕ)
      → m.tx_monitors net.chain_id ≡ false
      → (o.context_error m.world).0 ≡ none
      → (execute_loop o
          (resumed_config o opts m.defaults wallet tx to net)
          (suc rounds)
          (record { manager = m; state = resumed_state o tx })).0
        ≡ crashes
  unfolding execute_loop round pause attempt_or_resume watch_tx
  round-crashes opts wallet to tx net m rounds gone live = rw live (rw gone refl)

  -- A transaction that is resumed goes straight to the monitor: where the manager has none for the network,
  -- as before its first call on it, the loop panics, unless the context has ended.
  pub resume-crashes :
      (rounds : ℕ) (opts : ResumeOptions o) (p : PendingTx o.Tx o.Receipt) (tx : o.Tx) (to : ℕ)
      (net : Network) (m : Manager o)
      → p.transaction ≡ some tx
      → o.resolve_network p.chain_id ≡ ok net
      → o.to_of tx ≡ some to
      → m.tx_monitors net.chain_id ≡ false
      → (o.context_error m.world).0 ≡ none
      → (resume_pending_transaction o (suc rounds) opts (some p) m).0 ≡ crashes
  unfolding resume_pending_transaction
  resume-crashes rounds opts p tx to net m has_tx resolved has_to gone live =
      rw (has_tx, resolved, has_to) (round-crashes opts p.wallet to tx net m rounds gone live)
