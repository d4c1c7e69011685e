-- ===== src/Exec/Loop/Leak/Build.antt =====
-- The claims after building and simulating a transaction: manager_tx.go.
use walletarmy.Common.{
  ℕ, ◌≡◌, refl, inl, inr, ap, sym, subst, ◌∙◌, Bool, true, false, Option, none, some, List, [], ◌∷◌,
  arith,
}
use walletarmy.Common.Text.{codes}
use walletarmy.Outside.{
  Outside, Error, Except, ok, err, KeepsNonce, join, wrapped, simulated_tx_reverted,
  simulated_tx_failed,
}
use walletarmy.Manager.Network.{reader}
use walletarmy.Manager.Network.Frame.{reader-KeepsTracker}
use walletarmy.Exec.{TxExecutionResult, Config, Machine, lift, increment_retry_and_check}
use walletarmy.Exec.Build.{Draft, build_tx}
use walletarmy.Exec.Build.Claims.{build_tx-AddsClaim, built_nonce}
use walletarmy.Exec.Handlers.Statuses.{returns}
use walletarmy.Exec.Handlers.{gas_estimation_retry, gas_tracked, handle_gas_estimation_failure}
use walletarmy.Exec.Attempt.{
  after_count, after_simulation_hook, simulation_hook, handle_eth_call_revert, after_call,
  after_reader, simulate, simulate_unless, after_build, build_stage, draft, is_estimate_gas_failed,
  build_failed,
}
use walletarmy.Exec.Loop.Stages.{build_stage-KeepsTxs}
use walletarmy.Exec.Loop.Leak.Planned.{build_tx-nonce}
use walletarmy.Exec.Loop.Leak.{
  IsTracked, NotMonitored, OnlyAt, Unsigned, Safe, Attempted, Staged, Holding,
  release_and_return-Staged, Holding-same, release-OnlyAt, tracked-Staged,
}

module _ (o : Outside) (cfg : Config o) (k : ℕ) (was : Bool) where
  module _ (tx : o.Tx) where
    after_count-Staged :
        (r : Option (TxExecutionResult o)) (x : Machine o)
        → ((q : TxExecutionResult o) → r ≡ some q → NotMonitored o (returns q))
        → Holding o cfg k was tx x
        → Staged o cfg k was (after_count o cfg tx r x).0 (after_count o cfg tx r x).1
    after_count-Staged (some r) x ends (txs, res, only) =
        inr
          (ends r refl, (txs, res, release-OnlyAt o cfg k was (o.nonce_of tx) x only x.state.nonce))
    after_count-Staged none x ends (txs, res, only) = inr (refl, (txs, res, only))

    increment-NotMonitored :
        (x : Machine o) (q : TxExecutionResult o)
        → (increment_retry_and_check o cfg (codes "simulation reverted") x).0 ≡ some q
        → NotMonitored o (returns q)
    unfolding increment_retry_and_check
    increment-NotMonitored x q h = ground arith

    after_hook-Staged :
        (e : Option Error) (x : Machine o)
        → Holding o cfg k was tx x
        → Staged o cfg k was
            (after_simulation_hook o cfg tx e x).0
            (after_simulation_hook o cfg tx e x).1
    unfolding increment_retry_and_check
    after_hook-Staged (some e) x h = release_and_return-Staged o cfg k was tx e x h
    after_hook-Staged none x h = after_count-Staged _ _ (increment-NotMonitored x) h

    simulation_hook-manager :
        (e : Error) (x : Machine o)
        → ((simulation_hook o cfg tx e x).1.state ≡ x.state)
          × ((simulation_hook o cfg tx e x).1.manager.nonce_tracker ≡ x.manager.nonce_tracker)
    unfolding simulation_hook
    simulation_hook-manager e x = ground arith

    revert-Staged :
        (e : Error) (x : Machine o)
        → Holding o cfg k was tx x
        → Staged o cfg k was
            (handle_eth_call_revert o cfg tx e x).0
            (handle_eth_call_revert o cfg tx e x).1
    unfolding handle_eth_call_revert
    revert-Staged e x h =
        let out = simulation_hook o cfg tx (join simulated_tx_reverted e) x in
        after_hook-Staged out.0 out.1 (
          Holding-same o cfg k was tx x out.1
            (simulation_hook-manager (join simulated_tx_reverted e) x) h)

    after_call-Staged :
        (r : Option (Error × Bool)) (x : Machine o)
        → Holding o cfg k was tx x
        → Staged o cfg k was (after_call o cfg tx r x).0 (after_call o cfg tx r x).1
    after_call-Staged none x h = inr h
    after_call-Staged (some (e, true)) x h = revert-Staged e x h
    after_call-Staged (some (e, false)) x h =
        release_and_return-Staged o cfg k was tx
          (join simulated_tx_failed (wrapped (codes "couldn't simulate tx at pending state") e)) x h

    after_reader-Staged :
        (e : Option Error) (x : Machine o)
        → Holding o cfg k was tx x
        → Staged o cfg k was (after_reader o cfg tx e x).0 (after_reader o cfg tx e x).1
    after_reader-Staged (some e) x h =
        release_and_return-Staged o cfg k was tx
          (join simulated_tx_failed (wrapped (codes "couldn't get reader for simulation") e)) x h
    after_reader-Staged none x h = after_call-Staged _ _ h

    simulate_unless-Staged :
        (skip : Bool) (x : Machine o)
        → Holding o cfg k was tx x
        → Staged o cfg k was (simulate_unless o cfg skip tx x).0 (simulate_unless o cfg skip tx x).1
    simulate_unless-Staged true x h = inr h
    simulate_unless-Staged false x h = after_reader-Staged _ _ (
        Holding-same o cfg k was tx x (lift o (reader o cfg.params.network) x).1
          (refl, reader-KeepsTracker o cfg.params.network x.manager) h)

    simulate-Staged :
        (x : Machine o)
        → Holding o cfg k was tx x
        → Staged o cfg k was (simulate o cfg tx x).0 (simulate o cfg tx x).1
    unfolding simulate
    simulate-Staged x h = simulate_unless-Staged cfg.params.skip_simulation x h

  gas_retry-same :
      (e : Error) (x : Machine o)
      → let (out, y) = gas_estimation_retry o cfg e x in
        NotMonitored o out
        × (y.state.old_txs ≡ x.state.old_txs)
        × (y.state.resume_with ≡ x.state.resume_with)
        × (y.state.nonce ≡ x.state.nonce)
        × (y.manager.nonce_tracker ≡ x.manager.nonce_tracker)
  unfolding gas_estimation_retry
  gas_retry-same e x = (ground arith, ground arith, ground arith, ground arith, ground arith)

  gas_retry-Attempted :
      (e : Error) (x : Machine o)
      → Unsigned o cfg k was x.state.nonce x.state x.manager.nonce_tracker
      → Attempted o cfg k was (gas_estimation_retry o cfg e x).0 (gas_estimation_retry o cfg e x).1
  gas_retry-Attempted e x (txs, res, only) =
      let (stays, t, r, n, m) = gas_retry-same e x in
      inr (
        stays,
        (
          t ∙ txs,
          r ∙ res,
          subst (λ a. OnlyAt o cfg k was a (gas_estimation_retry o cfg e x).1.manager.nonce_tracker)
              (sym n) (subst (OnlyAt o cfg k was x.state.nonce) (sym m) only),
        ),
      )

  gas_tracked-Attempted :
      (e : Error) (txs : List (ℕ × o.Tx)) (x : Machine o)
      → txs ≡ []
      → Unsigned o cfg k was x.state.nonce x.state x.manager.nonce_tracker
      → Attempted o cfg k was (gas_tracked o cfg e txs x).0 (gas_tracked o cfg e txs x).1
  gas_tracked-Attempted e [] x h u = gas_retry-Attempted e x u
  gas_tracked-Attempted e (t ∷ ts) x h u = absurd (cc)

  stop_if-Attempted :
      (estimate : Bool) (e : Error) (x : Machine o)
      → Unsigned o cfg k was x.state.nonce x.state x.manager.nonce_tracker
      → Staged o cfg k was (build_failed o cfg estimate e x).0 (build_failed o cfg estimate e x).1
  unfolding handle_gas_estimation_failure
  stop_if-Attempted true e x u = gas_tracked-Attempted e x.state.old_txs x u.0 u
  stop_if-Attempted false e x u = inr (refl, u)

  -- After `BuildTx`: `k` may be claimed for the transaction that was built, or still be planned.
  abbrev Built : Except o.Tx → Machine o → Type 0
  Built (ok tx) x = Unsigned o cfg k was (some (o.nonce_of tx)) x.state x.manager.nonce_tracker
  Built (err e) x = Unsigned o cfg k was x.state.nonce x.state x.manager.nonce_tracker

  after_build-Staged :
      (built : Except o.Tx) (x : Machine o)
      → Built built x
      → Staged o cfg k was (after_build o cfg built x).0 (after_build o cfg built x).1
  after_build-Staged (ok tx) x h = simulate-Staged tx x h
  after_build-Staged (err e) x h = stop_if-Attempted (is_estimate_gas_failed e) e x h

  module _ (law : KeepsNonce o) (x : Machine o) where
    abbrev the_draft : Draft o
    the_draft = draft o cfg x.state

    build_tx-Built :
        (built : Except o.Tx)
        → (build_tx o cfg.params the_draft x.manager).0 ≡ built
        → Unsigned o cfg k was x.state.nonce x.state x.manager.nonce_tracker
        → Built built (lift o (build_tx o cfg.params the_draft) x).1
    build_tx-Built (ok tx) same (txs, res, only) = (
      txs,
      res,
      λ c. elim (build_tx-AddsClaim o cfg.params the_draft k law x.manager c) [
        | inl before ↦ elim (only before) [
          | inl old ↦ inl old
          | inr planned ↦
              inr (ap some (build_tx-nonce o law cfg.params the_draft k tx x.manager planned same))
        ]
        | inr own ↦ inr (subst (λ r. built_nonce o r ≡ some k) same own)
      ],
    )
    build_tx-Built (err e) same (txs, res, only) = (
      txs,
      res,
      λ c. elim (build_tx-AddsClaim o cfg.params the_draft k law x.manager c) [
        | inl before ↦ only before
        | inr own ↦
            let no : none ≡ some k = subst (λ r. built_nonce o r ≡ some k) same own in absurd (cc)
      ],
    )

    -- After building and simulating, `k` is claimed only if it was before, or for the transaction
    -- that goes on, or as the planned nonce, unless something was signed.
    pub build_stage-Staged :
        Safe o cfg k was x.state x.manager.nonce_tracker
        → Staged o cfg k was (build_stage o cfg x).0 (build_stage o cfg x).1
    unfolding build_stage
    build_stage-Staged (inl signed) =
        tracked-Staged o cfg k was (build_stage o cfg x).0 (build_stage o cfg x).1
          (subst IsTracked (sym (build_stage-KeepsTxs o cfg x)) signed)
    build_stage-Staged (inr u) =
        after_build-Staged (build_tx o cfg.params the_draft x.manager).0
          (lift o (build_tx o cfg.params the_draft) x).1
          (build_tx-Built (build_tx o cfg.params the_draft x.manager).0 refl u)
