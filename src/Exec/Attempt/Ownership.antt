-- ===== src/Exec/Attempt/Ownership.antt =====
-- An attempt that stops before the broadcast: simulation and signing of manager_tx.go.
use walletarmy.Common.{
  Bool-cases, ℕ, ◌≡◌, ◌⊎◌, inl, inr, Bool, true, false, Option, none, some, arith, ◌==◌,
}
use walletarmy.Nonce.{Tracker, release_nonce}
use walletarmy.Outside.{Outside, Error, Except, ok, err}
use walletarmy.Manager.Nonces.{release, persist_nonce_release}
use walletarmy.Exec.{TxExecutionResult, Config, Machine, result_retry, lookup}
use walletarmy.Exec.Handlers.Statuses.{returns}
use walletarmy.Exec.Attempt.{
  Stage, stop, go, release_tx, after_count, after_simulation_hook, handle_eth_call_revert,
  after_call, after_reader, simulate, simulate_unless, before_hook, release_unless_tracked,
  sync_broadcaster, after_broadcaster, after_sign, after_before_hook, sign_stage,
}

pub release-unclaims :
    (w c n : ℕ) (t : Tracker) → (release_nonce w c n t).claimed_gaps w c n ≡ false
unfolding release_nonce
release-unclaims w c n t = ground arith

module _ (o : Outside) (cfg : Config o) (tx : o.Tx) where
  -- The nonce of the transaction is not claimed.
  abbrev pub IsFree : Machine o → Type 0
  IsFree x =
      x.manager.nonce_tracker.claimed_gaps cfg.params.from cfg.params.network.chain_id
        (o.nonce_of tx)
      ≡ false

  -- Where a stage stops, the nonce of the transaction was given back, or the next attempt has it.
  abbrev pub Settles : Stage o → Machine o → Type 0
  Settles (go t) x = Unit {0}
  Settles (stop out) x =
      IsFree x ⊎ ((out ≡ returns (result_retry o)) × (x.state.nonce ≡ some (o.nonce_of tx)))

  -- The stages that give the nonce back when they stop.
  abbrev pub Frees : Stage o → Machine o → Type 0
  Frees (go t) x = Unit {0}
  Frees (stop out) x = IsFree x

  release-IsFree : (x : Machine o) → IsFree (release_tx o cfg tx x).1
  unfolding release persist_nonce_release
  release-IsFree x = ground (
    arith,
    release-unclaims cfg.params.from cfg.params.network.chain_id (o.nonce_of tx)
        x.manager.nonce_tracker,
  )

  after_count-Settles :
      (r : Option (TxExecutionResult o)) (x : Machine o)
      → Settles (after_count o cfg tx r x).0 (after_count o cfg tx r x).1
  after_count-Settles (some r) x = inl (release-IsFree x)
  after_count-Settles none x = ground arith

  after_simulation_hook-Settles :
      (e : Option Error) (x : Machine o)
      → Settles (after_simulation_hook o cfg tx e x).0 (after_simulation_hook o cfg tx e x).1
  after_simulation_hook-Settles (some e) x = inl (release-IsFree x)
  after_simulation_hook-Settles none x = after_count-Settles _ _

  revert-Settles :
      (e : Error) (x : Machine o)
      → Settles (handle_eth_call_revert o cfg tx e x).0 (handle_eth_call_revert o cfg tx e x).1
  unfolding handle_eth_call_revert
  revert-Settles e x = after_simulation_hook-Settles _ _

  after_call-Settles :
      (r : Option (Error × Bool)) (x : Machine o)
      → Settles (after_call o cfg tx r x).0 (after_call o cfg tx r x).1
  after_call-Settles none x = tt
  after_call-Settles (some (e, true)) x = revert-Settles e x
  after_call-Settles (some (e, false)) x = inl (release-IsFree x)

  after_reader-Settles :
      (e : Option Error) (x : Machine o)
      → Settles (after_reader o cfg tx e x).0 (after_reader o cfg tx e x).1
  after_reader-Settles (some e) x = inl (release-IsFree x)
  after_reader-Settles none x = after_call-Settles _ _

  simulate_unless-Settles :
      (skip : Bool) (x : Machine o)
      → Settles (simulate_unless o cfg skip tx x).0 (simulate_unless o cfg skip tx x).1
  simulate_unless-Settles true x = tt
  simulate_unless-Settles false x = after_reader-Settles _ _

  -- A simulation that stops the attempt has given the nonce back, or keeps it for the retry.
  pub simulate-Settles : (x : Machine o) → Settles (simulate o cfg tx x).0 (simulate o cfg tx x).1
  unfolding simulate
  simulate-Settles x = simulate_unless-Settles cfg.params.skip_simulation x

  release_unless-Frees :
      (e : Error) (x : Machine o)
      → lookup (o.hash_of tx) x.state.old_txs ≡ none
      → Frees (release_unless_tracked o cfg tx e x).0 (release_unless_tracked o cfg tx e x).1
  release_unless-Frees e x h = rw h (release-IsFree x)

  after_broadcaster-Frees :
      (signed : o.Tx) (e : Option Error) (x : Machine o)
      → lookup (o.hash_of tx) x.state.old_txs ≡ none
      → Frees (after_broadcaster o cfg tx signed e x).0 (after_broadcaster o cfg tx signed e x).1
  after_broadcaster-Frees signed (some e) x h = release_unless-Frees _ x h
  after_broadcaster-Frees signed none x h = tt

  sync_broadcaster-state : (x : Machine o) → (sync_broadcaster o cfg x).1.state ≡ x.state
  sync_broadcaster-state x = ground arith

  after_sign-Frees :
      (r : Except (ℕ × o.Tx)) (x : Machine o)
      → lookup (o.hash_of tx) x.state.old_txs ≡ none
      → Frees (after_sign o cfg tx r x).0 (after_sign o cfg tx r x).1
  after_sign-Frees (err e) x h = release_unless-Frees _ x h
  after_sign-Frees (ok (signer, signed)) x h = elim (Bool-cases (signer == cfg.params.from)) [
    | inl q ↦ rw q (
        after_broadcaster-Frees signed (sync_broadcaster o cfg x).0 (sync_broadcaster o cfg x).1
          (rw (sync_broadcaster-state x) h))
    | inr q ↦ rw q (release_unless-Frees _ x h)
  ]

  after_before_hook-Frees :
      (e : Option Error) (x : Machine o)
      → lookup (o.hash_of tx) x.state.old_txs ≡ none
      → Frees (after_before_hook o cfg tx e x).0 (after_before_hook o cfg tx e x).1
  after_before_hook-Frees (some e) x h = release_unless-Frees _ x h
  after_before_hook-Frees none x h = after_sign-Frees _ _ h

  before_hook-state : (x : Machine o) → (before_hook o cfg tx x).1.state ≡ x.state
  unfolding before_hook
  before_hook-state x = ground arith

  -- When the hook, the signing or the broadcaster stops the attempt, the nonce of the transaction
  -- was given back, if the transaction is not one that was signed before.
  pub sign_stage-Frees :
      (x : Machine o)
      → lookup (o.hash_of tx) x.state.old_txs ≡ none
      → Frees (sign_stage o cfg tx x).0 (sign_stage o cfg tx x).1
  unfolding sign_stage
  sign_stage-Frees x h =
      after_before_hook-Frees (before_hook o cfg tx x).0 (before_hook o cfg tx x).1
        (rw (before_hook-state x) h)
