-- ===== src/Exec/Loop/Leak.antt =====
-- Which claims a run holds on the nonces of its wallet, between the steps of manager_tx.go: until a
-- transaction is signed, at most that of the nonce which the next attempt will use.
pub mod Planned
pub mod Build
pub mod Sign
pub mod Submit
pub mod Rounds
pub mod Runs
use walletarmy.Common.{
  ℕ, ◌≡◌, refl, sym, subst, ◌⊎◌, inl, inr, Bool, true, false, Option, none, some, List, [], ◌∷◌,
  arith,
}
use walletarmy.Nonce.{Tracker}
use walletarmy.Nonce.Claims.{release-claims}
use walletarmy.Outside.{Outside, Error}
use walletarmy.Manager.Nonces.{release, persist_nonce_release}
use walletarmy.Exec.{
  LoopAction, continue_to_monitor, retry, return, TxRetryState, Config, Machine, lift,
}
use walletarmy.Exec.Handlers.Statuses.{Outcome, returns, panics}
use walletarmy.Exec.Attempt.{Stage, stop, go, release_and_return}

-- A transaction was signed.
abbrev pub IsTracked {ℓ} : {A : Type ℓ} → List A → Type 0
IsTracked [] = ⊥
IsTracked (t ∷ ts) = Unit

abbrev pub is_monitor : LoopAction → Bool
is_monitor continue_to_monitor = true
is_monitor retry = false
is_monitor return = false

abbrev pub NotMonitored : (o : Outside) → Outcome o → Type 0
NotMonitored o (returns r) = is_monitor r.action ≡ false
NotMonitored o panics = Unit

-- `k` is a nonce of the wallet of `cfg`, and `was` tells whether it was claimed before the run.
module _ (o : Outside) (cfg : Config o) (k : ℕ) (was : Bool) where
  -- `k` is claimed only if it was before, or is the nonce `n`.
  abbrev pub OnlyAt : Option ℕ → Tracker → Type 0
  OnlyAt n t =
      t.claimed_gaps cfg.params.from cfg.params.network.chain_id k ≡ true
      → (was ≡ true) ⊎ (n ≡ some k)

  -- Nothing was signed, and `k` is claimed only if it was before, or is the nonce `n`.
  abbrev pub Unsigned : Option ℕ → TxRetryState o → Tracker → Type 0
  Unsigned n st t = (st.old_txs ≡ []) × (st.resume_with ≡ none) × OnlyAt n t

  abbrev pub Safe : TxRetryState o → Tracker → Type 0
  Safe st t = IsTracked st.old_txs ⊎ Unsigned st.nonce st t

  abbrev pub Attempted : Outcome o → Machine o → Type 0
  Attempted out x =
      IsTracked x.state.old_txs
      ⊎ (NotMonitored o out × (Unsigned x.state.nonce x.state x.manager.nonce_tracker))

  -- After building and simulating.
  abbrev pub Staged : Stage o → Machine o → Type 0
  Staged (stop out) x = Attempted out x
  Staged (go tx) x =
      IsTracked x.state.old_txs ⊎ Unsigned (some (o.nonce_of tx)) x.state x.manager.nonce_tracker

  pub release-OnlyAt :
      (n : ℕ) (x : Machine o)
      → OnlyAt (some n) x.manager.nonce_tracker
      → (m : Option ℕ)
      → OnlyAt m (lift o (release o cfg.params.from cfg.params.network n) x).1.manager.nonce_tracker
  unfolding release persist_nonce_release
  release-OnlyAt n x h m e =
      let (claimed, ne) =
        release-claims cfg.params.from cfg.params.network.chain_id k n x.manager.nonce_tracker
          (ground arith) in
      ground (arith, h claimed, ne)

  pub tracked-Staged : (s : Stage o) (x : Machine o) → IsTracked x.state.old_txs → Staged s x
  tracked-Staged (stop out) x h = inl h
  tracked-Staged (go tx) x h = inl h

  module _ (tx : o.Tx) where
    -- What a stage starts with: the claim of the transaction\'s nonce.
    abbrev pub Holding : Machine o → Type 0
    Holding x = Unsigned (some (o.nonce_of tx)) x.state x.manager.nonce_tracker

    pub release_and_return-Staged :
        (e : Error) (x : Machine o)
        → Holding x
        → Staged (release_and_return o cfg tx e x).0 (release_and_return o cfg tx e x).1
    release_and_return-Staged e x (txs, res, only) =
        inr (refl, (txs, res, release-OnlyAt (o.nonce_of tx) x only x.state.nonce))

    pub Holding-same :
        (x y : Machine o)
        → (y.state ≡ x.state) × (y.manager.nonce_tracker ≡ x.manager.nonce_tracker)
        → Holding x
        → Holding y
    Holding-same x y (p, q) h =
        subst (λ st. Unsigned (some (o.nonce_of tx)) st y.manager.nonce_tracker) (sym p)
          (subst (λ t. Unsigned (some (o.nonce_of tx)) x.state t) (sym q) h)
