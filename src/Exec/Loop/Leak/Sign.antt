-- ===== src/Exec/Loop/Leak/Sign.antt =====
-- The claims after signing and broadcasting a transaction: manager_tx.go.
use walletarmy.Common.{
  ℕ, ◌≡◌, refl, ap, inl, inr, Bool, Bool-cases, Option, none, some, arith, ◌==◌,
}
use walletarmy.Common.Text.{codes}
use walletarmy.Outside.{Outside, Error, Except, ok, err, wrapped, plain, Network}
use walletarmy.Manager.Accounts.{unlock_account}
use walletarmy.Manager.Network.Frame.{KeepsTracker, broadcaster-KeepsTracker}
use walletarmy.Exec.{Config, Machine, lift, lookup}
use walletarmy.Exec.Build.{sign_tx}
use walletarmy.Exec.Attempt.{
  Stage, stop, go, release_if_untracked, release_unless_tracked, before_hook, sync_broadcaster,
  after_broadcaster, after_sign, after_before_hook, sign_stage,
}
use walletarmy.Exec.Loop.Leak.{Attempted, Holding, Holding-same, release_and_return-Staged}

module _ (o : Outside) (cfg : Config o) (k : ℕ) (was : Bool) (tx : o.Tx) where
  abbrev pub Signed : Stage o → Machine o → Type 0
  Signed (stop out) x = Attempted o cfg k was out x
  Signed (go signed) x = Unit {0}

  if_untracked-Signed :
      (e : Error) (t : Option o.Tx) (x : Machine o)
      → t ≡ none
      → Holding o cfg k was tx x
      → Signed (release_if_untracked o cfg tx e t x).0 (release_if_untracked o cfg tx e t x).1
  if_untracked-Signed e none x same h = release_and_return-Staged o cfg k was tx e x h
  if_untracked-Signed e (some t) x same h = absurd (cc)

  release_unless-Signed :
      (e : Error) (x : Machine o)
      → Holding o cfg k was tx x
      → Signed (release_unless_tracked o cfg tx e x).0 (release_unless_tracked o cfg tx e x).1
  release_unless-Signed e x h =
      if_untracked-Signed e (lookup (o.hash_of tx) x.state.old_txs) x
        (ap (lookup (o.hash_of tx)) h.0) h

  after_broadcaster-Signed :
      (signed : o.Tx) (e : Option Error) (x : Machine o)
      → Holding o cfg k was tx x
      → Signed (after_broadcaster o cfg tx signed e x).0 (after_broadcaster o cfg tx signed e x).1
  after_broadcaster-Signed signed (some e) x h =
      release_unless-Signed (wrapped (codes "couldn't get broadcaster") e) x h
  after_broadcaster-Signed signed none x h = tt

  sync_broadcaster-same :
      (x : Machine o)
      → ((sync_broadcaster o cfg x).1.state ≡ x.state)
        × ((sync_broadcaster o cfg x).1.manager.nonce_tracker ≡ x.manager.nonce_tracker)
  sync_broadcaster-same x =
      (ground arith, ground (arith, broadcaster-KeepsTracker o cfg.params.network x.manager))

  after_sign-Signed :
      (r : Except (ℕ × o.Tx)) (x : Machine o)
      → Holding o cfg k was tx x
      → Signed (after_sign o cfg tx r x).0 (after_sign o cfg tx r x).1
  after_sign-Signed (err e) x h =
      release_unless-Signed (wrapped (codes "failed to sign transaction") e) x h
  after_sign-Signed (ok (signer, signed)) x h = elim (Bool-cases (signer == cfg.params.from)) [
    | inl q ↦ rw q (
        after_broadcaster-Signed signed (sync_broadcaster o cfg x).0 (sync_broadcaster o cfg x).1
          (Holding-same o cfg k was tx x (sync_broadcaster o cfg x).1 (sync_broadcaster-same x) h))
    | inr q ↦ rw q (release_unless-Signed (plain (codes "signed from wrong address")) x h)
  ]

  sign-KeepsTracker : (wallet : ℕ) (net : Network) → KeepsTracker o (sign_tx o wallet tx net)
  unfolding sign_tx unlock_account
  sign-KeepsTracker wallet net m = ground arith

  after_before_hook-Signed :
      (e : Option Error) (x : Machine o)
      → Holding o cfg k was tx x
      → Signed (after_before_hook o cfg tx e x).0 (after_before_hook o cfg tx e x).1
  after_before_hook-Signed (some e) x h =
      release_unless-Signed
        (wrapped (codes "after tx building and before signing and broadcasting hook error") e) x h
  after_before_hook-Signed none x h =
      let y = lift o (sign_tx o cfg.params.from tx cfg.params.network) x in
      after_sign-Signed y.0 y.1 (
        Holding-same o cfg k was tx x y.1
          (refl, sign-KeepsTracker cfg.params.from cfg.params.network x.manager) h)

  before_hook-same :
      (x : Machine o)
      → ((before_hook o cfg tx x).1.state ≡ x.state)
        × ((before_hook o cfg tx x).1.manager.nonce_tracker ≡ x.manager.nonce_tracker)
  unfolding before_hook
  before_hook-same x = (ground arith, ground arith)

  -- A signing that stops the attempt leaves `k` claimed only if it was before, or as planned.
  pub sign_stage-Signed :
      (x : Machine o)
      → Holding o cfg k was tx x
      → Signed (sign_stage o cfg tx x).0 (sign_stage o cfg tx x).1
  unfolding sign_stage
  sign_stage-Signed x h =
      after_before_hook-Signed (before_hook o cfg tx x).0 (before_hook o cfg tx x).1
        (Holding-same o cfg k was tx x (before_hook o cfg tx x).1 (before_hook-same x) h)
