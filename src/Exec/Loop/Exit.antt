-- ===== src/Exec/Loop/Exit.antt =====
-- How `executeTransactionLoop` of manager_tx.go ends.
use walletarmy.Common.{
  subst, sym, ℕ, zero, suc, ◌≡◌, refl, false, Option, none, some, List, [], ◌∷◌, arith,
}
use walletarmy.Outside.{Outside, Error}
use walletarmy.Manager.{Action}
use walletarmy.Manager.Nonces.{release, persist_nonce_release}
use walletarmy.Exec.{Config, Machine, lift}
use walletarmy.Exec.Attempt.Ownership.{release-unclaims}
use walletarmy.Exec.Loop.{
  Round, again, ends, crashes, hangs, clean_up, execute_loop, after_round, clean_up_at,
  clean_up_after,
}

module _ (o : Outside) (cfg : Config o) where
  abbrev IsFreeAt : List (ℕ × o.Tx) → Option ℕ → Machine o → Type 0
  IsFreeAt [] (some n) x =
      x.manager.nonce_tracker.claimed_gaps cfg.params.from cfg.params.network.chain_id n ≡ false
  IsFreeAt _ _ x = Unit {0}

  -- The nonce that the next attempt would have used is not claimed, where no transaction was signed.
  abbrev pub FreesPlanned : Machine o → Type 0
  FreesPlanned x = IsFreeAt x.state.old_txs x.state.nonce x

  abbrev CleanAfter : Option Error → Machine o → Type 0
  CleanAfter none x = Unit {0}
  CleanAfter (some e) x = FreesPlanned x

  -- What the caller finds in the machine after an error.
  abbrev pub Clean : Round o → Machine o → Type 0
  Clean (ends f) x = CleanAfter f.error x
  Clean _ x = Unit {0}

  release-IsFreeAt :
      (n : ℕ) (x : Machine o)
      → (lift o
            (release o cfg.params.from cfg.params.network n)
            x).1.manager.nonce_tracker.claimed_gaps
          cfg.params.from cfg.params.network.chain_id n
        ≡ false
  unfolding release persist_nonce_release
  release-IsFreeAt n x = ground (
    arith,
    release-unclaims cfg.params.from cfg.params.network.chain_id n x.manager.nonce_tracker,
  )

  clean_up_at-IsFreeAt :
      (txs : List (ℕ × o.Tx)) (n : Option ℕ) (x : Machine o)
      → IsFreeAt txs n (clean_up_at o cfg txs n x).1
  clean_up_at-IsFreeAt [] none x = tt
  clean_up_at-IsFreeAt [] (some n) x = release-IsFreeAt n x
  clean_up_at-IsFreeAt (t ∷ ts) n x = tt

  pub clean_up_at-state :
      (txs : List (ℕ × o.Tx)) (n : Option ℕ) (x : Machine o)
      → (clean_up_at o cfg txs n x).1.state ≡ x.state
  clean_up_at-state [] none x = refl
  clean_up_at-state [] (some n) x = refl
  clean_up_at-state (t ∷ ts) n x = refl

  clean_up_after-CleanAfter :
      (e : Option Error) (x : Machine o) → CleanAfter e (clean_up_after o cfg e x).1
  clean_up_after-CleanAfter none x = tt
  clean_up_after-CleanAfter (some e) x =
      let y = (clean_up_at o cfg x.state.old_txs x.state.nonce x).1 in
      let same : y.state ≡ x.state = clean_up_at-state x.state.old_txs x.state.nonce x in
      subst (λ st. IsFreeAt st.old_txs st.nonce y) (sym same)
        (clean_up_at-IsFreeAt x.state.old_txs x.state.nonce x)

  after_round-Clean :
      (rest : Action (Machine o) (Round o))
      → ((x : Machine o) → Clean (rest x).0 (rest x).1)
      → (r : Round o) (x : Machine o)
      → Clean (after_round o cfg rest r x).0 (after_round o cfg rest r x).1
  unfolding clean_up
  after_round-Clean rest h again x = h x
  after_round-Clean rest h crashes x = tt
  after_round-Clean rest h hangs x = tt
  after_round-Clean rest h (ends f) x = clean_up_after-CleanAfter f.error x

  -- The loop that ends with an error before a transaction was signed leaves the nonce that it had
  -- planned to use unclaimed, in any number of rounds.
  pub execute_loop-Clean :
      (rounds : ℕ) (x : Machine o)
      → Clean (execute_loop o cfg rounds x).0 (execute_loop o cfg rounds x).1
  unfolding execute_loop
  execute_loop-Clean zero x = tt
  execute_loop-Clean (suc rounds) x =
      after_round-Clean (execute_loop o cfg rounds) (execute_loop-Clean rounds) _ _
