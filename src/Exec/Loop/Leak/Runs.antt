-- ===== src/Exec/Loop/Leak/Runs.antt =====
-- A run of `executeTransactionLoop` that signs nothing leaves no claim of its own: manager_tx.go.
use walletarmy.Common.{
  ℕ, zero, suc, ◌≡◌, ◌⊎◌, refl, sym, subst, inl, inr, Bool, true, false, Option, none, some, List,
  [], ◌∷◌,
}
use walletarmy.Outside.{Outside, Error, KeepsNonce}
use walletarmy.Manager.{Action}
use walletarmy.Exec.{Config, Machine}
use walletarmy.Exec.Loop.{
  Round, again, ends, crashes, hangs, round, clean_up, clean_up_at, clean_up_after, after_round,
  execute_loop,
}
use walletarmy.Exec.Loop.Leak.{IsTracked, OnlyAt, release-OnlyAt}
use walletarmy.Exec.Loop.Leak.Rounds.{IsSafe, SafeRound, round-SafeRound}
use walletarmy.Exec.Loop.Leak.Submit.{NeverInterrupted}

module _ (o : Outside) (cfg : Config o) (k : ℕ) (was : Bool) where
  abbrev NoLeakAfter : Option Error → Machine o → Type 0
  NoLeakAfter none x = Unit {0}
  NoLeakAfter (some e) x =
      IsTracked x.state.old_txs
      ⊎ (x.manager.nonce_tracker.claimed_gaps cfg.params.from cfg.params.network.chain_id k ≡ false)
      ⊎ (was ≡ true)

  -- At an error, a transaction was signed, or `k` is not claimed, or it was claimed before.
  abbrev pub NoLeak : Round o → Machine o → Type 0
  NoLeak (ends f) x = NoLeakAfter f.error x
  NoLeak _ x = Unit {0}

  module _ (never : NeverInterrupted o cfg) (law : KeepsNonce o) where
    clean_up-NoLeak :
        (txs : List (ℕ × o.Tx)) (n : Option ℕ) (x : Machine o)
        → x.state.old_txs ≡ txs
        → x.state.nonce ≡ n
        → IsSafe o cfg k was x
        → IsTracked (clean_up_at o cfg txs n x).1.state.old_txs
          ⊎ OnlyAt o cfg k was none (clean_up_at o cfg txs n x).1.manager.nonce_tracker
    clean_up-NoLeak [] none x st sn (inl h) = inl h
    clean_up-NoLeak [] none x st sn (inr u) =
        inr (subst (λ a. OnlyAt o cfg k was a x.manager.nonce_tracker) sn u.2)
    clean_up-NoLeak [] (some n) x st sn (inl h) = inl h
    clean_up-NoLeak [] (some n) x st sn (inr u) = inr (
        release-OnlyAt o cfg k was n x
          (subst (λ a. OnlyAt o cfg k was a x.manager.nonce_tracker) sn u.2) none)
    clean_up-NoLeak (t ∷ ts) n x st sn h = inl (subst IsTracked (sym st) tt)

    unclaimed_or_old :
        (e : Error) (n : Bool) (x : Machine o)
        → x.manager.nonce_tracker.claimed_gaps cfg.params.from cfg.params.network.chain_id k ≡ n
        → IsTracked x.state.old_txs ⊎ OnlyAt o cfg k was none x.manager.nonce_tracker
        → NoLeakAfter (some e) x
    unclaimed_or_old e n x c (inl h) = inl h
    unclaimed_or_old e false x c (inr only) = inr (inl c)
    unclaimed_or_old e true x c (inr only) =
        inr (elim (only c) [ inl old ↦ inr old | inr none_there ↦ absurd (cc) ])

    clean_up_after-NoLeak :
        (e : Option Error) (x : Machine o)
        → IsSafe o cfg k was x
        → NoLeakAfter e (clean_up_after o cfg e x).1
    clean_up_after-NoLeak none x h = tt
    clean_up_after-NoLeak (some e) x h =
        unclaimed_or_old e _ (clean_up_after o cfg (some e) x).1 refl
          (clean_up-NoLeak x.state.old_txs x.state.nonce x refl refl h)

    after_round-NoLeak :
        (rest : Action (Machine o) (Round o))
        → ((x : Machine o) → IsSafe o cfg k was x → NoLeak (rest x).0 (rest x).1)
        → (r : Round o) (x : Machine o) → SafeRound o cfg k was r x
        → NoLeak (after_round o cfg rest r x).0 (after_round o cfg rest r x).1
    unfolding clean_up
    after_round-NoLeak rest ih again x h = ih x h
    after_round-NoLeak rest ih (ends f) x h = clean_up_after-NoLeak f.error x h
    after_round-NoLeak rest ih crashes x h = tt
    after_round-NoLeak rest ih hangs x h = tt

    loop-NoLeak :
        (rounds : ℕ) (x : Machine o)
        → IsSafe o cfg k was x
        → NoLeak (execute_loop o cfg rounds x).0 (execute_loop o cfg rounds x).1
    unfolding execute_loop
    loop-NoLeak zero x h = tt
    loop-NoLeak (suc rounds) x h =
        after_round-NoLeak (execute_loop o cfg rounds) (loop-NoLeak rounds) (round o cfg x).0
          (round o cfg x).1 (round-SafeRound o cfg k was never law x h)

-- A run from a fresh context that ends with an error, in any number of rounds, has signed a
-- transaction, or has left no claim of its own: each nonce of its wallet that is claimed then was
-- claimed before. `BuildExactTx` is taken to keep the nonce, and the context not to end while a
-- synchronous broadcast is running. The run is the only one on the manager.
pub execute_loop-NoLeak :
    (o : Outside) (cfg : Config o) (k rounds : ℕ) (x : Machine o)
    → KeepsNonce o
    → NeverInterrupted o cfg
    → x.state.old_txs ≡ []
    → x.state.resume_with ≡ none
    → let was =
        x.manager.nonce_tracker.claimed_gaps cfg.params.from cfg.params.network.chain_id k in
      NoLeak o cfg k was (execute_loop o cfg rounds x).0 (execute_loop o cfg rounds x).1
execute_loop-NoLeak o cfg k rounds x law never txs res =
    loop-NoLeak o cfg k
      (x.manager.nonce_tracker.claimed_gaps cfg.params.from cfg.params.network.chain_id k) never law
      rounds x (inr (txs, res, λ c. inl c))
