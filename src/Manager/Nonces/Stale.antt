-- ===== src/Manager/Nonces/Stale.antt =====
-- The remote nonces are read before the wallet's lock is taken: `acquireNonce` of manager_nonce.go.
use walletarmy.Common.{
  ℕ, suc, ◌^◌, ◌≤◌, ◌<◌, ◌≡◌, ◌⊎◌, inl, inr, some, Bool, false, pos, arith, Option-cases,
}
use walletarmy.Nonce.{Tracker, acquired, gap_fill, acquire_nonce, fill_gap, advance, clean_claims}
use walletarmy.Manager.Nonces.{Stored, find_nonce_gap}
use walletarmy.Manager.Nonces.Gap.{find_nonce_gap_first, find_nonce_gap-Skips}

module _ (w c : ℕ) (stored : Stored) where
  -- The claims that a gap search sees.
  abbrev kept : ℕ → Tracker → ℕ → Bool
  kept remote t = (clean_claims w c remote t).claimed_gaps w c

  -- The next stored nonce, and a claim that is gone.
  abbrev Forgot : ℕ → ℕ → Tracker → Type 0
  Forgot n m t =
      (t.claimed_gaps w c n ≡ false)
      × ((t.pending_nonces w c ≡ some (pos m)) ⊎ (t.pending_nonces w c ≡ some (pos (suc m))))

  -- A call that has seen more of the chain drops the claims below what it has seen.
  acquire-Forgot :
      (mined remote n m : ℕ) (t : Tracker)
      → t.pending_nonces w c ≡ some (pos m)
      → suc (suc m) < 2 ^ 63
      → mined ≤ remote
      → n < remote
      → remote ≤ m
      → Forgot n m (acquire_nonce w c mined remote (some (find_nonce_gap stored)) t).1
  unfolding acquire_nonce fill_gap advance
  acquire-Forgot mined remote n m t p b le lt above =
      elim (Option-cases (find_nonce_gap stored w c remote (suc m) (kept remote t))) [
        | inl q ↦ ground arith
        | inr (g, q) ↦
            ground (arith, find_nonce_gap-Skips stored w c remote (suc m) (kept remote t) g q)
      ]

  found_again :
      (mined n m : ℕ) (t : Tracker)
      → t.pending_nonces w c ≡ some (pos m)
      → suc m < 2 ^ 63
      → n ≤ m
      → find_nonce_gap stored w c n (suc m) (kept n t) ≡ some n
      → (acquire_nonce w c mined n (some (find_nonce_gap stored)) t).0 ≡ acquired n gap_fill
  unfolding acquire_nonce fill_gap
  found_again mined n m t p b le e = ground arith

  finds_unclaimed :
      (n to : ℕ) (t : Tracker)
      → t.claimed_gaps w c n ≡ false
      → stored w c n ≡ some 0
      → n < to
      → find_nonce_gap stored w c n to (kept n t) ≡ some n
  unfolding clean_claims
  finds_unclaimed n to t free unknown lt =
      find_nonce_gap_first stored w c n to n (kept n t) (ground (arith, free, unknown))
        (omega arith) lt (λ k a z. absurd (omega arith))

  found_stale :
      (mined n m : ℕ) (t : Tracker)
      → Forgot n m t
      → suc (suc m) < 2 ^ 63
      → n ≤ m
      → stored w c n ≡ some 0
      → (acquire_nonce w c mined n (some (find_nonce_gap stored)) t).0 ≡ acquired n gap_fill
  found_stale mined n m t (free, inl p) b le unknown =
      found_again mined n m t p (omega arith) le
        (finds_unclaimed n (suc m) t free unknown (omega arith))
  found_stale mined n m t (free, inr p) b le unknown =
      found_again mined n (suc m) t p b (omega arith)
        (finds_unclaimed n (suc (suc m)) t free unknown (omega arith))

  -- Two calls that read the nodes in one order and take the lock in the other: the first to take it has
  -- read a pending nonce above `n`, the second has read `n`. Where the store has no transaction of `n`
  -- yet, the second is handed out `n`, whoever holds it: the first has dropped its claim. The stored
  -- nonce is at least the pending one that the first has read, which is no less than the mined one it has
  -- read, and the nonces are below 2^63 - 2.
  pub acquire_stale :
      (mined remote mined' n m : ℕ) (t : Tracker)
      → t.pending_nonces w c ≡ some (pos m)
      → suc (suc m) < 2 ^ 63
      → mined ≤ remote
      → n < remote
      → remote ≤ m
      → stored w c n ≡ some 0
      → let finder = some (find_nonce_gap stored) in
        (acquire_nonce w c mined' n finder (acquire_nonce w c mined remote finder t).1).0
        ≡ acquired n gap_fill
  acquire_stale mined remote mined' n m t p b le lt above unknown =
      found_stale mined' n m (acquire_nonce w c mined remote (some (find_nonce_gap stored)) t).1
        (acquire-Forgot mined remote n m t p b le lt above) b (omega arith) unknown
