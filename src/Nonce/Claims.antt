-- ===== src/Nonce/Claims.antt =====
-- The only claim that `AcquireNonce` adds is that of the nonce that it returns: tracker.go.
use walletarmy.Common.{ℕ, ◌≡◌, ◌⊎◌, true, Option, none, some, arith}
use walletarmy.Nonce.{
  Tracker, GapFinder, Acquired, acquired, abnormal, fill_gap, or_advance, advance, acquire_nonce,
  release_nonce,
}

abbrev pub answer : Acquired → Option ℕ
answer (acquired n r) = some n
answer abnormal = none

module _ (w c k : ℕ) where
  -- The answers that leave no new claim but that of `n`.
  abbrev pub Adds : Option ℕ → Tracker → Tracker → Type 0
  Adds n t t' = t'.claimed_gaps w c k ≡ true → (t.claimed_gaps w c k ≡ true) ⊎ (n ≡ some k)

  fill_gap-Adds :
      (remote : ℕ) (finder : Option GapFinder) (t : Tracker)
      → Adds (fill_gap w c remote finder t).0 t (fill_gap w c remote finder t).1
  unfolding fill_gap
  fill_gap-Adds remote none t h = ground arith
  fill_gap-Adds remote (some find) t h = ground arith

  advance-Adds :
      (mined remote : ℕ) (t : Tracker)
      → Adds (answer (advance w c mined remote t).0) t (advance w c mined remote t).1
  unfolding advance
  advance-Adds mined remote t h = ground arith

  or_advance-Adds :
      (mined remote : ℕ) (t : Tracker) (p : Option ℕ × Tracker)
      → Adds p.0 t p.1
      → Adds (answer (or_advance w c mined remote p).0) t (or_advance w c mined remote p).1
  or_advance-Adds mined remote t (some g, u) h e = h e
  or_advance-Adds mined remote t (none, u) h e = ground (arith, advance-Adds mined remote u e, h)

  pub acquire-Adds :
      (mined remote : ℕ) (finder : Option GapFinder) (t : Tracker)
      → Adds
          (answer (acquire_nonce w c mined remote finder t).0)
          t
          (acquire_nonce w c mined remote finder t).1
  unfolding acquire_nonce
  acquire-Adds mined remote finder t =
      or_advance-Adds mined remote t (fill_gap w c remote finder t) (fill_gap-Adds remote finder t)

  pub release-claims :
      (n : ℕ) (t : Tracker)
      → (release_nonce w c n t).claimed_gaps w c k ≡ true
      → (t.claimed_gaps w c k ≡ true) × (k ≡ n → ⊥)
  unfolding release_nonce
  release-claims n t h = (ground arith, λ e. ground arith)
