-- ===== src/Nonce/Fresh.antt =====
-- What one call of `AcquireNonce` does to the stored nonce and to the claims: tracker.go.
use walletarmy.Common.{
  ℕ, suc, ◌^◌, ◌≤◌, ◌<◌, max, ◌≡◌, refl, false, ◌||◌, Option, none, some, arith, pos, ◌+ℤ◌, ◌==◌,
  ◌⊎◌, inl, inr, Option-cases,
}
use walletarmy.Nonce.{
  Tracker, GapFinder, Reason, acquired, abnormal, or_advance, set_pending_nonce, to_uint64,
  clean_claims, fill_gap, advance, acquire_nonce,
}
use walletarmy.Nonce.Session.{FinderSkips, Tip}

module _ (w c : ℕ) where
  pub Tip-set :
      (n top : ℕ) (t : Tracker)
      → suc n < 2 ^ 63
      → Tip (t.pending_nonces w c) top
      → Tip ((set_pending_nonce w c n t).pending_nonces w c) top
  unfolding set_pending_nonce
  Tip-set n top t b h = ground arith

  -- The nonce of `advance` is above all that is held.
  pub advance_fresh :
      (mined remote n top : ℕ) (r : Reason) (t t' : Tracker)
      → Tip (t.pending_nonces w c) top
      → advance w c mined remote t ≡ (acquired n r, t')
      → suc n < 2 ^ 63
      → (top ≤ n) × Tip (t'.pending_nonces w c) (suc n)
  unfolding advance
  advance_fresh mined remote n top r t t' h e b = ground arith

  pub advance-claims :
      (mined remote n : ℕ) (r : Reason) (t t' : Tracker)
      → advance w c mined remote t ≡ (acquired n r, t')
      → (m : ℕ) → t'.claimed_gaps w c m ≡ (m == n || t.claimed_gaps w c m)
  unfolding advance
  advance-claims mined remote n r t t' e m = ground arith

  -- A search that finds no gap keeps the stored nonce, and the claims that are not below `remote`.
  pub fill_gap-none :
      (remote : ℕ) (finder : Option GapFinder) (t t' : Tracker)
      → fill_gap w c remote finder t ≡ (none, t')
      → (t'.pending_nonces w c ≡ t.pending_nonces w c)
        × ((m : ℕ) → remote ≤ m → t'.claimed_gaps w c m ≡ t.claimed_gaps w c m)
  unfolding fill_gap
  fill_gap-none remote none t t' e = (ground arith, λ m h. ground arith)
  fill_gap-none remote (some find) t t' e = (ground arith, λ m h. ground arith)

  -- A gap is below the stored nonce, not below `remote`, and was not claimed.
  fill_gap-some :
      (remote top g : ℕ) (finder : Option GapFinder) (t t' : Tracker)
      → FinderSkips finder
      → Tip (t.pending_nonces w c) top
      → fill_gap w c remote finder t ≡ (some g, t')
      → (t.claimed_gaps w c g ≡ false)
        × (remote ≤ g)
        × Tip (t'.pending_nonces w c) (max (suc g) top)
        × ((m : ℕ) → remote ≤ m → t'.claimed_gaps w c m ≡ (m == g || t.claimed_gaps w c m))
  unfolding fill_gap
  fill_gap-some remote top g none t t' skips h e = ground arith
  fill_gap-some remote top g (some find) t t' skips h e =
      elim (Option-cases (t.pending_nonces w c)) [
        | inl q ↦ ground arith
        | inr (z, q) ↦
            let found =
              skips w c remote (to_uint64 (z +ℤ pos 1))
                ((clean_claims w c remote t).claimed_gaps w c) g in
            (
              ground (arith, found),
              ground (arith, found),
              ground (arith, found),
              λ m b. ground arith,
            )
      ]

  -- What an acquired nonce is: unclaimed and not below `remote`, or above all that is held.
  abbrev pub IsFresh : ℕ → ℕ → ℕ → Tracker → Tracker → Type 0
  IsFresh remote n top t t' =
      (((t.claimed_gaps w c n ≡ false) × (remote ≤ n)) ⊎ (top ≤ n))
      × Tip (t'.pending_nonces w c) (max (suc n) top)
      × ((m : ℕ) → remote ≤ m → t'.claimed_gaps w c m ≡ (m == n || t.claimed_gaps w c m))

  or_advance-IsFresh :
      (mined remote n top : ℕ) (r : Reason) (finder : Option GapFinder) (t t' : Tracker)
      → FinderSkips finder
      → Tip (t.pending_nonces w c) top
      → suc n < 2 ^ 63
      → (p : Option ℕ × Tracker) → fill_gap w c remote finder t ≡ p
      → or_advance w c mined remote p ≡ (acquired n r, t')
      → IsFresh remote n top t t'
  or_advance-IsFresh mined remote n top r finder t t' skips h b (some g, u) e k =
      let (unclaimed, above, tip, claims) = fill_gap-some remote top g finder t u skips h e in
      (ground arith, ground arith, λ m le. ground (arith, claims m le))
  or_advance-IsFresh mined remote n top r finder t t' skips h b (none, u) e k =
      let (same, claims) = fill_gap-none remote finder t u e in
      let (fresh, tip) = advance_fresh mined remote n top r u t' (rw same h) k b in
      (
        inr fresh,
        ground arith,
        λ m le. ground (arith, claims m le, advance-claims mined remote n r u t' k m),
      )

  pub acquire-IsFresh :
      (mined remote n top : ℕ) (r : Reason) (finder : Option GapFinder) (t t' : Tracker)
      → FinderSkips finder
      → Tip (t.pending_nonces w c) top
      → suc n < 2 ^ 63
      → acquire_nonce w c mined remote finder t ≡ (acquired n r, t')
      → IsFresh remote n top t t'
  unfolding acquire_nonce
  acquire-IsFresh mined remote n top r finder t t' skips h b k =
      or_advance-IsFresh mined remote n top r finder t t' skips h b _ refl k

  or_advance-abnormal :
      (mined remote : ℕ) (finder : Option GapFinder) (t t' : Tracker) (p : Option ℕ × Tracker)
      → fill_gap w c remote finder t ≡ p
      → or_advance w c mined remote p ≡ (abnormal, t')
      → (t'.pending_nonces w c ≡ t.pending_nonces w c)
        × ((m : ℕ) → remote ≤ m → t'.claimed_gaps w c m ≡ t.claimed_gaps w c m)
  unfolding advance
  or_advance-abnormal mined remote finder t t' (some g, u) e k = ground arith
  or_advance-abnormal mined remote finder t t' (none, u) e k =
      let (same, claims) = fill_gap-none remote finder t u e in
      (ground arith, λ m le. ground (arith, claims m le))

  -- A refused call keeps the stored nonce, and the claims that are not below `remote`.
  pub acquire-abnormal :
      (mined remote : ℕ) (finder : Option GapFinder) (t t' : Tracker)
      → acquire_nonce w c mined remote finder t ≡ (abnormal, t')
      → (t'.pending_nonces w c ≡ t.pending_nonces w c)
        × ((m : ℕ) → remote ≤ m → t'.claimed_gaps w c m ≡ t.claimed_gaps w c m)
  unfolding acquire_nonce
  acquire-abnormal mined remote finder t t' k =
      or_advance-abnormal mined remote finder t t' _ refl k
