-- ===== src/Nonce/Frame.antt =====
-- No call on one wallet and chain changes what another wallet or chain has: tracker.go.
use walletarmy.Common.{ℕ, ◌≡◌, ◌≢◌, ◌⊎◌, Option, some, none, arith}
use walletarmy.Nonce.{
  Tracker, GapFinder, fill_gap, or_advance, set_pending_nonce, acquire_nonce, advance,
  resync_from_remote, release_nonce,
}

-- The calls of the package that write.
pub data Call : Type 0 where
  set_pending release : ℕ → Call
  acquire : ℕ → ℕ → Option GapFinder → Call
  resync : ℕ → ℕ → Call

unfoldable pub after : ℕ → ℕ → Call → Tracker → Tracker
unfolding set_pending_nonce release_nonce resync_from_remote
after w c (set_pending n) t = set_pending_nonce w c n t
after w c (release n) t = release_nonce w c n t
after w c (acquire mined remote finder) t = (acquire_nonce w c mined remote finder t).1
after w c (resync mined remote) t = resync_from_remote w c mined remote t

abbrev pub Agree : ℕ → ℕ → Tracker → Tracker → Type 0
Agree v d t t' =
    (t'.pending_nonces v d ≡ t.pending_nonces v d)
    × ((n : ℕ) → t'.claimed_gaps v d n ≡ t.claimed_gaps v d n)

module _ (w c v d : ℕ) (apart : (v ≢ w) ⊎ (d ≢ c)) where
  advance-Agree : (mined remote : ℕ) (t : Tracker) → Agree v d t (advance w c mined remote t).1
  unfolding advance
  advance-Agree mined remote t = (ground arith, λ n. ground arith)

  fill_gap-Agree :
      (remote : ℕ) (finder : Option GapFinder) (t : Tracker)
      → Agree v d t (fill_gap w c remote finder t).1
  unfolding fill_gap
  fill_gap-Agree remote none t = (ground arith, λ n. ground arith)
  fill_gap-Agree remote (some find) t = (ground arith, λ n. ground arith)

  or_advance-Agree :
      (mined remote : ℕ) (t : Tracker) (p : Option ℕ × Tracker)
      → Agree v d t p.1
      → Agree v d t (or_advance w c mined remote p).1
  or_advance-Agree mined remote t (some g, u) h = h
  or_advance-Agree mined remote t (none, u) h =
      let (pending, claims) = advance-Agree mined remote u in
      (ground (arith, pending), λ n. ground (arith, claims n, h.1 n))

  -- A call on one wallet and chain leaves the stored nonce and the claims of every other one as they
  -- are.
  pub after-Agree : (call : Call) (t : Tracker) → Agree v d t (after w c call t)
  unfolding after acquire_nonce
  after-Agree (set_pending n) t = (ground arith, λ m. ground arith)
  after-Agree (release n) t = (ground arith, λ m. ground arith)
  after-Agree (acquire mined remote finder) t =
      or_advance-Agree mined remote t (fill_gap w c remote finder t)
        (fill_gap-Agree remote finder t)
  after-Agree (resync mined remote) t = (ground arith, λ m. ground arith)
