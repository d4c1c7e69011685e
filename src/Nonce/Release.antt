-- ===== src/Nonce/Release.antt =====
-- Giving a nonce back: `ReleaseNonce` of tracker.go.
use walletarmy.Common.{ℕ, suc, ◌^◌, ◌≡◌, ◌≤◌, ◌<◌, Option, some, none, arith, ℤ, pos}
use walletarmy.Nonce.{Tracker, Reason, acquired, fill_gap, advance, acquire_nonce, release_nonce}
use walletarmy.Nonce.Next.{nonce_of}

-- What is stored stays a nonce below 2^63 - 1.
abbrev pub InRange : Option ℤ → Type 0
InRange none = Unit
InRange (some (pos m)) = suc m < 2 ^ 63
InRange (some _) = ⊥

-- A nonce that is given back at once is the next one that is handed out: with no finder, nonces below
-- 2^63 - 1, and nodes that agree on the pending nonces and do not answer less for the pending one
-- than for the mined one.
pub acquire-release :
    (w c mined remote n : ℕ) (r : Reason) (t t' : Tracker)
    → InRange (t.pending_nonces w c)
    → mined ≤ remote
    → suc n < 2 ^ 63
    → acquire_nonce w c mined remote none t ≡ (acquired n r, t')
    → nonce_of (acquire_nonce w c mined remote none (release_nonce w c n t')).0 ≡ some n
unfolding acquire_nonce fill_gap advance release_nonce
acquire-release w c mined remote n r t t' h le b e = ground arith
