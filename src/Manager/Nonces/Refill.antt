-- ===== src/Manager/Nonces/Refill.antt =====
-- A nonce that was given back out of order is handed out again: manager_nonce.go and tracker.go.
use walletarmy.Common.{ℕ, suc, ◌^◌, ◌≤◌, ◌<◌, ◌≡◌, Bool, false, some, pos, arith}
use walletarmy.Nonce.{
  Tracker, acquired, gap_fill, acquire_nonce, release_nonce, fill_gap, clean_claims,
}
use walletarmy.Manager.Nonces.{Stored, is_gap, find_nonce_gap}
use walletarmy.Manager.Nonces.Gap.{find_nonce_gap_first}

-- The claims that a gap search sees after `g` was given back.
abbrev seen : ℕ → ℕ → ℕ → ℕ → Tracker → ℕ → Bool
seen w c remote g t = (clean_claims w c remote (release_nonce w c g t)).claimed_gaps w c

acquire-release_found :
    (w c mined remote m g : ℕ) (stored : Stored) (t : Tracker)
    → t.pending_nonces w c ≡ some (pos m)
    → suc m < 2 ^ 63
    → remote ≤ g
    → g < m
    → find_nonce_gap stored w c remote (suc m) (seen w c remote g t) ≡ some g
    → (acquire_nonce w c mined remote (some (find_nonce_gap stored)) (release_nonce w c g t)).0
      ≡ acquired g gap_fill
unfolding acquire_nonce fill_gap release_nonce
acquire-release_found w c mined remote m g stored t p b le lt e = ground arith

-- A nonce `g` that is given back, below the stored one and not below the remote pending one, is what the
-- next call hands out, as a gap to fill: where the store answers that it has no transaction of `g`, no nonce
-- from the remote pending one up to `g` is a gap already, and the nonces are below 2^63.
pub acquire-release_gap :
    (w c mined remote m g : ℕ) (stored : Stored) (t : Tracker)
    → t.pending_nonces w c ≡ some (pos m)
    → suc m < 2 ^ 63
    → remote ≤ g
    → g < m
    → stored w c g ≡ some 0
    → ((k : ℕ) → remote ≤ k → k < g → is_gap (t.claimed_gaps w c k) (stored w c k) ≡ false)
    → (acquire_nonce w c mined remote (some (find_nonce_gap stored)) (release_nonce w c g t)).0
      ≡ acquired g gap_fill
unfolding clean_claims release_nonce
acquire-release_gap w c mined remote m g stored t p b le lt free before =
    acquire-release_found w c mined remote m g stored t p b le lt (
      find_nonce_gap_first stored w c remote (suc m) g (seen w c remote g t) (ground arith) le
        (omega arith) (λ k a z. ground (arith, before k a z)))
