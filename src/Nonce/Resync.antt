-- ===== src/Nonce/Resync.antt =====
-- Going back to the chain's state: `ResyncFromRemote` of tracker.go.
use walletarmy.Common.{ℕ, ◌^◌, ◌≡◌, ◌<◌, some, none, arith, max, ltb, ◌&&◌, if◌then◌else◌}
use walletarmy.Nonce.{Tracker, fill_gap, advance, acquire_nonce, resync_from_remote}
use walletarmy.Nonce.Next.{nonce_of}

-- After a resync, whatever the tracker held, the next nonce is the remote pending one, unless the
-- mined one is above it, which is refused; the finder is not used, and the nonces are below 2^63.
pub acquire-resync :
    (w c mined remote : ℕ) (t : Tracker)
    → max mined remote < 2 ^ 63
    → let t' = resync_from_remote w c mined remote t in
      ((nonce_of (acquire_nonce w c mined remote none t').0)
        ≡ (if ltb remote mined then none else some remote))
unfolding acquire_nonce fill_gap advance resync_from_remote
acquire-resync w c mined remote t h = ground arith

-- A resync drops the claims from the chain's next nonce on, and keeps those below it.
resync-claims :
    (w c mined remote n : ℕ) (t : Tracker)
    → (resync_from_remote w c mined remote t).claimed_gaps w c n
      ≡ (ltb n (max mined remote) && t.claimed_gaps w c n)
unfolding resync_from_remote
resync-claims w c mined remote n t = ground arith
