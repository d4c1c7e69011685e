-- ===== src/Recovery/Restart.antt =====
-- The first nonce after a restart: recovery.go and tracker.go.
use walletarmy.Common.{ℕ, ◌^◌, ◌≤◌, ◌<◌, max, ◌≡◌, Option, none, some, arith}
use walletarmy.Nonce.{new_tracker, acquire_nonce, fill_gap, advance}
use walletarmy.Nonce.Next.{nonce_of}
use walletarmy.Recovery.{stored_or_zero, reconcile}

-- After a restart the first nonce is the higher one of the stored and the remote pending nonce: the
-- stored one is handed out itself. The nodes answer the same before and after, no less for the pending
-- nonce than for the mined one, the nonces are below 2^63, and there is no finder.
pub acquire-reconcile :
    (w c mined remote : ℕ) (stored : Option ℕ)
    → mined ≤ remote
    → max (stored_or_zero stored) remote < 2 ^ 63
    → nonce_of
        (acquire_nonce w c mined remote none (reconcile w c stored mined remote new_tracker)).0
      ≡ some (max (stored_or_zero stored) remote)
unfolding acquire_nonce fill_gap advance reconcile new_tracker
acquire-reconcile w c mined remote none le b = ground arith
acquire-reconcile w c mined remote (some n) le b = ground arith
