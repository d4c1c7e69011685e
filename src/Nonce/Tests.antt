-- ===== src/Nonce/Tests.antt =====
-- The theorems on the nonce tracker at concrete calls of wallet 1 on chain 1.
use walletarmy.Common.{inr, ◌≡◌, refl, none, some, [], ◌∷◌, arith, ltb, if◌then◌else◌, Distinct}
use walletarmy.Nonce.{
  Tracker, first_mined, only_local, new_tracker, acquire_nonce, release_nonce, next_nonce,
  resync_from_remote, set_pending_nonce, fill_gap, advance, claim_gap, get_pending_nonce,
}
use walletarmy.Nonce.Frame.{Agree, after, acquire, after-Agree}
use walletarmy.Nonce.Next.{nonce_of}
use walletarmy.Nonce.Session.{Session, Steps, here, next, take}
use walletarmy.Nonce.Unique.{held-Distinct}
use walletarmy.Nonce.Release.{acquire-release}
use walletarmy.Nonce.Resync.{acquire-resync}

-- The tracker after one and after two calls.
abbrev one_taken : Tracker
one_taken = (acquire_nonce 1 1 5 5 none new_tracker).1

abbrev two_taken : Tracker
two_taken = (acquire_nonce 1 1 5 5 none one_taken).1

abbrev two_held : Session
two_held = record { tracker = two_taken; held = 6 ∷ 5 ∷ []; floor = 5 }

two_held-Steps : Steps 1 1 (record { tracker = new_tracker; held = []; floor = 0 }) two_held
unfolding acquire_nonce fill_gap advance next_nonce get_pending_nonce set_pending_nonce new_tracker
    claim_gap
two_held-Steps =
    next
      (next here (take 5 5 5 first_mined none one_taken tt (omega arith) refl (omega arith) refl))
      (take 5 5 6 only_local none two_taken tt (omega arith) refl (omega arith) refl)

held-Distinct_example : Distinct (6 ∷ 5 ∷ [])
held-Distinct_example = held-Distinct 1 1 two_held-Steps

acquire-release_example :
    nonce_of (acquire_nonce 1 1 5 5 none (release_nonce 1 1 6 two_taken)).0 ≡ some 6
unfolding acquire_nonce fill_gap advance next_nonce get_pending_nonce set_pending_nonce new_tracker
    claim_gap
acquire-release_example =
    acquire-release 1 1 5 5 6 only_local one_taken two_taken (omega arith) (omega arith)
      (omega arith) refl

acquire-resync_example :
    nonce_of (acquire_nonce 1 1 5 8 none (resync_from_remote 1 1 5 8 two_taken)).0
    ≡ (if ltb 8 5 then none else some 8)
acquire-resync_example = acquire-resync 1 1 5 8 two_taken (omega arith)

after-Agree_example : Agree 1 2 two_taken (after 1 1 (acquire 5 5 none) two_taken)
after-Agree_example = after-Agree 1 1 1 2 (inr (ground arith)) (acquire 5 5 none) two_taken
