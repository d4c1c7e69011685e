-- ===== src/Nonce/Next.antt =====
-- Which nonce `AcquireNonce` decides on when there is no gap to fill: tracker.go.
use Prim.Native.Nat.{max}
use walletarmy.Common.{ℕ, ◌^◌, ◌<◌, ◌≡◌, Option, none, some, arith, pos, ltb, if◌then◌else◌}
use walletarmy.Nonce.{Acquired, acquired, abnormal, next_nonce}

abbrev pub nonce_of : Acquired → Option ℕ
nonce_of (acquired n r) = some n
nonce_of abnormal = none

-- Where a local next nonce is tracked, the decision is the highest of the local, the mined and the
-- remote pending nonce; it is refused exactly if the mined nonce is above the remote pending one.
next_nonce-tracked :
    (local mined remote : ℕ)
    → local < 2 ^ 64
    → nonce_of (next_nonce (some (pos local)) mined remote)
      ≡ (if ltb remote mined then none else some (max local (max mined remote)))
unfolding next_nonce
next_nonce-tracked local mined remote h = ground arith
