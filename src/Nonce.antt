-- ===== src/Nonce.antt =====
-- internal/nonce/tracker.go: the nonces that each wallet has used on each chain. Each method holds
-- the wallet's lock for its whole body, so it is one step. A `sync.Map` of maps is a function of the
-- wallet and the chain; a wallet or a chain that has no entry reads as an empty one.
pub mod Next
pub mod Frame
pub mod Session
pub mod Fresh
pub mod Unique
pub mod Claims
pub mod Release
pub mod Resync
mod Tests
use walletarmy.Common.{
  ℕ, zero, suc, ◌+◌, ◌-◌, ◌%◌, ◌^◌, Bool, true, false, not, ◌&&◌, ◌||◌, Option, none, some, ℤ, pos,
  negsuc, ◌+ℤ◌, lebℤ, ltb, leb, ◌==◌, if◌then◌else◌,
}

-- `big.NewInt(int64(n))` at a `uint64`: the conversion wraps at 2^63.
abbrev pub to_big : ℕ → ℤ
to_big n = if ltb n (2 ^ 63) then pos n else negsuc (2 ^ 64 - n - 1)

-- `Uint64` of a `big.Int`: the low 64 bits of the absolute value.
abbrev pub to_uint64 : ℤ → ℕ
to_uint64 (pos n) = n % 2 ^ 64
to_uint64 (negsuc n) = suc n % 2 ^ 64

pub record Tracker : Type 0 where
  -- the last used nonce
  pub pending_nonces : ℕ → ℕ → Option ℤ
  -- nonces that were handed out and are not known to be broadcast
  pub claimed_gaps : ℕ → ℕ → ℕ → Bool

-- A write at one wallet and chain.
abbrev pub put {ℓ} : {A : Type ℓ} → ℕ → ℕ → A → (ℕ → ℕ → A) → ℕ → ℕ → A
put wallet chain a m w c = if w == wallet && c == chain then a else m w c

unfoldable pub new_tracker : Tracker
new_tracker = record { pending_nonces = λ w c. none; claimed_gaps = λ w c n. false }

unfoldable pub claim_gap : ℕ → ℕ → ℕ → Tracker → Tracker
claim_gap w c nonce t = record t {
  claimed_gaps = put w c (λ n. n == nonce || t.claimed_gaps w c n) t.claimed_gaps;
}

pub unclaim_gap : ℕ → ℕ → ℕ → Tracker → Tracker
unclaim_gap w c nonce t = record t {
  claimed_gaps = put w c (λ n. not (n == nonce) && t.claimed_gaps w c n) t.claimed_gaps;
}

abbrev pub at_least : Option ℤ → ℤ → Bool
at_least none z = false
at_least (some old) z = lebℤ z old

unfoldable pub set_pending_nonce : ℕ → ℕ → ℕ → Tracker → Tracker
set_pending_nonce w c nonce t =
    if at_least (t.pending_nonces w c) (to_big nonce)
    then t
    else record t { pending_nonces = put w c (some (to_big nonce)) t.pending_nonces }

abbrev succ : Option ℤ → Option ℤ
succ none = none
succ (some z) = some (z +ℤ pos 1)

-- The next nonce to use, one above the last used one; `nil` if none is tracked.
unfoldable pub get_pending_nonce : ℕ → ℕ → Tracker → Option ℤ
get_pending_nonce w c t = succ (t.pending_nonces w c)

-- `DecisionReason`, one constructor for each text.
pub data Reason : Type 0 where
  gap_fill first_remote first_mined only_local only_mined nodes_local nodes_remote : Reason

-- `(*AcquireResult, error)`; the only error is `ErrAbnormalNonceState`.
pub data Acquired : Type 0 where
  acquired : ℕ → Reason → Acquired
  abnormal : Acquired

-- `GapFinder`: wallet, chain, the bounds from and to, and the claimed nonces.
abbrev pub GapFinder : Type 0
GapFinder = ℕ → ℕ → ℕ → ℕ → (ℕ → Bool) → Option ℕ

-- Forget the claims below what the nodes have seen.
unfoldable pub clean_claims : ℕ → ℕ → ℕ → Tracker → Tracker
clean_claims w c remote t = record t {
  claimed_gaps = put w c (λ n. not (ltb n remote) && t.claimed_gaps w c n) t.claimed_gaps;
}

unfoldable pub search_gap : ℕ → ℕ → ℕ → ℕ → GapFinder → Tracker → Option ℕ × Tracker
unfolding clean_claims claim_gap
search_gap w c remote local find t =
    let t' = clean_claims w c remote t in
    elim (find w c remote local (t'.claimed_gaps w c)) [
      | none ↦ (none, t')
      | some gap ↦ (some gap, claim_gap w c gap t')
    ]

-- The block under `if gapFinder != nil`.
unfoldable pub fill_gap : ℕ → ℕ → ℕ → Option GapFinder → Tracker → Option ℕ × Tracker
unfolding search_gap get_pending_nonce
fill_gap w c remote none t = (none, t)
fill_gap w c remote (some find) t = elim (get_pending_nonce w c t) [
  | none ↦ (none, t)
  | some local ↦
      if ltb remote (to_uint64 local)
      then search_gap w c remote (to_uint64 local) find t
      else (none, t)
]

-- The decision on the local next nonce, the mined and the remote pending nonce.
unfoldable pub next_nonce : Option ℤ → ℕ → ℕ → Acquired
next_nonce none mined remote =
    if ltb mined remote then acquired remote first_remote else acquired mined first_mined
next_nonce (some big) mined remote =
    let local = to_uint64 big in
    if not (ltb mined remote)
    then (if ltb remote mined
        then abnormal
        else if ltb mined local
        then acquired local only_local
        else acquired mined only_mined)
    else if ltb remote local
    then acquired local nodes_local
    else acquired remote nodes_remote

-- What follows the gap search: decide, and reserve the nonce.
unfoldable pub advance : ℕ → ℕ → ℕ → ℕ → Tracker → Acquired × Tracker
unfolding next_nonce get_pending_nonce set_pending_nonce claim_gap
advance w c mined remote t = elim (next_nonce (get_pending_nonce w c t) mined remote) [
  | acquired n r ↦ (acquired n r, claim_gap w c n (set_pending_nonce w c n t))
  | abnormal ↦ (abnormal, t)
]

abbrev pub or_advance : ℕ → ℕ → ℕ → ℕ → Option ℕ × Tracker → Acquired × Tracker
or_advance w c mined remote (some gap, t) = (acquired gap gap_fill, t)
or_advance w c mined remote (none, t) = advance w c mined remote t

unfoldable pub acquire_nonce : ℕ → ℕ → ℕ → ℕ → Option GapFinder → Tracker → Acquired × Tracker
acquire_nonce w c mined remote finder t = or_advance w c mined remote (fill_gap w c remote finder t)

-- `if nextNonce == 0 { delete } else { set nextNonce - 1 }`.
abbrev below : ℕ → Option ℤ
below zero = none
below (suc n) = some (to_big n)

pub resync_from_remote : ℕ → ℕ → ℕ → ℕ → Tracker → Tracker
resync_from_remote w c mined remote t =
    let next = if ltb remote mined then mined else remote in
    record {
      pending_nonces = put w c (below next) t.pending_nonces;
      claimed_gaps = put w c (λ n. not (leb next n) && t.claimed_gaps w c n) t.claimed_gaps;
    }

abbrev is_tip : Option ℤ → ℕ → Bool
is_tip none nonce = false
is_tip (some current) nonce = to_uint64 current == nonce

unfoldable pub release_nonce : ℕ → ℕ → ℕ → Tracker → Tracker
unfolding unclaim_gap
release_nonce w c nonce t =
    let t' = unclaim_gap w c nonce t in
    if is_tip (t'.pending_nonces w c) nonce
    then record t' { pending_nonces = put w c (below nonce) t'.pending_nonces }
    else t'
