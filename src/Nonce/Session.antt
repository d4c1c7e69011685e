-- ===== src/Nonce/Session.antt =====
-- The callers of one wallet on one chain as a step relation, and what they hold: tracker.go.
use walletarmy.Common.{
  ℕ, suc, ◌^◌, ◌≤◌, ◌<◌, max, ◌≡◌, Bool, false, Option, none, some, List, [], ◌∷◌, ℤ, pos, negsuc,
  All, ◌==◌, if◌then◌else◌,
}
use walletarmy.Nonce.{
  Tracker, GapFinder, Reason, acquired, abnormal, set_pending_nonce, acquire_nonce, release_nonce,
  resync_from_remote,
}

-- What the callers hold: the nonces that were handed out and not released, newest first, and the
-- highest pending nonce that the nodes have answered.
pub record Session : Type 0 where
  pub tracker : Tracker
  pub held : List ℕ
  pub floor : ℕ

abbrev pub remove : ℕ → List ℕ → List ℕ
remove n [] = []
remove n (x ∷ xs) = let rest = remove n xs in if x == n then rest else x ∷ rest

-- The contract that the comment on `GapFinder` states.
abbrev pub Skips : GapFinder → Type 0
Skips find =
    (w c from to : ℕ) (claimed : ℕ → Bool) (n : ℕ)
    → find w c from to claimed ≡ some n
    → (claimed n ≡ false) × (from ≤ n) × (n < to)

abbrev pub FinderSkips : Option GapFinder → Type 0
FinderSkips none = Unit
FinderSkips (some find) = Skips find

-- The steps of any number of callers on one wallet and chain, each under the lock. The nodes'
-- pending nonce does not fall from one call to the next (Manager/Nonces/Stale has the case where it
-- does, since it is read before the lock is taken), and nonces stay below 2^63 - 1. A resync is made where no nonce is held
-- from the chain's next one on: otherwise it hands out again what another caller holds.
pub data Step (w c : ℕ) (s s' : Session) : Type 0 where
  take :
      (mined remote n : ℕ) (r : Reason) (finder : Option GapFinder) (t : Tracker)
      → FinderSkips finder
      → s.floor ≤ remote
      → acquire_nonce w c mined remote finder s.tracker ≡ (acquired n r, t)
      → suc n < 2 ^ 63
      → s' ≡ record { tracker = t; held = n ∷ s.held; floor = remote }
      → Step w c s s'
  refuse :
      (mined remote : ℕ) (finder : Option GapFinder) (t : Tracker)
      → FinderSkips finder
      → s.floor ≤ remote
      → acquire_nonce w c mined remote finder s.tracker ≡ (abnormal, t)
      → s' ≡ record { tracker = t; held = s.held; floor = remote }
      → Step w c s s'
  broadcast :
      (n : ℕ)
      → suc n < 2 ^ 63
      → s' ≡ record s { tracker = set_pending_nonce w c n s.tracker }
      → Step w c s s'
  release :
      (n : ℕ)
      → s' ≡ record s { tracker = release_nonce w c n s.tracker; held = remove n s.held }
      → Step w c s s'
  resync :
      (mined remote : ℕ)
      → s.floor ≤ remote
      → max mined remote < 2 ^ 63
      → All (λ n. n < max mined remote) s.held
      → s' ≡ record {
        tracker = resync_from_remote w c mined remote s.tracker;
        held = s.held;
        floor = remote;
      }
      → Step w c s s'

pub data Steps (w c : ℕ) (s : Session) : Session → Type 0 where
  here : Steps w c s s
  next : {t u : Session} → Steps w c s t → Step w c t u → Steps w c s u

-- One above the highest nonce of a list, 0 for the empty list.
abbrev pub ceiling : List ℕ → ℕ
ceiling [] = 0
ceiling (n ∷ ns) = max (suc n) (ceiling ns)

-- The stored nonce is at least each one that is held; where none is stored, none is held.
abbrev pub Tip : Option ℤ → ℕ → Type 0
Tip none top = top ≡ 0
Tip (some (pos m)) top = (top ≤ suc m) × (suc m < 2 ^ 63)
Tip (some (negsuc m)) top = ⊥
