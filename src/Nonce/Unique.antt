-- ===== src/Nonce/Unique.antt =====
-- Two callers never hold the same nonce of one wallet on one chain: tracker.go.
use walletarmy.Common.{
  ℕ, suc, max, ◌^◌, ◌<◌, ◌≤◌, ◌≡◌, ◌≢◌, true, List, [], ◌∷◌, arith, All, All-map, All-map₂, ◌∙◌,
  Distinct, inl, inr,
}
use walletarmy.Nonce.{Tracker, new_tracker, set_pending_nonce, release_nonce, resync_from_remote}
use walletarmy.Nonce.Session.{
  Session, remove, Step, Steps, take, refuse, broadcast, release, resync, here, next, Tip, ceiling,
}
use walletarmy.Nonce.Fresh.{Tip-set, IsFresh, acquire-IsFresh, acquire-abnormal}

record Inv (w c : ℕ) (s : Session) : Type 0 where
  tip : Tip (s.tracker.pending_nonces w c) (ceiling s.held)
  claims : All (λ n. s.floor ≤ n → s.tracker.claimed_gaps w c n ≡ true) s.held
  distinct : Distinct s.held

All-remove {ℓ} : (P : ℕ → Type ℓ) (n : ℕ) (xs : List ℕ) → All P xs → All P (remove n xs)
All-remove P n [] h = tt
All-remove P n (x ∷ xs) h = ground (arith, All-remove P n xs h.1)

Distinct-remove : (n : ℕ) (xs : List ℕ) → Distinct xs → Distinct (remove n xs)
Distinct-remove n [] h = tt
Distinct-remove n (x ∷ xs) h =
    ground (arith, Distinct-remove n xs h.1, All-remove (λ y. x ≢ y) n xs h.0)

remove-ne : (n : ℕ) (xs : List ℕ) → All (λ x. x ≢ n) (remove n xs)
remove-ne n [] = tt
remove-ne n (x ∷ xs) = ground (arith, remove-ne n xs)

ceiling-remove :
    (n : ℕ) (xs : List ℕ)
    → (ceiling (remove n xs) ≤ ceiling xs) × (ceiling xs ≤ suc n → ceiling (remove n xs) ≤ n)
ceiling-remove n [] = ground arith
ceiling-remove n (x ∷ xs) = ground (arith, ceiling-remove n xs)

ceiling-le : (top : ℕ) (xs : List ℕ) → All (λ x. x < top) xs → ceiling xs ≤ top
ceiling-le top [] h = omega arith
ceiling-le top (x ∷ xs) h = omega (arith, ceiling-le top xs h.1)

ne_of_ceiling : (n : ℕ) (xs : List ℕ) → ceiling xs ≤ n → All (λ x. n ≢ x) xs
ne_of_ceiling n [] h = tt
ne_of_ceiling n (x ∷ xs) h = (omega arith, ne_of_ceiling n xs (omega arith))

module _ (w c : ℕ) where
  -- A fresh nonce is none of those that are held.
  fresh_ne :
      (s : Session) (remote n : ℕ) (t' : Tracker)
      → Inv w c s
      → s.floor ≤ remote
      → IsFresh w c remote n (ceiling s.held) s.tracker t'
      → All (λ x. n ≢ x) s.held
  fresh_ne s remote n t' v le (inl (unclaimed, above), _, _) =
      All-map s.held (λ x claimed e. cc (unclaimed, e, claimed (omega arith))) v.claims
  fresh_ne s remote n t' v le (inr top, _, _) = ne_of_ceiling n s.held top

  release-claims :
      (n m : ℕ) (t : Tracker)
      → m ≢ n
      → (release_nonce w c n t).claimed_gaps w c m ≡ t.claimed_gaps w c m
  unfolding release_nonce
  release-claims n m t h = ground arith

  Tip-release :
      (n top top' : ℕ) (t : Tracker)
      → Tip (t.pending_nonces w c) top
      → top' ≤ top
      → (top ≤ suc n → top' ≤ n)
      → Tip ((release_nonce w c n t).pending_nonces w c) top'
  unfolding release_nonce
  Tip-release n top top' t h le lt = ground arith

  set-claims : (n : ℕ) (t : Tracker) → (set_pending_nonce w c n t).claimed_gaps ≡ t.claimed_gaps
  unfolding set_pending_nonce
  set-claims n t = ground arith

  Tip-resync :
      (mined remote : ℕ) (held : List ℕ) (t : Tracker)
      → max mined remote < 2 ^ 63
      → All (λ n. n < max mined remote) held
      → Tip ((resync_from_remote w c mined remote t).pending_nonces w c) (ceiling held)
  unfolding resync_from_remote
  Tip-resync mined remote held t b lower = ground (arith, ceiling-le (max mined remote) held lower)

  resync-kept :
      (mined remote n : ℕ) (t : Tracker)
      → n < max mined remote
      → t.claimed_gaps w c n ≡ true
      → (resync_from_remote w c mined remote t).claimed_gaps w c n ≡ true
  unfolding resync_from_remote
  resync-kept mined remote n t lt claimed = ground arith

  Step-Inv : {s s' : Session} → Step w c s s' → Inv w c s → Inv w c s'
  Step-Inv {s} (take mined remote n r finder t skips le e b q) v =
      let fresh =
        acquire-IsFresh w c mined remote n (ceiling s.held) r finder s.tracker t skips v.tip b e in
      rw q (record {
        tip = fresh.1;
        claims = (
          λ le'. ground (arith, fresh.2 n le'),
          All-map s.held (λ m h le'. ground (arith, fresh.2 m le', h)) v.claims,
        );
        distinct = (fresh_ne s remote n t v le fresh, v.distinct);
      })
  Step-Inv {s} (refuse mined remote finder t skips le e q) v =
      let (same, claims) = acquire-abnormal w c mined remote finder s.tracker t e in
      rw q (record {
        tip = rw same v.tip;
        claims = All-map s.held (λ m h le'. ground (arith, claims m le', h)) v.claims;
        distinct = v.distinct;
      })
  Step-Inv {s} (broadcast n b q) v = rw q (record {
    tip = Tip-set w c n (ceiling s.held) s.tracker b v.tip;
    claims = rw (set-claims n s.tracker) v.claims;
    distinct = v.distinct;
  })
  Step-Inv {s} (release n q) v = rw q (record {
    tip =
        let (le, lt) = ceiling-remove n s.held in
        Tip-release n (ceiling s.held) (ceiling (remove n s.held)) s.tracker v.tip le lt;
    claims =
        All-map₂ (remove n s.held) (λ m ne claimed le. release-claims n m s.tracker ne ∙ claimed le)
          (remove-ne n s.held) (All-remove _ n s.held v.claims);
    distinct = Distinct-remove n s.held v.distinct;
  })
  Step-Inv {s} (resync mined remote le b lower q) v = rw q (record {
    tip = Tip-resync mined remote s.held s.tracker b lower;
    claims =
        All-map₂ s.held
          (λ n lt claimed le'. resync-kept mined remote n s.tracker lt (claimed (omega arith)))
          lower v.claims;
    distinct = v.distinct;
  })

  Steps-Inv : {s s' : Session} → Steps w c s s' → Inv w c s → Inv w c s'
  Steps-Inv here v = v
  Steps-Inv (next r st) v = Step-Inv st (Steps-Inv r v)

new-Inv : (w c : ℕ) → Inv w c (record { tracker = new_tracker; held = []; floor = 0 })
unfolding new_tracker
new-Inv w c = ground arith

-- In any order of calls by any number of callers, from a new tracker, no nonce is held twice: under
-- the conditions of the steps, which are a finder that keeps its contract, nodes whose pending nonce
-- does not fall, nonces below 2^63 - 1, and no resync while a nonce from the chain's next one on is held.
pub held-Distinct :
    (w c : ℕ) {s : Session}
    → Steps w c (record { tracker = new_tracker; held = []; floor = 0 }) s
    → Distinct s.held
held-Distinct w c steps = (Steps-Inv w c steps (new-Inv w c)).distinct
