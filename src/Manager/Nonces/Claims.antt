-- ===== src/Manager/Nonces/Claims.antt =====
-- What `acquireNonce` and `ReleaseNonce` of manager_nonce.go do to the claims of one chain.
use walletarmy.Common.{ℕ, ◌≡◌, ◌⊎◌, inl, true, Option, none, some, arith}
use walletarmy.Outside.{Outside, Network, Error, Except, ok, err}
use walletarmy.Nonce.{Tracker, Acquired, acquired, abnormal, acquire_nonce}
use walletarmy.Nonce.Claims.{Adds, answer, acquire-Adds, release-claims}
use walletarmy.Manager.{Manager, outside}
use walletarmy.Manager.Network.{reader}
use walletarmy.Manager.Network.Frame.{reader-KeepsTracker}
use walletarmy.Manager.Nonces.{
  reserve_nonce, reserved, with_pending, with_mined, with_reader, next_nonce, release,
  persist_nonce_acquisition, persist_nonce_release, gap_finder,
}

abbrev pub nonce_in : Except ℕ → Option ℕ
nonce_in (ok n) = some n
nonce_in (err e) = none

module _ (o : Outside) (w : ℕ) (net : Network) (k : ℕ) where
  -- Going from one manager to another adds no claim of `k` unless `k` is the nonce.
  abbrev pub AddsClaim : Option ℕ → Manager o → Manager o → Type 0
  AddsClaim n m m' = Adds w net.chain_id k n m.nonce_tracker m'.nonce_tracker

  reserved-AddsClaim :
      (m : Manager o) (p : Acquired × Tracker)
      → Adds w net.chain_id k (answer p.0) m.nonce_tracker p.1
      → AddsClaim (nonce_in (reserved o w net.chain_id p m).0) m (reserved o w net.chain_id p m).1
  unfolding persist_nonce_acquisition
  reserved-AddsClaim m (acquired n r, t) h e = ground (arith, h)
  reserved-AddsClaim m (abnormal, t) h e = h e

  reserve-AddsClaim :
      (mined remote : ℕ) (m : Manager o)
      → AddsClaim
          (nonce_in (reserve_nonce o w net mined remote m).0)
          m
          (reserve_nonce o w net mined remote m).1
  unfolding reserve_nonce
  reserve-AddsClaim mined remote m =
      reserved-AddsClaim m
        (acquire_nonce w net.chain_id mined remote (gap_finder o m) m.nonce_tracker)
        (acquire-Adds w net.chain_id k mined remote (gap_finder o m) m.nonce_tracker)

  with_pending-AddsClaim :
      (mined : ℕ) (remote : Except ℕ) (m : Manager o)
      → AddsClaim
          (nonce_in (with_pending o w net mined remote m).0)
          m
          (with_pending o w net mined remote m).1
  with_pending-AddsClaim mined (err e) m h = inl h
  with_pending-AddsClaim mined (ok remote) m h = reserve-AddsClaim mined remote m h

  with_mined-AddsClaim :
      (mined : Except ℕ) (m : Manager o)
      → AddsClaim (nonce_in (with_mined o w net mined m).0) m (with_mined o w net mined m).1
  with_mined-AddsClaim (err e) m h = inl h
  with_mined-AddsClaim (ok mined) m h =
      with_pending-AddsClaim mined (o.pending_nonce net w m.world).0
        (outside o (o.pending_nonce net w) m).1 h

  with_reader-AddsClaim :
      (failed : Option Error) (m : Manager o)
      → AddsClaim (nonce_in (with_reader o w net failed m).0) m (with_reader o w net failed m).1
  with_reader-AddsClaim (some e) m h = inl h
  with_reader-AddsClaim none m h =
      with_mined-AddsClaim (o.mined_nonce net w m.world).0 (outside o (o.mined_nonce net w) m).1 h

  -- The only claim that `acquireNonce` adds is that of the nonce that it returns: whatever is claimed
  -- after it was claimed before, or is that nonce. If it fails, it adds none.
  pub next-AddsClaim :
      (m : Manager o)
      → (next_nonce o w net m).1.nonce_tracker.claimed_gaps w net.chain_id k ≡ true
      → (m.nonce_tracker.claimed_gaps w net.chain_id k ≡ true)
        ⊎ (nonce_in (next_nonce o w net m).0 ≡ some k)
  unfolding next_nonce
  next-AddsClaim m h = ground (
    arith,
    reader-KeepsTracker o net m,
    with_reader-AddsClaim (reader o net m).0 (reader o net m).1 h,
  )

  -- Giving the nonce back takes the claim away.
  pub release-AddsClaim :
      (n : ℕ) (m m' : Manager o)
      → AddsClaim (some n) m m'
      → AddsClaim none m (release o w net n m').1
  unfolding release persist_nonce_release
  release-AddsClaim n m m' h e =
      let (claimed, ne) = release-claims w net.chain_id k n m'.nonce_tracker (ground arith) in
      ground (arith, h claimed, ne)
