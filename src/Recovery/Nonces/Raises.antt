-- ===== src/Recovery/Nonces/Raises.antt =====
-- What `reconcileNonceState` does to the tracker: recovery.go.
use walletarmy.Common.{
  ℕ, ◌≡◌, refl, ◌∙◌, subst, Bool-cases, ltb, ◌==◌, ◌&&◌, true, false, ◌-◌, inl, inr, Option, none,
  some, List, [], ◌∷◌, ℤ, ◌≤ℤ◌, arith,
}
use walletarmy.Outside.{Outside, Error, Except, ok, err, Network, NonceState}
use walletarmy.Nonce.{Tracker, put, at_least, to_big, set_pending_nonce}
use walletarmy.Manager.{Manager, Action}
use walletarmy.Manager.Network.{reader}
use walletarmy.Manager.Network.Frame.{reader-KeepsTracker}
use walletarmy.Recovery.{RecoveryResult, reconcile, reconciled_nonce}
use walletarmy.Recovery.Nonces.{
  with_remote, with_mined, with_reader, with_network, reconcile_state, unless_done,
  reconcile_states,
}

-- A nonce that is tracked stays so, and does not fall.
abbrev pub NotBelow : Option ℤ → Option ℤ → Type 0
NotBelow none after = Unit
NotBelow (some a) none = ⊥
NotBelow (some a) (some b) = a ≤ℤ b

NotBelow-refl : (x : Option ℤ) → NotBelow x x
NotBelow-refl none = tt
NotBelow-refl (some a) = omega arith

NotBelow-trans : (x y z : Option ℤ) → NotBelow x y → NotBelow y z → NotBelow x z
NotBelow-trans none y z h k = tt
NotBelow-trans (some a) none z h k = absurd h
NotBelow-trans (some a) (some b) none h k = absurd k
NotBelow-trans (some a) (some b) (some c) h k = omega arith

-- The wallet's claims are as before, and its last used nonce is no lower.
abbrev pub Raises : ℕ → ℕ → Tracker → Tracker → Type 0
Raises v d t t' =
    NotBelow (t.pending_nonces v d) (t'.pending_nonces v d)
    × (t'.claimed_gaps v d ≡ t.claimed_gaps v d)

low-NotBelow : (old : Option ℤ) (z : ℤ) → at_least old z ≡ false → NotBelow old (some z)
low-NotBelow none z h = tt
low-NotBelow (some a) z h = ground arith

module _ (v d : ℕ) where
  Raises-refl : (t : Tracker) → Raises v d t t
  Raises-refl t = (NotBelow-refl (t.pending_nonces v d), refl)

  Raises-trans : (t u w : Tracker) → Raises v d t u → Raises v d u w → Raises v d t w
  Raises-trans t u w h k = (NotBelow-trans (t.pending_nonces v d) _ _ h.0 k.0, k.1 ∙ h.1)

  put-NotBelow :
      (w c : ℕ) (z : ℤ) (t : Tracker)
      → at_least (t.pending_nonces w c) z ≡ false
      → NotBelow (t.pending_nonces v d) (put w c (some z) t.pending_nonces v d)
  put-NotBelow w c z t low = elim (Bool-cases (v == w && d == c)) [
    | inl same ↦ rw same (
        subst (λ x. NotBelow x (some z)) (pending_same same)
          (low-NotBelow (t.pending_nonces w c) z low))
    | inr other ↦ rw other (NotBelow-refl (t.pending_nonces v d))
  ]
    where
      pending_same : (v == w && d == c) ≡ true → t.pending_nonces w c ≡ t.pending_nonces v d
      pending_same same = ground arith

  set_pending-NotBelow :
      (w c n : ℕ) (t : Tracker)
      → NotBelow (t.pending_nonces v d) ((set_pending_nonce w c n t).pending_nonces v d)
  unfolding set_pending_nonce
  set_pending-NotBelow w c n t = elim (Bool-cases (at_least (t.pending_nonces w c) (to_big n))) [
    | inl kept ↦ rw kept (NotBelow-refl (t.pending_nonces v d))
    | inr low ↦ rw low (put-NotBelow w c (to_big n) t low)
  ]

  set_pending-Raises : (w c n : ℕ) (t : Tracker) → Raises v d t (set_pending_nonce w c n t)
  unfolding set_pending_nonce
  set_pending-Raises w c n t = (set_pending-NotBelow w c n t, ground arith)

  reconcile-Raises :
      (w c : ℕ) (stored : Option ℕ) (mined remote : ℕ) (t : Tracker)
      → Raises v d t (reconcile w c stored mined remote t)
  unfolding reconcile
  reconcile-Raises w c stored mined remote t =
      elim (Bool-cases (ltb 0 (reconciled_nonce stored mined remote))) [
        | inl some_nonce ↦
            rw some_nonce (set_pending-Raises w c (reconciled_nonce stored mined remote - 1) t)
        | inr no_nonce ↦ rw no_nonce (Raises-refl t)
      ]

module _ (o : Outside) (v d : ℕ) where
  abbrev RaisesFrom : Manager o → Manager o → Type 0
  RaisesFrom m m' = Raises v d m.nonce_tracker m'.nonce_tracker

  with_remote-Raises :
      (s : NonceState) (r : RecoveryResult) (mined : ℕ) (remote : Except ℕ) (m : Manager o)
      → RaisesFrom m (with_remote o s r mined remote m).1
  with_remote-Raises s r mined (ok remote) m =
      reconcile-Raises v d s.wallet s.chain_id s.local_pending_nonce mined remote m.nonce_tracker
  with_remote-Raises s r mined (err e) m = Raises-refl v d m.nonce_tracker

  with_mined-Raises :
      (s : NonceState) (r : RecoveryResult) (net : Network) (mined : Except ℕ) (m : Manager o)
      → RaisesFrom m (with_mined o s r net mined m).1
  with_mined-Raises s r net (ok n) m =
      with_remote-Raises s r n (o.pending_nonce net s.wallet m.world).0
        (record m { world = (o.pending_nonce net s.wallet m.world).1 })
  with_mined-Raises s r net (err e) m = Raises-refl v d m.nonce_tracker

  with_reader-Raises :
      (s : NonceState) (r : RecoveryResult) (net : Network) (failed : Option Error) (m : Manager o)
      → RaisesFrom m (with_reader o s r net failed m).1
  with_reader-Raises s r net none m =
      with_mined-Raises s r net (o.mined_nonce net s.wallet m.world).0
        (record m { world = (o.mined_nonce net s.wallet m.world).1 })
  with_reader-Raises s r net (some e) m = Raises-refl v d m.nonce_tracker

  with_network-Raises :
      (s : NonceState) (r : RecoveryResult) (net : Except Network) (m : Manager o)
      → RaisesFrom m (with_network o s r net m).1
  with_network-Raises s r (ok net) m =
      subst (λ t. Raises v d t (with_network o s r (ok net) m).1.nonce_tracker)
        (reader-KeepsTracker o net m)
        (with_reader-Raises s r net (reader o net m).0 (reader o net m).1)
  with_network-Raises s r (err e) m = Raises-refl v d m.nonce_tracker

  unless_done-Raises :
      (rest : RecoveryResult → Action (Manager o) (RecoveryResult × Option Error))
      → ((r : RecoveryResult) (m : Manager o) → RaisesFrom m (rest r m).1)
      → (s : NonceState) (r : RecoveryResult) (ended : Option Error) (m : Manager o)
      → RaisesFrom m (unless_done o rest s r ended m).1
  unfolding reconcile_state
  unless_done-Raises rest ih s r (some e) m = Raises-refl v d m.nonce_tracker
  unless_done-Raises rest ih s r none m =
      Raises-trans v d m.nonce_tracker (reconcile_state o s r m).1.nonce_tracker
        (rest (reconcile_state o s r m).0 (reconcile_state o s r m).1).1.nonce_tracker
        (with_network-Raises s r (o.resolve_network s.chain_id) m)
        (ih (reconcile_state o s r m).0 (reconcile_state o s r m).1)

  -- A pass over stored nonce states, however it ends, forgets no nonce and no claim of any wallet on
  -- any chain: what was tracked stays tracked, the last used nonce does not fall, and the claims are
  -- as they were.
  pub reconcile_states-Raises :
      (ss : List NonceState) (r : RecoveryResult) (m : Manager o)
      → Raises v d m.nonce_tracker (reconcile_states o ss r m).1.nonce_tracker
  unfolding reconcile_states
  reconcile_states-Raises [] r m = Raises-refl v d m.nonce_tracker
  reconcile_states-Raises (s ∷ ss) r m =
      unless_done-Raises (reconcile_states o ss) (λ q k. reconcile_states-Raises ss q k) s r
        (o.context_error m.world).0 (record m { world = (o.context_error m.world).1 })
