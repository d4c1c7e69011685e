-- ===== src/Recovery/Nonces/Counts.antt =====
-- The numbers that `reconcileNonceState` reports: recovery.go.
use walletarmy.Common.{ℕ, suc, ◌+◌, ◌≡◌, Option, none, some, List, [], ◌∷◌, ◌++◌, length, arith}
use walletarmy.Outside.{Outside, Error, Except, ok, err, Network, NonceState}
use walletarmy.Manager.{Manager, Action}
use walletarmy.Recovery.{RecoveryResult}
use walletarmy.Recovery.Nonces.{
  with_remote, with_mined, with_reader, with_network, reconcile_state, unless_done,
  reconcile_states,
}

pub length-snoc {ℓ} : {A : Type ℓ} (xs : List A) (x : A) → length (xs ++ x ∷ []) ≡ length xs + 1
length-snoc [] x = omega arith
length-snoc (y ∷ xs) x = omega (arith, length-snoc xs x)

-- `n` states more, each reconciled or with an error, and nothing else.
abbrev pub StatesCounted : ℕ → RecoveryResult → RecoveryResult → Type 0
StatesCounted n r r' =
    (r'.reconciled_nonces + length r'.errors ≡ r.reconciled_nonces + length r.errors + n)
    × (r'.recovered_txs ≡ r.recovered_txs)
    × (r'.mined_txs ≡ r.mined_txs)
    × (r'.dropped_txs ≡ r.dropped_txs)

module _ (o : Outside) where
  with_remote-counts :
      (s : NonceState) (r : RecoveryResult) (mined : ℕ) (remote : Except ℕ) (m : Manager o)
      → StatesCounted 1 r (with_remote o s r mined remote m).0
  with_remote-counts s r mined (ok n) m = omega arith
  with_remote-counts s r mined (err e) m = omega (arith, length-snoc r.errors e)

  with_mined-counts :
      (s : NonceState) (r : RecoveryResult) (net : Network) (mined : Except ℕ) (m : Manager o)
      → StatesCounted 1 r (with_mined o s r net mined m).0
  with_mined-counts s r net (ok n) m = with_remote-counts s r n _ _
  with_mined-counts s r net (err e) m = omega (arith, length-snoc r.errors e)

  with_reader-counts :
      (s : NonceState) (r : RecoveryResult) (net : Network) (failed : Option Error) (m : Manager o)
      → StatesCounted 1 r (with_reader o s r net failed m).0
  with_reader-counts s r net none m = with_mined-counts s r net _ _
  with_reader-counts s r net (some e) m = omega (arith, length-snoc r.errors e)

  with_network-counts :
      (s : NonceState) (r : RecoveryResult) (net : Except Network) (m : Manager o)
      → StatesCounted 1 r (with_network o s r net m).0
  with_network-counts s r (ok net) m = with_reader-counts s r net _ _
  with_network-counts s r (err e) m = omega (arith, length-snoc r.errors e)

  reconcile_state-counts :
      (s : NonceState) (r : RecoveryResult) (m : Manager o)
      → StatesCounted 1 r (reconcile_state o s r m).0
  unfolding reconcile_state
  reconcile_state-counts s r m = with_network-counts s r (o.resolve_network s.chain_id) m

  unless_done-counts :
      (rest : RecoveryResult → Action (Manager o) (RecoveryResult × Option Error)) (n : ℕ)
      (r' : RecoveryResult) (m' : Manager o)
      → ((q : RecoveryResult) (m : Manager o) → rest q m ≡ ((r', none), m') → StatesCounted n q r')
      → (s : NonceState) (r : RecoveryResult) (ended : Option Error) (m : Manager o)
      → unless_done o rest s r ended m ≡ ((r', none), m')
      → StatesCounted (suc n) r r'
  unless_done-counts rest n r' m' ih s r (some e) m h = cc
  unless_done-counts rest n r' m' ih s r none m h = omega (
    arith,
    reconcile_state-counts s r m,
    ih (reconcile_state o s r m).0 (reconcile_state o s r m).1 h,
  )

  -- A pass over the stored nonce states that the context lets end counts each state once, as
  -- reconciled or by an error, and counts no transaction.
  reconcile_states-counts :
      (ss : List NonceState) (r r' : RecoveryResult) (m m' : Manager o)
      → reconcile_states o ss r m ≡ ((r', none), m')
      → StatesCounted (length ss) r r'
  unfolding reconcile_states
  reconcile_states-counts [] r r' m m' h = ground arith
  reconcile_states-counts (s ∷ ss) r r' m m' h =
      unless_done-counts (reconcile_states o ss) (length ss) r' m'
        (λ q k e. reconcile_states-counts ss q r' k m' e) s r _ _ h
