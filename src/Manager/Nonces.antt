-- ===== src/Manager/Nonces.antt =====
-- manager_nonce.go: nonces from the tracker and the nodes together.
pub mod Gap
pub mod Refill
pub mod Stale
pub mod Claims
use walletarmy.Common.{
  ℤ, ℕ, zero, suc, ◌-◌, Bool, true, false, Option, none, some, ltb, ◌==◌, if◌then◌else◌,
}
use walletarmy.Common.Text.{codes}
use walletarmy.Outside.{
  Outside, Error, Except, ok, err, sentinel, wrapped, abnormal_nonce_state, Network,
}
use walletarmy.Nonce.{
  Tracker, GapFinder, Acquired, acquired, abnormal, acquire_nonce, release_nonce,
  resync_from_remote, get_pending_nonce, set_pending_nonce,
}
use walletarmy.Manager.{Manager, Action, pure, ◌>>=◌, ◌>>◌, outside, modify}
use walletarmy.Manager.Network.{reader}

-- `GetByNonce` of the store: the number of transactions, or an error.
abbrev pub Stored : Type 0
Stored = ℕ → ℕ → ℕ → Option ℕ

-- The nonce is free: not claimed, and the store answers that it has no transaction.
abbrev pub is_gap : Bool → Option ℕ → Bool
is_gap true txs = false
is_gap false none = false
is_gap false (some count) = count == 0

-- The loop from `n`, with the rounds that are left.
pub find_from : (ℕ → Bool) → ℕ → ℕ → Option ℕ
find_from free zero n = none
find_from free (suc rounds) n =
    let rest = find_from free rounds (suc n) in if free n then some n else rest

unfoldable pub find_nonce_gap : Stored → GapFinder
find_nonce_gap stored w c from to claimed =
    find_from (λ n. is_gap (claimed n) (stored w c n)) (to - from) from

module _ (o : Outside) where
  abbrev on_tracker : (Tracker → Tracker) → Action (Manager o) (Unit {0})
  on_tracker f = modify o λ m. record m { nonce_tracker = f m.nonce_tracker }

  abbrev pub set_pending : ℕ → Network → ℕ → Action (Manager o) (Unit {0})
  set_pending wallet net nonce = on_tracker (set_pending_nonce wallet net.chain_id nonce)

  unfoldable pub pending_nonce : ℕ → Network → Action (Manager o) (Option ℤ)
  pending_nonce wallet net m = (get_pending_nonce wallet net.chain_id m.nonce_tracker, m)

  -- The store is read under the wallet's lock, at one state of the world.
  abbrev pub gap_finder : Manager o → Option GapFinder
  gap_finder m = if m.has_tx_store then some (find_nonce_gap (o.stored_txs m.world)) else none

  unfoldable pub persist_nonce_acquisition : ℕ → ℕ → ℕ → Manager o → Manager o
  persist_nonce_acquisition wallet chain nonce m =
      if m.has_nonce_store
      then record m {
        world = o.save_pending wallet chain nonce (o.add_reserved wallet chain nonce m.world);
      }
      else m

  unfoldable pub persist_nonce_release : ℕ → ℕ → ℕ → Manager o → Manager o
  persist_nonce_release wallet chain nonce m =
      if m.has_nonce_store
      then record m { world = o.remove_reserved wallet chain nonce m.world }
      else m

  -- The way of the answer through `int64` and `big.Int` is left out, as in the nonces of the retry state: it
  -- is the identity below 2^63.
  abbrev pub reserved : ℕ → ℕ → Acquired × Tracker → Action (Manager o) (Except ℕ)
  reserved wallet chain (acquired n r, t) m =
      (ok n, persist_nonce_acquisition wallet chain n (record m { nonce_tracker = t }))
  reserved wallet chain (abnormal, t) m =
      (err (sentinel abnormal_nonce_state), record m { nonce_tracker = t })

  -- The call of the tracker, once the nodes have answered.
  unfoldable pub reserve_nonce : ℕ → Network → ℕ → ℕ → Action (Manager o) (Except ℕ)
  reserve_nonce wallet net mined remote m =
      reserved wallet net.chain_id
        (acquire_nonce wallet net.chain_id mined remote (gap_finder m) m.nonce_tracker) m

  abbrev pub with_pending : ℕ → Network → ℕ → Except ℕ → Action (Manager o) (Except ℕ)
  with_pending wallet net mined (err e) =
      pure (err (wrapped (codes "couldn't get remote pending nonce") e))
  with_pending wallet net mined (ok remote) = reserve_nonce wallet net mined remote

  abbrev pub with_mined : ℕ → Network → Except ℕ → Action (Manager o) (Except ℕ)
  with_mined wallet net (err e) = pure (err (wrapped (codes "couldn't get mined nonce") e))
  with_mined wallet net (ok mined) = do
    remote ← outside o (o.pending_nonce net wallet)
    with_pending wallet net mined remote

  abbrev pub with_reader : ℕ → Network → Option Error → Action (Manager o) (Except ℕ)
  with_reader wallet net (some e) = pure (err (wrapped (codes "couldn't get reader") e))
  with_reader wallet net none = do
    mined ← outside o (o.mined_nonce net wallet)
    with_mined wallet net mined

  -- `acquireNonce`, and `nonce`, which calls it.
  unfoldable pub next_nonce : ℕ → Network → Action (Manager o) (Except ℕ)
  next_nonce wallet net = do failed ← reader o net; with_reader wallet net failed

  unfoldable pub resync_nonce_from_chain : ℕ → Network → Action (Manager o) (Option Error)
  resync_nonce_from_chain wallet net = do
    failed ← reader o net
    elim failed [
      | some e ↦ pure (some (wrapped (codes "couldn't get reader for nonce resync") e))
      | none ↦ do
        mined ← outside o (o.mined_nonce net wallet)
        elim mined [
          | err e ↦ pure (some (wrapped (codes "couldn't get mined nonce for resync") e))
          | ok mined ↦ do
            remote ← outside o (o.pending_nonce net wallet)
            elim remote [
              | err e ↦ pure (some (wrapped (codes "couldn't get pending nonce for resync") e))
              | ok remote ↦ do
                on_tracker (resync_from_remote wallet net.chain_id mined remote)
                pure none
            ]
        ]
    ]

  unfoldable pub release : ℕ → Network → ℕ → Action (Manager o) (Unit {0})
  release wallet net nonce m = (
    tt,
    persist_nonce_release wallet net.chain_id nonce
        (record m { nonce_tracker = release_nonce wallet net.chain_id nonce m.nonce_tracker }),
  )

-- `nonceStatus`.
pub data NonceStatus : Type 0 where
  unknown blocking pending consumed : NonceStatus

module _ (o : Outside) where
  unfoldable pub get_nonce_status : ℕ → ℕ → Network → Action (Manager o) NonceStatus
  get_nonce_status nonce wallet net = do
    failed ← reader o net
    elim failed [
      | some e ↦ pure unknown
      | none ↦ do
        mined ← outside o (o.mined_nonce net wallet)
        elim mined [
          | err e ↦ pure unknown
          | ok mined ↦
              pure
                (if ltb nonce mined then consumed else if nonce == mined then blocking else pending)
        ]
    ]
