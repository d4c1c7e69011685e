-- ===== src/Exec/Build/Records.antt =====
-- What a broadcast leaves behind in the manager: `registerBroadcastedTx` of manager_tx.go.
use walletarmy.Common.{
  ℕ, ◌≡◌, Bool, inl, inr, Bool-cases, true, false, Option, none, some, arith, lebℤ, ℤ,
}
use walletarmy.Common.Text.{Text}
use walletarmy.Outside.{Outside, Error, ok, Network}
use walletarmy.Broadcast.{BroadcastError}
use walletarmy.Nonce.{Tracker, at_least, to_big, set_pending_nonce}
use walletarmy.Manager.{Manager, outside}
use walletarmy.Manager.Network.{broadcaster}
use walletarmy.Manager.Nonces.{set_pending}
use walletarmy.Manager.Gas.{set_tx}
use walletarmy.Exec.Build.{
  register_broadcasted_tx, persist_tx_broadcast, after_broadcast, broadcast_by, broadcast_on,
  broadcast_tx,
}
use walletarmy.Exec.Build.Sync.{SyncResult, sent, after_send, send_to, broadcast_tx_sync}

leb_refl : (z : ℤ) → lebℤ z z ≡ true
leb_refl z = ground arith

at_least-set_pending :
    (w c n : ℕ) (t : Tracker)
    → at_least ((set_pending_nonce w c n t).pending_nonces w c) (to_big n) ≡ true
unfolding set_pending_nonce
at_least-set_pending w c n t = elim (Bool-cases (at_least (t.pending_nonces w c) (to_big n))) [
  | inl h ↦ ground (arith, h)
  | inr h ↦ ground (arith, h, leb_refl (to_big n))
]

module _ (o : Outside) where
  -- The manager knows the transaction of the wallet, and its nonce as pending.
  abbrev pub Recorded : ℕ → Network → o.Tx → Manager o → Type 0
  Recorded wallet net tx m =
      m.txs wallet net.chain_id (o.nonce_of tx) ≡ some tx
      × at_least (m.nonce_tracker.pending_nonces wallet net.chain_id) (to_big (o.nonce_of tx))
        ≡ true

  persist-Recorded :
      (tx : o.Tx) (net : Network) (wallet : ℕ) (m : Manager o)
      → Recorded wallet net tx m
      → Recorded wallet net tx (persist_tx_broadcast o wallet net tx m).1
  persist-Recorded tx net wallet m (known, tracked) =
      (ground (arith, known), ground (arith, tracked))

  set-Recorded :
      (tx : o.Tx) (net : Network) (wallet : ℕ) (m : Manager o)
      → Recorded wallet net tx
          (set_tx o wallet net tx (set_pending o wallet net (o.nonce_of tx) m).1)
  set-Recorded tx net wallet m =
      (ground arith, at_least-set_pending wallet net.chain_id (o.nonce_of tx) m.nonce_tracker)

  pub register-Recorded :
      (tx : o.Tx) (net : Network) (wallet : ℕ) (m : Manager o)
      → o.signer_of tx net.chain_id ≡ ok wallet
      → Recorded wallet net tx (register_broadcasted_tx o tx net m).1
  unfolding register_broadcasted_tx
  register-Recorded tx net wallet m signer =
      rw (register_broadcasted_tx, signer)
        (persist-Recorded tx net wallet
          (set_tx o wallet net tx (set_pending o wallet net (o.nonce_of tx) m).1)
          (set-Recorded tx net wallet m))

  after_broadcast-Recorded :
      (tx : o.Tx) (net : Network) (wallet : ℕ) (answer : Bool × Option BroadcastError)
      (m : Manager o)
      → o.signer_of tx net.chain_id ≡ ok wallet
      → (after_broadcast o tx net answer m).0.0 ≡ true
      → Recorded wallet net tx (after_broadcast o tx net answer m).1
  after_broadcast-Recorded tx net wallet (true, e) m signer h =
      register-Recorded tx net wallet m signer
  after_broadcast-Recorded tx net wallet (false, e) m signer h = ground (arith, h)

  broadcast_by-Recorded :
      (tx : o.Tx) (net : Network) (wallet : ℕ) (failed : Option Error) (m : Manager o)
      → o.signer_of tx net.chain_id ≡ ok wallet
      → (broadcast_by o tx net failed m).0.0 ≡ true
      → Recorded wallet net tx (broadcast_by o tx net failed m).1
  broadcast_by-Recorded tx net wallet (some e) m signer h = ground (arith, h)
  broadcast_by-Recorded tx net wallet none m signer h =
      after_broadcast-Recorded tx net wallet (outside o (o.broadcast net tx) m).0
        (outside o (o.broadcast net tx) m).1 signer h

  broadcast_tx-Recorded :
      (tx : o.Tx) (net : Network) (wallet : ℕ) (m : Manager o)
      → o.resolve_network (o.chain_of tx) ≡ ok net
      → o.signer_of tx net.chain_id ≡ ok wallet
      → (broadcast_tx o tx m).0.0 ≡ true
      → Recorded wallet net tx (broadcast_tx o tx m).1
  unfolding broadcast_tx broadcast_on
  broadcast_tx-Recorded tx net wallet m resolved signer =
      rw (broadcast_tx, resolved)
        (broadcast_by-Recorded tx net wallet (broadcaster o net m).0 (broadcaster o net m).1 signer)

  abbrev pub is_sent : SyncResult o.Receipt → Bool
  is_sent (sent receipt) = true
  is_sent _ = false

  module _ (message_of : Error → Text)
      (send_sync : Network → o.Tx → o.World → (Option o.Receipt × Option Error) × o.World) where
    after_send-Recorded :
        (tx : o.Tx) (net : Network) (wallet : ℕ) (answer : Option o.Receipt × Option Error)
        (m : Manager o)
        → o.signer_of tx net.chain_id ≡ ok wallet
        → is_sent (after_send o message_of send_sync tx net answer m).0 ≡ true
        → Recorded wallet net tx (after_send o message_of send_sync tx net answer m).1
    after_send-Recorded tx net wallet (r, some e) m signer h = ground (arith, h)
    after_send-Recorded tx net wallet (r, none) m signer h =
        register-Recorded tx net wallet m signer

    send_to-Recorded :
        (tx : o.Tx) (net : Network) (wallet : ℕ) (failed : Option Error) (m : Manager o)
        → o.signer_of tx net.chain_id ≡ ok wallet
        → is_sent (send_to o message_of send_sync tx net failed m).0 ≡ true
        → Recorded wallet net tx (send_to o message_of send_sync tx net failed m).1
    send_to-Recorded tx net wallet (some e) m signer h = ground (arith, h)
    send_to-Recorded tx net wallet none m signer h =
        after_send-Recorded tx net wallet (outside o (send_sync net tx) m).0
          (outside o (send_sync net tx) m).1 signer h

    broadcast_tx_sync-Recorded :
        (tx : o.Tx) (net : Network) (wallet : ℕ) (m : Manager o)
        → o.resolve_network (o.chain_of tx) ≡ ok net
        → o.signer_of tx net.chain_id ≡ ok wallet
        → is_sent (broadcast_tx_sync o message_of send_sync tx m).0 ≡ true
        → Recorded wallet net tx (broadcast_tx_sync o message_of send_sync tx m).1
    unfolding broadcast_tx_sync
    broadcast_tx_sync-Recorded tx net wallet m resolved signer =
        rw (broadcast_tx_sync, resolved)
          (send_to-Recorded tx net wallet (broadcaster o net m).0 (broadcaster o net m).1 signer)

    -- Whether a broadcast reports that the transaction was sent, and the manager after it; `true` is
    -- `BroadcastTxSync`.
    abbrev pub reported : Bool → o.Tx → Manager o → Bool × Manager o
    reported false tx m = let (answer, m') = broadcast_tx o tx m in (answer.0, m')
    reported true tx m =
        let (answer, m') = broadcast_tx_sync o message_of send_sync tx m in (is_sent answer, m')

    -- A transaction that a broadcast of either kind reports as sent is known to the manager as one of its
    -- sender, and its nonce as pending, where its network is known and its signature has a sender.
    pub reported-Recorded :
        (is_sync : Bool) (tx : o.Tx) (net : Network) (wallet : ℕ) (m : Manager o)
        → o.resolve_network (o.chain_of tx) ≡ ok net
        → o.signer_of tx net.chain_id ≡ ok wallet
        → (reported is_sync tx m).0 ≡ true
        → Recorded wallet net tx (reported is_sync tx m).1
    reported-Recorded false tx net wallet m resolved signer h =
        broadcast_tx-Recorded tx net wallet m resolved signer h
    reported-Recorded true tx net wallet m resolved signer h =
        broadcast_tx_sync-Recorded tx net wallet m resolved signer h
