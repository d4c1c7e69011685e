-- ===== src/Recovery/Nonces.antt =====
-- recovery.go: `reconcileNonceState`, over the states of the nonce store.
pub mod Counts
pub mod Raises
use walletarmy.Common.{ℕ, Option, none, some, List, [], ◌∷◌, ltb, if◌then◌else◌}
use walletarmy.Outside.{Outside, Error, Except, ok, err, Network, NonceState}
use walletarmy.Manager.{Manager, Action, pure, ◌>>=◌, ◌>>◌, outside, modify}
use walletarmy.Manager.Network.{reader}
use walletarmy.Recovery.{RecoveryResult, reconcile, add_error, add_reconciled}

module _ (o : Outside) where
  -- The reserved nonces below the mined one leave the store.
  abbrev pub remove_confirmed : ℕ → ℕ → ℕ → List ℕ → o.World → o.World
  remove_confirmed wallet chain mined [] w = w
  remove_confirmed wallet chain mined (n ∷ ns) w =
      remove_confirmed wallet chain mined ns
        (if ltb n mined then o.remove_reserved wallet chain n w else w)

  abbrev pub settle_state : NonceState → ℕ → ℕ → Manager o → Manager o
  settle_state s mined remote m = record m {
    nonce_tracker =
        reconcile s.wallet s.chain_id s.local_pending_nonce mined remote m.nonce_tracker;
    world = remove_confirmed s.wallet s.chain_id mined s.reserved_nonces m.world;
  }

  abbrev pub with_remote :
      NonceState → RecoveryResult → ℕ → Except ℕ → Action (Manager o) RecoveryResult
  with_remote s r mined (err e) m = (add_error e r, m)
  with_remote s r mined (ok remote) m = (add_reconciled r, settle_state s mined remote m)

  abbrev pub with_mined :
      NonceState → RecoveryResult → Network → Except ℕ → Action (Manager o) RecoveryResult
  with_mined s r net (err e) m = (add_error e r, m)
  with_mined s r net (ok mined) m =
      (do remote ← outside o (o.pending_nonce net s.wallet); with_remote s r mined remote) m

  abbrev pub with_reader :
      NonceState → RecoveryResult → Network → Option Error → Action (Manager o) RecoveryResult
  with_reader s r net (some e) m = (add_error e r, m)
  with_reader s r net none m =
      (do mined ← outside o (o.mined_nonce net s.wallet); with_mined s r net mined) m

  abbrev pub with_network :
      NonceState → RecoveryResult → Except Network → Action (Manager o) RecoveryResult
  with_network s r (err e) m = (add_error e r, m)
  with_network s r (ok net) m = (do failed ← reader o net; with_reader s r net failed) m

  unfoldable pub reconcile_state : NonceState → RecoveryResult → Action (Manager o) RecoveryResult
  reconcile_state s r = with_network s r (o.resolve_network s.chain_id)

  -- `rest` is the rest of the loop; the end of the context stops it.
  abbrev pub unless_done :
      (RecoveryResult → Action (Manager o) (RecoveryResult × Option Error))
      → NonceState
      → RecoveryResult
      → Option Error
      → Action (Manager o) (RecoveryResult × Option Error)
  unless_done rest s r (some e) m = ((r, some e), m)
  unless_done rest s r none m = (do r' ← reconcile_state s r; rest r') m

  unfoldable pub reconcile_states :
      List NonceState → RecoveryResult → Action (Manager o) (RecoveryResult × Option Error)
  reconcile_states [] r m = ((r, none), m)
  reconcile_states (s ∷ ss) r m =
      (do ended ← outside o o.context_error; unless_done (reconcile_states ss) s r ended) m

  abbrev pub on_listed :
      RecoveryResult → Except (List NonceState) → Action (Manager o) (RecoveryResult × Option Error)
  on_listed r (err e) m = ((r, some e), m)
  on_listed r (ok states) m = reconcile_states states r m

  unfoldable pub reconcile_nonce_state :
      RecoveryResult → Action (Manager o) (RecoveryResult × Option Error)
  reconcile_nonce_state r = do listed ← outside o o.list_all_nonces; on_listed r listed
