-- ===== src/Exec/Build/Sync.antt =====
-- `BroadcastTxSync` of manager_tx.go: a broadcast that answers with the receipt.
use walletarmy.Common.{Option, none, some, ◌++◌}
use walletarmy.Common.Text.{Text, codes}
use walletarmy.Broadcast.{BroadcastError, other, classify}
use walletarmy.Outside.{Outside, Error, ok, err, Network}
use walletarmy.Manager.{Manager, Action, pure, ◌>>=◌, outside}
use walletarmy.Manager.Network.{broadcaster}
use walletarmy.Exec.Build.{register_broadcasted_tx}

-- The two results: a receipt, which go-ethereum may leave nil, or an error. The error on the chain is
-- the one that is not classified.
pub data SyncResult (Receipt : Type 0) : Type 0 where
  sent : Option Receipt → SyncResult Receipt
  unsupported_chain : Error → SyncResult Receipt
  not_sent : BroadcastError → SyncResult Receipt

-- `message_of` is `Error()`, and `send_sync` is `BroadcastTxSync` of the broadcaster.
module _ (o : Outside) (message_of : Error → Text)
    (send_sync : Network → o.Tx → o.World → (Option o.Receipt × Option Error) × o.World) where
  -- `NewBroadcastError` of a `%w` with the given text.
  abbrev pub failed_by : Text → Error → SyncResult o.Receipt
  failed_by text e = not_sent (classify (other (text ++ message_of e)))

  abbrev pub registered : Option o.Receipt → Option Error → SyncResult o.Receipt
  registered receipt none = sent receipt
  registered receipt (some e) =
      failed_by (codes "couldn't register broadcasted tx in context manager: ") e

  abbrev pub after_send :
      o.Tx → Network → Option o.Receipt × Option Error → Action (Manager o) (SyncResult o.Receipt)
  after_send tx net (receipt, some e) = pure (failed_by (codes "couldn't broadcast sync tx: ") e)
  after_send tx net (receipt, none) = do
    failed ← register_broadcasted_tx o tx net
    pure (registered receipt failed)

  abbrev pub send_to : o.Tx → Network → Option Error → Action (Manager o) (SyncResult o.Receipt)
  send_to tx net (some e) = pure (failed_by (codes "couldn't get broadcaster: ") e)
  send_to tx net none = do answer ← outside o (send_sync net tx); after_send tx net answer

  unfoldable pub broadcast_tx_sync : o.Tx → Action (Manager o) (SyncResult o.Receipt)
  broadcast_tx_sync tx = elim (o.resolve_network (o.chain_of tx)) [
    | err e ↦ pure (unsupported_chain e)
    | ok net ↦ do failed ← broadcaster o net; send_to tx net failed
  ]
