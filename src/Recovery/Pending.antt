-- ===== src/Recovery/Pending.antt =====
-- recovery.go: `processPendingTransactions`. The resumptions that it starts are collected; each is the
-- `resume_transaction` of Recovery.Resume, in a goroutine of its own.
pub mod Counts
pub mod Places
use walletarmy.Common.{
  ℕ, suc, ltb, Bool, true, false, ◌&&◌, Option, none, some, List, [], ◌∷◌, ◌++◌, ℤ, pos, negsuc,
  if◌then◌else◌,
}
use walletarmy.Outside.{
  Outside, Error, Except, ok, err, Network, PendingTx, PendingTxStatus, dropped, TxInfo, TxStatus,
  done, reverted, pending,
}
use walletarmy.Manager.{Manager, Action, pure, ◌>>=◌, ◌>>◌, outside, modify}
use walletarmy.Manager.Network.{reader}
use walletarmy.Recovery.{
  RecoveryResult, RecoveryOptions, add_error, add_recovered, add_mined, add_dropped,
}

module _ (o : Outside) where
  abbrev pub Pending : Type 0
  Pending = PendingTx o.Tx o.Receipt

-- What the loop has counted, and the transactions whose resumption it has started, in order.
pub record Progress (o : Outside) : Type 0 where
  pub result : RecoveryResult
  pub resumed : List (Pending o)

-- `blocks`: a send to a channel whose places are all held for ever, or that has none. `panics`: a channel
-- with a negative size.
pub data Processed (o : Outside) : Type 0 where
  processed : Progress o → Option Error → Processed o
  blocks panics : Processed o

module _ (o : Outside) where
  -- How many of the resumptions never come to their end.
  abbrev pub endless : List (Pending o) → ℕ
  endless [] = 0
  endless (p ∷ ps) = let rest = endless ps in if o.resumption_ends p.hash then rest else suc rest

module _ (o : Outside) (opts : RecoveryOptions o) where
  abbrev pub on_world : (o.World → o.World) → Manager o → Manager o
  on_world f m = record m { world = f m.world }

  abbrev pub call : Option (Pending o → o.World → o.World) → Pending o → Manager o → Manager o
  call none p m = m
  call (some f) p m = on_world (f p) m

  abbrev pub call_mined : Pending o → Option o.Receipt → Manager o → Manager o
  call_mined p receipt m = elim opts.on_tx_mined [ none ↦ m | some f ↦ on_world (f p receipt) m ]

  abbrev pub mark : Pending o → PendingTxStatus → Option o.Receipt → Manager o → Manager o
  mark p status receipt = on_world (o.update_status p.hash status receipt)

  -- A wait for a place ends if not all places are held by resumptions that never end.
  abbrev pub has_place : List (Pending o) → ℤ → Bool
  has_place resumed (pos n) = ltb (endless o resumed) n
  has_place resumed (negsuc n) = false

  -- `false` if the loop is blocked.
  abbrev pub start : Pending o → Progress o → Option o.Tx → Bool → Option (Progress o)
  start p g none monitors = some g
  start p g (some tx) false = some g
  start p g (some tx) true =
      if has_place g.resumed opts.max_concurrent_monitors
      then some (record g { resumed = g.resumed ++ p ∷ [] })
      else none

  abbrev pub count : (RecoveryResult → RecoveryResult) → Progress o → Option (Progress o)
  count f g = some (record g { result = f g.result })

  abbrev pub by_status :
      Pending o
      → Progress o
      → TxInfo o.Receipt
      → TxStatus
      → Action (Manager o) (Option (Progress o))
  by_status p g info done m =
      (count add_mined g, call_mined p info.receipt (mark p PendingTxStatus.mined info.receipt m))
  by_status p g info reverted m = (
    count add_mined g,
    call_mined p info.receipt (mark p PendingTxStatus.reverted info.receipt m),
  )
  by_status p g info pending m = (
    start p (record g { result = add_recovered g.result }) p.transaction opts.resume_monitoring,
    call opts.on_tx_recovered p m,
  )
  by_status p g info _ m = (count add_dropped g, mark p dropped none m)

  -- An error of `TxInfoFromHash` is taken for a dropped transaction.
  abbrev pub with_info :
      Pending o
      → Progress o
      → TxInfo o.Receipt × Option Error
      → Action (Manager o) (Option (Progress o))
  with_info p g (info, some e) m =
      (count add_dropped g, call opts.on_tx_dropped p (mark p dropped none m))
  with_info p g (info, none) m = by_status p g info info.status m

  abbrev pub with_reader :
      Pending o → Progress o → Network → Option Error → Action (Manager o) (Option (Progress o))
  with_reader p g net (some e) m = (count (add_error e) g, m)
  with_reader p g net none m = (do info ← outside o (o.tx_info net p.hash); with_info p g info) m

  abbrev pub with_network :
      Pending o → Progress o → Except Network → Action (Manager o) (Option (Progress o))
  with_network p g (err e) m = (count (add_error e) g, m)
  with_network p g (ok net) m = (do failed ← reader o net; with_reader p g net failed) m

  unfoldable pub process_tx : Pending o → Progress o → Action (Manager o) (Option (Progress o))
  process_tx p g = with_network p g (o.resolve_network p.chain_id)

  -- `rest` is the rest of the loop.
  abbrev pub after_tx :
      (Progress o → Action (Manager o) (Processed o))
      → Option (Progress o)
      → Action (Manager o) (Processed o)
  after_tx rest none m = (blocks, m)
  after_tx rest (some g) m = rest g m

  abbrev pub unless_done :
      (Progress o → Action (Manager o) (Processed o))
      → Pending o
      → Progress o
      → Option Error
      → Action (Manager o) (Processed o)
  unless_done rest p g (some e) m = (processed g (some e), m)
  unless_done rest p g none m = (do next ← process_tx p g; after_tx rest next) m

  unfoldable pub process_txs : List (Pending o) → Progress o → Action (Manager o) (Processed o)
  process_txs [] g m = (processed g none, m)
  process_txs (p ∷ ps) g m =
      (do ended ← outside o o.context_error; unless_done (process_txs ps) p g ended) m

  abbrev pub with_semaphore : ℤ → List (Pending o) → Progress o → Action (Manager o) (Processed o)
  with_semaphore (negsuc n) ps g m = (panics, m)
  with_semaphore (pos n) ps g m = process_txs ps g m

  abbrev pub on_listed :
      RecoveryResult → Except (List (Pending o)) → Action (Manager o) (Processed o)
  on_listed r (err e) m = (processed (record { result = r; resumed = [] }) (some e), m)
  on_listed r (ok ps) m =
      with_semaphore opts.max_concurrent_monitors ps (record { result = r; resumed = [] }) m

  unfoldable pub process_pending : RecoveryResult → Action (Manager o) (Processed o)
  process_pending r = do listed ← outside o o.list_all_pending; on_listed r listed
