-- ===== src/Recovery/Pending/Counts.antt =====
-- The numbers that `processPendingTransactions` reports: recovery.go.
use walletarmy.Common.{
  ℕ, suc, ◌+◌, ◌≤◌, ◌≡◌, refl, Bool, true, false, Option, none, some, List, [], ◌∷◌, length, arith,
}
use walletarmy.Outside.{
  Outside, Error, Except, ok, err, Network, TxInfo, TxStatus, mined, reverted, lost, slow,
  cancelled, pending, done, unset, unknown,
}
use walletarmy.Manager.{Manager, Action}
use walletarmy.Manager.Network.{reader}
use walletarmy.Recovery.{RecoveryOptions}
use walletarmy.Recovery.Nonces.Counts.{length-snoc}
use walletarmy.Recovery.Pending.{
  Pending, Progress, Processed, processed, start, by_status, with_info, with_reader, with_network,
  process_tx, after_tx, unless_done, process_txs,
}

-- `n` transactions more, each counted once, and no more resumptions than recovered ones.
abbrev pub TxsCounted : (o : Outside) → ℕ → Progress o → Progress o → Type 0
TxsCounted o n g g' =
    (g'.result.recovered_txs + g'.result.mined_txs + g'.result.dropped_txs + length g'.result.errors
      ≡ g.result.recovered_txs
        + g.result.mined_txs
        + g.result.dropped_txs
        + length g.result.errors
        + n)
    × (g'.result.reconciled_nonces ≡ g.result.reconciled_nonces)
    × (length g'.resumed + g.result.recovered_txs ≤ length g.resumed + g'.result.recovered_txs)

module _ (o : Outside) (opts : RecoveryOptions o) where
  start-counts :
      (p : Pending o) (g g' : Progress o) (tx : Option o.Tx) (monitors : Bool)
      → start o opts p
          (record g { result = record g.result { recovered_txs = g.result.recovered_txs + 1 } })
          tx
          monitors
        ≡ some g'
      → TxsCounted o 1 g g'
  start-counts p g g' none monitors h = ground arith
  start-counts p g g' (some tx) false h = ground arith
  start-counts p g g' (some tx) true h = ground (arith, length-snoc g.resumed p)

  by_status-counts :
      (p : Pending o) (g g' : Progress o) (info : TxInfo o.Receipt) (status : TxStatus)
      (m : Manager o)
      → (by_status o opts p g info status m).0 ≡ some g'
      → TxsCounted o 1 g g'
  by_status-counts p g g' info pending m h =
      start-counts p g g' p.transaction opts.resume_monitoring h
  by_status-counts p g g' info done m h = ground arith
  by_status-counts p g g' info reverted m h = ground arith
  by_status-counts p g g' info mined m h = ground arith
  by_status-counts p g g' info lost m h = ground arith
  by_status-counts p g g' info slow m h = ground arith
  by_status-counts p g g' info cancelled m h = ground arith
  by_status-counts p g g' info unset m h = ground arith
  by_status-counts p g g' info (unknown t) m h = ground arith

  with_info-counts :
      (p : Pending o) (g g' : Progress o) (answer : TxInfo o.Receipt × Option Error) (m : Manager o)
      → (with_info o opts p g answer m).0 ≡ some g'
      → TxsCounted o 1 g g'
  with_info-counts p g g' (info, some e) m h = ground arith
  with_info-counts p g g' (info, none) m h = by_status-counts p g g' info info.status m h

  with_reader-counts :
      (p : Pending o) (g g' : Progress o) (net : Network) (failed : Option Error) (m : Manager o)
      → (with_reader o opts p g net failed m).0 ≡ some g'
      → TxsCounted o 1 g g'
  with_reader-counts p g g' net (some e) m h = ground (arith, length-snoc g.result.errors e)
  with_reader-counts p g g' net none m h =
      with_info-counts p g g' (o.tx_info net p.hash m.world).0
        (record m { world = (o.tx_info net p.hash m.world).1 }) h

  with_network-counts :
      (p : Pending o) (g g' : Progress o) (net : Except Network) (m : Manager o)
      → (with_network o opts p g net m).0 ≡ some g'
      → TxsCounted o 1 g g'
  with_network-counts p g g' (err e) m h = ground (arith, length-snoc g.result.errors e)
  with_network-counts p g g' (ok net) m h =
      with_reader-counts p g g' net (reader o net m).0 (reader o net m).1 h

  pub process_tx-counts :
      (p : Pending o) (g g' : Progress o) (m : Manager o)
      → (process_tx o opts p g m).0 ≡ some g'
      → TxsCounted o 1 g g'
  unfolding process_tx
  process_tx-counts p g g' m h = with_network-counts p g g' (o.resolve_network p.chain_id) m h

  module _ (rest : Progress o → Action (Manager o) (Processed o)) (n : ℕ) (g' : Progress o)
      (m' : Manager o)
      (ih : (g : Progress o) (m : Manager o)
        → rest g m ≡ (processed g' none, m')
        → TxsCounted o n g g') where
    after_tx-counts :
        (g : Progress o) (next : Option (Progress o)) (m : Manager o)
        → ((q : Progress o) → next ≡ some q → TxsCounted o 1 g q)
        → after_tx o opts rest next m ≡ (processed g' none, m')
        → TxsCounted o (suc n) g g'
    after_tx-counts g none m one h = cc
    after_tx-counts g (some q) m one h = omega (arith, one q refl, ih q m h)

    unless_done-counts :
        (p : Pending o) (g : Progress o) (ended : Option Error) (m : Manager o)
        → unless_done o opts rest p g ended m ≡ (processed g' none, m')
        → TxsCounted o (suc n) g g'
    unless_done-counts p g (some e) m h = cc
    unless_done-counts p g none m h =
        after_tx-counts g (process_tx o opts p g m).0 (process_tx o opts p g m).1
          (λ q e. process_tx-counts p g q m e) h

  -- A pass over pending transactions that is not blocked and that the context lets end counts each of
  -- them once: as mined, recovered or dropped, or by an error. It starts no more resumptions than it
  -- counts as recovered.
  pub process_txs-counts :
      (ps : List (Pending o)) (g g' : Progress o) (m m' : Manager o)
      → process_txs o opts ps g m ≡ (processed g' none, m')
      → TxsCounted o (length ps) g g'
  unfolding process_txs
  process_txs-counts [] g g' m m' h = ground arith
  process_txs-counts (p ∷ ps) g g' m m' h =
      unless_done-counts (process_txs o opts ps) (length ps) g' m'
        (λ q k e. process_txs-counts ps q g' k m' e) p g (o.context_error m.world).0
        (record m { world = (o.context_error m.world).1 }) h
