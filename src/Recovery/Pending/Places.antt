-- ===== src/Recovery/Pending/Places.antt =====
-- The places of the channel `sem`, and which resumptions a transaction adds: recovery.go.
use walletarmy.Common.{
  suc, ◌+◌, ◌≡◌, ◌⊎◌, inl, inr, refl, Bool, true, false, Bool-cases, Option, none, some, List, [],
  ◌∷◌, ◌++◌, ℤ, pos, negsuc, ◌≤ℤ◌, arith,
}
use walletarmy.Outside.{
  Outside, Error, Except, ok, err, Network, TxInfo, TxStatus, mined, reverted, lost, slow,
  cancelled, pending, done, unset, unknown,
}
use walletarmy.Manager.{Manager}
use walletarmy.Manager.Network.{reader}
use walletarmy.Recovery.{RecoveryOptions}
use walletarmy.Recovery.Pending.{
  Pending, Progress, endless, has_place, start, by_status, with_info, with_reader, with_network,
  process_tx,
}

pub endless-snoc :
    (o : Outside) (ps : List (Pending o)) (p : Pending o)
    → endless o (ps ++ p ∷ []) ≡ endless o ps + endless o (p ∷ [])
endless-snoc o [] p = omega arith
endless-snoc o (q ∷ ps) p = ground (arith, endless-snoc o ps p)

pub has_place_room :
    (o : Outside) (opts : RecoveryOptions o) (ps : List (Pending o)) (z : ℤ)
    → pos (suc (endless o ps)) ≤ℤ z
    → has_place o opts ps z ≡ true
has_place_room o opts ps (pos n) h = ground arith
has_place_room o opts ps (negsuc n) h = absurd (omega arith)

module _ (o : Outside) (opts : RecoveryOptions o) where
  -- What a transaction comes to: the loop is blocked only where no place will be free, and else at most the
  -- resumption of the transaction itself was added.
  abbrev pub Next : Pending o → Progress o → Option (Progress o) → Type 0
  Next p g none = has_place o opts g.resumed opts.max_concurrent_monitors ≡ false
  Next p g (some g') = (g'.resumed ≡ g.resumed) ⊎ (g'.resumed ≡ g.resumed ++ p ∷ [])

  start-Next :
      (p : Pending o) (g : Progress o) (tx : Option o.Tx) (monitors : Bool)
      → Next p g (start o opts p g tx monitors)
  start-Next p g none monitors = inl refl
  start-Next p g (some tx) false = inl refl
  start-Next p g (some tx) true =
      elim (Bool-cases (has_place o opts g.resumed opts.max_concurrent_monitors)) [
        | inl free ↦ rw free (inr refl)
        | inr full ↦ rw full full
      ]

  by_status-Next :
      (p : Pending o) (g : Progress o) (info : TxInfo o.Receipt) (status : TxStatus) (m : Manager o)
      → Next p g (by_status o opts p g info status m).0
  by_status-Next p g info pending m = start-Next p _ p.transaction opts.resume_monitoring
  by_status-Next p g info done m = inl refl
  by_status-Next p g info reverted m = inl refl
  by_status-Next p g info mined m = inl refl
  by_status-Next p g info lost m = inl refl
  by_status-Next p g info slow m = inl refl
  by_status-Next p g info cancelled m = inl refl
  by_status-Next p g info unset m = inl refl
  by_status-Next p g info (unknown t) m = inl refl

  with_info-Next :
      (p : Pending o) (g : Progress o) (answer : TxInfo o.Receipt × Option Error) (m : Manager o)
      → Next p g (with_info o opts p g answer m).0
  with_info-Next p g (info, some e) m = inl refl
  with_info-Next p g (info, none) m = by_status-Next p g info info.status m

  with_reader-Next :
      (p : Pending o) (g : Progress o) (net : Network) (failed : Option Error) (m : Manager o)
      → Next p g (with_reader o opts p g net failed m).0
  with_reader-Next p g net (some e) m = inl refl
  with_reader-Next p g net none m =
      with_info-Next p g (o.tx_info net p.hash m.world).0
        (record m { world = (o.tx_info net p.hash m.world).1 })

  with_network-Next :
      (p : Pending o) (g : Progress o) (net : Except Network) (m : Manager o)
      → Next p g (with_network o opts p g net m).0
  with_network-Next p g (err e) m = inl refl
  with_network-Next p g (ok net) m = with_reader-Next p g net (reader o net m).0 (reader o net m).1

  pub process_tx-Next :
      (p : Pending o) (g : Progress o) (m : Manager o) → Next p g (process_tx o opts p g m).0
  unfolding process_tx
  process_tx-Next p g m = with_network-Next p g (o.resolve_network p.chain_id) m
