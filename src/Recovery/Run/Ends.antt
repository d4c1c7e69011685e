-- ===== src/Recovery/Run/Ends.antt =====
-- When a recovery comes to its end: recovery.go.
use walletarmy.Common.{
  ℕ, suc, ◌+◌, ap, refl, ◌≡◌, inl, inr, Bool, true, false, ◌||◌, ℤ, pos, negsuc, ◌≤ℤ◌, Option, none,
  some, List, [], ◌∷◌, arith, if◌then◌else◌,
}
use walletarmy.Outside.{Outside, Error, Except, ok, err}
use walletarmy.Manager.{Manager, Action}
use walletarmy.Recovery.{RecoveryResult, RecoveryOptions, no_result}
use walletarmy.Recovery.Pending.{
  Pending, Progress, Processed, processed, blocks, panics, endless, process_tx, after_tx,
  unless_done, process_txs, with_semaphore, on_listed, process_pending,
}
use walletarmy.Recovery.Pending.Places.{Next, has_place_room, endless-snoc, process_tx-Next}
use walletarmy.Recovery.Run.{after_nonces, nonces_step, recover_stores, recover_with_options}

-- A pass that came to its end, with a result.
abbrev pub Ended : (o : Outside) → Processed o → Type 0
Ended o (processed g e) = Unit
Ended o blocks = ⊥
Ended o panics = ⊥

module _ (o : Outside) (opts : RecoveryOptions o) where
  -- There is a place beside so many resumptions that never end.
  abbrev pub Room : ℕ → Type 0
  Room n = pos (suc n) ≤ℤ opts.max_concurrent_monitors

  after_tx-Ended :
      (rest : Progress o → Action (Manager o) (Processed o)) (n : ℕ)
      → ((g : Progress o) (m : Manager o) → Room (endless o g.resumed + n) → Ended o (rest g m).0)
      → (p : Pending o) (g : Progress o) (next : Option (Progress o)) (m : Manager o)
      → Next o opts p g next
      → Room (endless o g.resumed + (endless o (p ∷ []) + n))
      → Ended o (after_tx o opts rest next m).0
  after_tx-Ended rest n ih p g none m full room = absurd (
      cc (full, has_place_room o opts g.resumed opts.max_concurrent_monitors (omega (arith, room))))
  after_tx-Ended rest n ih p g (some g') m (inl same) room =
      ih g' m (omega (arith, room, ap (endless o) same))
  after_tx-Ended rest n ih p g (some g') m (inr more) room =
      ih g' m (omega (arith, room, ap (endless o) more, endless-snoc o g.resumed p))

  unless_done-Ended :
      (rest : Progress o → Action (Manager o) (Processed o)) (n : ℕ)
      → ((g : Progress o) (m : Manager o) → Room (endless o g.resumed + n) → Ended o (rest g m).0)
      → (p : Pending o) (g : Progress o) (ended : Option Error) (m : Manager o)
      → Room (endless o g.resumed + (endless o (p ∷ []) + n))
      → Ended o (unless_done o opts rest p g ended m).0
  unless_done-Ended rest n ih p g (some e) m room = tt
  unless_done-Ended rest n ih p g none m room =
      after_tx-Ended rest n ih p g (process_tx o opts p g m).0 (process_tx o opts p g m).1
        (process_tx-Next o opts p g m) room

  endless-cons :
      (p : Pending o) (ps : List (Pending o))
      → endless o (p ∷ ps) ≡ endless o (p ∷ []) + endless o ps
  endless-cons p ps = ground arith

  process_txs-Ended :
      (ps : List (Pending o)) (g : Progress o) (m : Manager o)
      → Room (endless o g.resumed + endless o ps)
      → Ended o (process_txs o opts ps g m).0
  unfolding process_txs
  process_txs-Ended [] g m room = tt
  process_txs-Ended (p ∷ ps) g m room =
      unless_done-Ended (process_txs o opts ps) (endless o ps) (λ q k r. process_txs-Ended ps q k r)
        p g (o.context_error m.world).0 (record m { world = (o.context_error m.world).1 })
        (omega (arith, room, endless-cons p ps))

  with_semaphore-Ended :
      (size : ℤ) (ps : List (Pending o)) (g : Progress o) (m : Manager o)
      → pos 1 ≤ℤ size
      → Room (endless o g.resumed + endless o ps)
      → Ended o (with_semaphore o opts size ps g m).0
  with_semaphore-Ended (pos k) ps g m h room = process_txs-Ended ps g m room
  with_semaphore-Ended (negsuc k) ps g m h room = absurd (omega arith)

  on_listed-Ended :
      (r : RecoveryResult) (listed : Except (List (Pending o))) (m : Manager o)
      → ((ps : List (Pending o)) → listed ≡ ok ps → Room (endless o ps))
      → Ended o (on_listed o opts r listed m).0
  on_listed-Ended r (err e) m room = tt
  on_listed-Ended r (ok ps) m room =
      with_semaphore-Ended opts.max_concurrent_monitors ps (record { result = r; resumed = [] }) m
        (omega (arith, room ps refl)) (omega (arith, room ps refl))

  -- Of the transactions that the store may list, fewer than there are places have a resumption that never ends.
  abbrev pub FewEndless : Type 0
  FewEndless =
      (w : o.World) (ps : List (Pending o)) → (o.list_all_pending w).0 ≡ ok ps → Room (endless o ps)

  module _ (few : FewEndless) where
    pending_if-Ended :
        (has : Bool) (r : RecoveryResult) (m : Manager o)
        → Ended o
            (if has
              then process_pending o opts r m
              else (processed (record { result = r; resumed = [] }) none, m)).0
    unfolding process_pending
    pending_if-Ended true r m =
        on_listed-Ended r (o.list_all_pending m.world).0
          (record m { world = (o.list_all_pending m.world).1 }) (few m.world)
    pending_if-Ended false r m = tt

    after_nonces-Ended :
        (out : RecoveryResult × Option Error) (m : Manager o)
        → Ended o (after_nonces o opts out m).0
    after_nonces-Ended (r, some e) m = tt
    after_nonces-Ended (r, none) m = pending_if-Ended m.has_tx_store r m

    recover_if-Ended :
        (any : Bool) (m : Manager o)
        → Ended o
            (if any
              then recover_stores o opts m
              else (processed (record { result = no_result; resumed = [] }) none, m)).0
    unfolding recover_stores
    recover_if-Ended true m =
        after_nonces-Ended (nonces_step o m.has_nonce_store m).0
          (nonces_step o m.has_nonce_store m).1
    recover_if-Ended false m = tt

  -- A recovery comes to its end, with its counts and perhaps an error, and neither blocks nor panics, where
  -- fewer of the transactions that the store lists than there are places have a resumption that never ends,
  -- however many there are in all; a resumption that never ends holds its place for ever. All other calls are
  -- taken to return, and no resumption to panic, which would end the program.
  pub recover-Ended : (m : Manager o) → FewEndless → Ended o (recover_with_options o opts m).0
  unfolding recover_with_options
  recover-Ended m few = recover_if-Ended few (m.has_nonce_store || m.has_tx_store) m
