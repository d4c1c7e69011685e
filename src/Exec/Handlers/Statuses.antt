-- ===== src/Exec/Handlers/Statuses.antt =====
-- manager_tx.go: the statuses of the transactions that were signed, and the end of a mined one.
use walletarmy.Common.{
  ℕ, Bool, true, false, Option, none, some, List, [], ◌∷◌, map, ltb, if◌then◌else◌,
}
use walletarmy.Common.Text.{codes}
use walletarmy.Outside.{
  PendingTxStatus, TxInfo, Outside, Error, Except, ok, err, sentinel, wrapped, tx_reverted,
  TxStatus, mined, reverted, pending, done, unset,
}
use walletarmy.Manager.{Action, pure, ◌>>=◌, ◌>>◌, outside, modify}
use walletarmy.Manager.Network.{reader}
use walletarmy.Exec.{return, TxExecutionResult, Config, Machine, lift, lookup}

pub data Outcome (o : Outside) : Type 0 where
  returns : TxExecutionResult o → Outcome o
  panics : Outcome o

module _ (o : Outside) where
  -- By hash, in the order in which the map of transactions was gone through.
  abbrev pub Statuses : Type 0
  Statuses = List (ℕ × TxInfo o.Receipt)

  abbrev pub map_outcome : (TxExecutionResult o → TxExecutionResult o) → Outcome o → Outcome o
  map_outcome f (returns r) = returns (f r)
  map_outcome f panics = panics

  abbrev hashes {ℓ} : {A : Type ℓ} → List (ℕ × A) → List ℕ
  hashes = map (λ e. e.0)

  unfoldable pub ask_statuses : Config o → List ℕ → Action (Machine o) Statuses
  ask_statuses cfg [] = pure []
  ask_statuses cfg (h ∷ hs) = do
    info ← lift o (outside o (o.tx_info cfg.params.network h))
    rest ← ask_statuses cfg hs
    pure ((h, info.0) ∷ rest)

  -- `getTxStatuses`; an error of the node leaves the status that it returned.
  unfoldable pub get_tx_statuses : Config o → Action (Machine o) (Except Statuses)
  get_tx_statuses cfg = do
    failed ← lift o (reader o cfg.params.network)
    elim failed [
      | some e ↦ pure (err (wrapped (codes "couldn't get reader for tx statuses") e))
      | none ↦ do
        known ← λ x. (hashes x.state.old_txs, x)
        order ← lift o (outside o (o.order known))
        infos ← ask_statuses cfg order
        pure (ok infos)
    ]

  abbrev is_completed : TxStatus → Bool
  is_completed done = true
  is_completed reverted = true
  is_completed _ = false

  abbrev first_completed : Statuses → List (ℕ × o.Tx) → List ℕ → Option (o.Tx × TxInfo o.Receipt)
  first_completed infos txs [] = none
  first_completed infos txs (h ∷ hs) =
      let rest = first_completed infos txs hs in
      elim (lookup h infos) [
        | none ↦ rest
        | some info ↦
            if is_completed info.status
            then elim (lookup h txs) [ none ↦ rest | some tx ↦ some (tx, info) ]
            else rest
      ]

  -- The first transaction, in the order of the loop, that a node reports as done or reverted.
  unfoldable pub find_completed : Statuses → Action (Machine o) (Option (o.Tx × TxInfo o.Receipt))
  find_completed infos = do
    order ← lift o (outside o (o.order (hashes infos)))
    λ x. (first_completed infos x.state.old_txs order, x)

  abbrev is_pending : TxStatus → Bool
  is_pending pending = true
  is_pending _ = false

  -- The loop with the best price so far, which starts at 0, and its transaction.
  abbrev best_from : Statuses → List (ℕ × o.Tx) → ℕ → Option o.Tx → List ℕ → Option o.Tx
  best_from infos txs highest best [] = best
  best_from infos txs highest best (h ∷ hs) = elim (lookup h infos) [
    | none ↦ best_from infos txs highest best hs
    | some info ↦
        if is_pending info.status
        then elim (lookup h txs) [
          | none ↦ best_from infos txs highest best hs
          | some tx ↦
              if ltb highest (o.gas_price_of tx)
              then best_from infos txs (o.gas_price_of tx) (some tx) hs
              else best_from infos txs highest best hs
        ]
        else best_from infos txs highest best hs
  ]

  unfoldable pub best_pending : Statuses → Action (Machine o) (Option o.Tx)
  best_pending infos = do
    order ← lift o (outside o (o.order (hashes infos)))
    λ x. (best_from infos x.state.old_txs 0 none order, x)

  abbrev persist_tx_mined : o.Tx → Bool → Option o.Receipt → Action (Machine o) (Unit {0})
  persist_tx_mined tx success receipt = lift o (
      modify o λ m.
        if m.has_tx_store
        then record m {
          world =
              o.update_status (o.hash_of tx)
                (if success then PendingTxStatus.mined else PendingTxStatus.reverted) receipt
                m.world;
        }
        else m)

  -- The `switch` on the status; `false` is the dereference of a nil receipt.
  abbrev persist_status : o.Tx → TxStatus → Option o.Receipt → Action (Machine o) Bool
  persist_status tx unset none = pure false
  persist_status tx unset (some r) = do persist_tx_mined tx (o.is_successful r) (some r); pure true
  persist_status tx done r = do persist_tx_mined tx true r; pure true
  persist_status tx mined r = do persist_tx_mined tx true r; pure true
  persist_status tx reverted r = do persist_tx_mined tx false r; pure true
  persist_status tx _ r = pure true

  abbrev call_mined_hook : Config o → o.Tx → Option o.Receipt → Action (Machine o) (Option Error)
  call_mined_hook cfg tx r = elim cfg.hooks.tx_mined [
    | none ↦ pure none
    | some hook ↦ lift o (outside o (hook tx r))
  ]

  abbrev mined_outcome : o.Tx → Option o.Receipt → Option Error → Outcome o
  mined_outcome tx r (some e) = returns (record {
    transaction = some tx;
    receipt = r;
    action = return;
    error = some (wrapped (codes "tx mined hook error") e);
  })
  mined_outcome tx none none = panics
  mined_outcome tx (some r) none = returns (record {
    transaction = some tx;
    receipt = some r;
    action = return;
    error = if o.is_failed r then some (sentinel tx_reverted) else none;
  })

  unfoldable pub handle_mined_tx :
      Config o → o.Tx → TxInfo o.Receipt → Action (Machine o) (Outcome o)
  handle_mined_tx cfg tx info = do
    safe ← persist_status tx info.status info.receipt
    (if safe
        then (do
          failed ← call_mined_hook cfg tx info.receipt
          pure (mined_outcome tx info.receipt failed))
        else pure panics)
