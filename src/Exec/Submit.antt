-- ===== src/Exec/Submit.antt =====
-- manager_tx.go: `signAndBroadcastTransaction` from the broadcast on, and the whole attempt.
use walletarmy.Common.{Bool, true, false, Option, none, some, if◌then◌else◌}
use walletarmy.Common.Text.{codes}
use walletarmy.Broadcast.{BroadcastError, sync_broadcast_timeout, new_broadcast_error}
use walletarmy.Outside.{
  Outside, Error, wrapped, broadcast_failed, SyncAnswer, answered, timed_out, interrupted, TxStatus,
  mined, reverted, pending, done, unset,
}
use walletarmy.Manager.{Action, pure, ◌>>=◌, ◌>>◌, outside, Manager}
use walletarmy.Manager.Network.{reader}
use walletarmy.Exec.{
  continue_to_monitor, return, TxExecutionResult, Config, Machine, lift, update, insert,
}
use walletarmy.Exec.Build.{register_broadcasted_tx, broadcast_tx}
use walletarmy.Exec.Handlers.Statuses.{Outcome, returns, map_outcome, handle_mined_tx}
use walletarmy.Exec.Handlers.{handle_broadcast_error}
use walletarmy.Exec.Attempt.{Stage, stop, go, build_stage, sign_stage}

-- What the broadcast came to.
pub data Sent (o : Outside) : Type 0 where
  -- the context ended while the synchronous call was running
  cut_off : Error → Sent o
  accepted refused : Option o.Receipt → Option BroadcastError → Sent o

module _ (o : Outside) (cfg : Config o) where
  abbrev is_known : TxStatus → Bool
  is_known mined = true
  is_known done = true
  is_known reverted = true
  is_known pending = true
  is_known _ = false

  unfoldable pub is_tx_accepted_on_chain : o.Tx → Action (Manager o) Bool
  is_tx_accepted_on_chain tx = do
    failed ← reader o cfg.params.network
    elim failed [
      | some e ↦ pure false
      | none ↦ do
        info ← outside o (o.tx_info cfg.params.network (o.hash_of tx))
        pure (elim info.1 [ some e ↦ false | none ↦ is_known info.0.status ])
    ]

  abbrev pub register : o.Tx → Action (Machine o) (Unit {0})
  register tx = do lift o (register_broadcasted_tx o tx cfg.params.network); pure tt

  abbrev pub sync_answer : o.Tx → SyncAnswer o.Receipt → Action (Machine o) (Sent o)
  sync_answer tx (answered (some r) e) = do
    register tx
    pure (accepted (some r) (new_broadcast_error e))
  sync_answer tx (answered none e) = pure (refused none (new_broadcast_error e))
  sync_answer tx timed_out = do
    known ← lift o (is_tx_accepted_on_chain tx)
    (if known
        then (do register tx; pure (accepted none none))
        else pure (refused none (some sync_broadcast_timeout)))
  sync_answer tx (interrupted e) = pure (cut_off e)

  -- By whether the network takes synchronous transactions.
  abbrev pub send_by : Bool → o.Tx → Action (Machine o) (Sent o)
  send_by true tx = do
    answer ← lift o (outside o (o.broadcast_sync cfg.params.network tx))
    sync_answer tx answer
  send_by false tx = do
    answer ← lift o (broadcast_tx o tx)
    pure (if answer.0 then accepted none answer.1 else refused none answer.1)

  unfoldable pub send : o.Tx → Action (Machine o) (Sent o)
  send tx = send_by cfg.params.network.is_sync_tx_supported tx

  -- `State.OldTxs[hash] = signedTx`
  abbrev pub track : o.Tx → Action (Machine o) (Unit {0})
  track tx = update o λ st. record st { old_txs = insert (o.hash_of tx) tx st.old_txs }

  abbrev as_error : Option BroadcastError → Option Error
  as_error none = none
  as_error (some e) = some (broadcast_failed e)

  abbrev pub after_hook : o.Tx → Option BroadcastError → Action (Machine o) (Option Error)
  after_hook tx e = elim cfg.hooks.after_sign_and_broadcast [
    | none ↦ pure none
    | some hook ↦ lift o (outside o (hook tx (as_error e)))
  ]

  -- After a successful broadcast.
  unfoldable pub finish_sent :
      o.Tx → Option o.Receipt → Option BroadcastError → Action (Machine o) (Outcome o)
  finish_sent tx receipt e = do
    failed ← after_hook tx e
    elim failed [
      | some h ↦ pure (
          returns (record {
            transaction = some tx;
            receipt = receipt;
            action = return;
            error = some (wrapped (codes "after signing and broadcasting hook error") h);
          }))
      | none ↦ elim receipt [
        | some r ↦ handle_mined_tx o cfg tx (record { status = unset; receipt = some r })
        | none ↦ pure (
            returns (record {
              transaction = some tx;
              receipt = none;
              action = continue_to_monitor;
              error = none;
            }))
      ]
    ]

  -- The signed transaction is tracked whether or not a node took it, but not after `cut_off`.
  abbrev pub after_send : o.Tx → o.Tx → Sent o → Action (Machine o) (Outcome o)
  after_send built signed (cut_off e) = pure (
      returns
        (record { transaction = some signed; receipt = none; action = return; error = some e }))
  after_send built signed (accepted receipt e) = do track signed; finish_sent signed receipt e
  after_send built signed (refused receipt e) = do
    track signed
    handle_broadcast_error o cfg e built

  unfoldable pub submit : o.Tx → o.Tx → Action (Machine o) (Outcome o)
  submit built signed = do sent ← send signed; after_send built signed sent

  abbrev pub submit_stage : o.Tx → Stage o → Action (Machine o) (Outcome o)
  submit_stage tx (stop out) = pure out
  submit_stage tx (go signed) = submit tx signed

  unfoldable pub sign_and_broadcast : o.Tx → Action (Machine o) (Outcome o)
  sign_and_broadcast tx = do stage ← sign_stage o cfg tx; submit_stage tx stage

  -- `result.Transaction = builtTx` where none is set and the result is not a return.
  abbrev pub with_built : o.Tx → TxExecutionResult o → TxExecutionResult o
  with_built tx r = elim r.action [
    | return ↦ r
    | _ ↦ elim r.transaction [ some t ↦ r | none ↦ record r { transaction = some tx } ]
  ]

  abbrev pub broadcast_stage : Stage o → Action (Machine o) (Outcome o)
  broadcast_stage (stop out) = pure out
  broadcast_stage (go tx) = do out ← sign_and_broadcast tx; pure (map_outcome o (with_built tx) out)

  unfoldable pub execute_attempt : Action (Machine o) (Outcome o)
  execute_attempt = do stage ← build_stage o cfg; broadcast_stage stage
