-- ===== src/Recovery/Monitors/Tests.antt =====
-- A recovery that starts a goroutine for a pending transaction, at a node that knows it.
use walletarmy.Common.{
  ℕ, Bool, ◌+◌, ◌≡◌, ◌⊎◌, refl, true, false, none, some, [], ◌∷◌, pos, ◌≤ℤ◌, arith,
}
use walletarmy.Breaker
use walletarmy.Outside.{Outside, PendingTx, PendingTxStatus, TxArgs, ok, pending}
use walletarmy.Manager.{Manager}
use walletarmy.Manager.Network.{
  reader, component, allow_network, record_network_success, init_network,
}
use walletarmy.Recovery.{no_result}
use walletarmy.Recovery.Pending.{Progress, process_tx}
use walletarmy.Recovery.Run.{default_recovery_options, recover_with_options}
use walletarmy.Recovery.Run.Ends.{Ended, FewEndless, recover-Ended}
use walletarmy.Recovery.Monitors.{
  Pass, Steps, check, enter, here, next, counted, pass_of, Steps-counts,
}
use walletarmy.Recovery.Monitors.Advances.{AllDone, ContextEnded, Advances, advances}
use walletarmy.Nonce.{new_tracker}
use walletarmy.Defaults.{resolve, zero_defaults}
use walletarmy.Exec.Tests.{small, tx}

abbrev known_tx : PendingTx (TxArgs ℕ) Bool
known_tx = record {
  hash = 7;
  wallet = 1;
  chain_id = 1;
  nonce = 7;
  status = PendingTxStatus.broadcasted;
  transaction = some tx;
  receipt = none;
  created_at = pos 0;
  updated_at = pos 0;
}

-- The store lists that transaction, whose resumption never ends.
abbrev knowing : Outside
knowing = record small {
  tx_info = λ n h w. ((record { status = pending; receipt = none }, none), w);
  list_all_pending = λ w. (ok (known_tx ∷ []), w);
  resumption_ends = λ h. false;
}

abbrev at_start : Manager knowing
at_start = record {
  nonce_tracker = new_tracker;
  circuit_breakers = λ c. none;
  readers = λ c. true;
  analyzers = λ c. true;
  broadcasters = λ c. true;
  tx_monitors = λ c. true;
  accounts = λ w. false;
  txs = λ w c n. none;
  gas_settings = λ c. none;
  defaults = resolve knowing (zero_defaults knowing);
  idempotency_store = none;
  has_tx_store = true;
  has_nonce_store = true;
  world = 0;
}

abbrev nothing_yet : Progress knowing
nothing_yet = record { result = no_result; resumed = [] }

abbrev one_recovered : Progress knowing
one_recovered = record { result = record no_result { recovered_txs = 1 }; resumed = known_tx ∷ [] }

abbrev after_check : Manager knowing
after_check =
    (process_tx knowing (default_recovery_options knowing) known_tx nothing_yet at_start).1

abbrev one_running : Pass knowing
one_running = record {
  ahead = [];
  waiting = none;
  progress = one_recovered;
  running = known_tx ∷ [];
  manager = after_check;
}

one_running-Steps :
    Steps knowing
      (default_recovery_options knowing)
      (pass_of knowing (known_tx ∷ []) nothing_yet at_start)
      one_running
unfolding process_tx reader component allow_network record_network_success init_network Breaker.new
    Breaker.allow Breaker.current_state Breaker.record_success Breaker.default_config
one_running-Steps =
    next (next here (check known_tx [] 0 one_recovered after_check refl refl refl refl refl))
      (enter known_tx refl (omega arith) refl)

Steps-counts_example :
    (counted knowing one_recovered.result + 0 ≡ counted knowing no_result + 1)
    × (pos 1 ≤ℤ (default_recovery_options knowing).max_concurrent_monitors)
Steps-counts_example =
    Steps-counts knowing (default_recovery_options knowing) (known_tx ∷ []) nothing_yet at_start
      (omega arith) one_running-Steps

advances_example :
    AllDone knowing one_running
    ⊎ ContextEnded knowing one_running
    ⊎ Advances knowing (default_recovery_options knowing) one_running
advances_example =
    advances knowing (default_recovery_options knowing) (known_tx ∷ []) nothing_yet at_start
      (omega arith) one_running-Steps

one_endless : FewEndless knowing (default_recovery_options knowing)
one_endless = λ w ps e. ground arith

recover-Ended_example :
    Ended knowing (recover_with_options knowing (default_recovery_options knowing) at_start).0
recover-Ended_example =
    recover-Ended knowing (default_recovery_options knowing) at_start one_endless
