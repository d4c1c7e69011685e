-- ===== src/Exec/Tests/Broadcasts.antt =====
-- Broadcasts of manager_tx.go, and a network's breaker, at the small world.
use walletarmy.Common.{ℕ, Bool, ◌≡◌, refl, true, Option, none, some, [], pos}
use walletarmy.Common.Text.{Text, codes, contains}
use walletarmy.Outside.{Error, plain, Network, TxArgs}
use walletarmy.Broadcast.{insufficient_fund, classify, message, is_insufficient_fund}
use walletarmy.Breaker.{closed, new, stats, reset, set_state, current_state, allow, record_success}
use walletarmy.Nonce.{new_tracker, get_pending_nonce, set_pending_nonce}
use walletarmy.Manager.Network.{
  broadcaster, component, init_network, allow_network, record_network_success,
  get_circuit_breaker_stats, reset_circuit_breaker,
}
use walletarmy.Manager.Nonces.{pending_nonce}
use walletarmy.Exec.Build.{register_broadcasted_tx, broadcast_on, broadcast_tx}
use walletarmy.Exec.Build.Sync.{sent, not_sent, broadcast_tx_sync}
use walletarmy.Exec.Build.Records.{Recorded, reported, reported-Recorded}
use walletarmy.Exec.Tests.{small, net, start}

abbrev transfer : TxArgs ℕ
transfer = record {
  tx_type = 2;
  nonce = 5;
  to = 2;
  value = 1;
  gas_limit = 21000;
  gas_price = 1;
  tip_cap = 1;
  payload = [];
  chain_id = 1;
}

abbrev text_of : Error → Text
text_of (plain text) = text
text_of _ = []

-- Node: takes the transaction, or refuses it for its sender's balance.
abbrev takes : Network → TxArgs ℕ → ℕ → (Option Bool × Option Error) × ℕ
takes n t w = ((some true, none), w)

abbrev refuses : Network → TxArgs ℕ → ℕ → (Option Bool × Option Error) × ℕ
refuses n t w = ((none, some (plain (codes "insufficient funds"))), w)

sync_sent : (broadcast_tx_sync small text_of takes transfer start).0 ≡ sent (some true)
unfolding broadcast_tx_sync register_broadcasted_tx broadcaster component init_network allow_network
    record_network_success allow record_success current_state set_state new
sync_sent = refl

sync_refused :
    (broadcast_tx_sync small text_of refuses transfer start).0 ≡ not_sent insufficient_fund
unfolding broadcast_tx_sync broadcaster component init_network allow_network record_network_success
    allow record_success current_state set_state new classify message is_insufficient_fund contains
sync_refused = refl

pending_after : (pending_nonce small 1 net (broadcast_tx small transfer start).1).0 ≡ some (pos 6)
unfolding pending_nonce broadcast_tx broadcast_on register_broadcasted_tx broadcaster component
    init_network allow_network record_network_success allow record_success current_state set_state
    get_pending_nonce set_pending_nonce new new_tracker
pending_after = refl

breaker_reset :
    (get_circuit_breaker_stats small net (reset_circuit_breaker small net start).1).0.state ≡ closed
unfolding get_circuit_breaker_stats reset_circuit_breaker stats reset new set_state current_state
breaker_reset = refl

reported-Recorded_example :
    Recorded small 1 net transfer (reported small text_of takes true transfer start).1
unfolding broadcast_tx_sync register_broadcasted_tx broadcaster component init_network allow_network
    record_network_success allow record_success current_state set_state new
reported-Recorded_example =
    reported-Recorded small text_of takes true transfer net 1 start refl refl refl
