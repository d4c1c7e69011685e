-- ===== src/Exec/Tests.antt =====
-- The theorems on the manager and on an execution at a small world: nodes that answer the nonce 5 and
-- know no gas price, `eth_call` that fails, and an account that cannot sign.
mod Nonces
mod Stages
mod Entries
mod Leaks
mod Broadcasts
use walletarmy.Common.{
  ℕ, ◌+◌, ◌*◌, Bool, true, false, not, Option, none, some, List, [], ltb, leb, ◌==◌, ℤ, pos,
}
use walletarmy.Outside.{
  Outside, Error, Except, ok, err, plain, Network, TxArgs, KeepsNonce, unset, answered,
}
use walletarmy.Breaker.{seconds}
use walletarmy.Nonce.{new_tracker}
use walletarmy.Defaults.{resolve, zero_defaults}
use walletarmy.Manager.{Manager}
use walletarmy.Exec.{TxParams, RetryConfig, GasBounds, TxHooks, TxRetryState, Config, Machine}
use walletarmy.Exec.Build.{Draft}

abbrev pub failure : Error
failure = plain []

abbrev pub small : Outside
small = record {
  World = ℕ;
  Float = ℕ;
  is_zero = λ x. x == 0;
  greater = λ a b. ltb b a;
  at_most = λ a b. leb a b;
  plus = λ a b. a + b;
  times = λ a b. a * b;
  literal = λ n d. n;
  gwei_of = λ n. n;
  Tx = TxArgs ℕ;
  build_exact_tx = λ a. a;
  hash_of = λ t. t.nonce;
  nonce_of = λ t. t.nonce;
  gas_of = λ t. t.gas_limit;
  gas_price_of = λ t. t.gas_price;
  tip_cap_of = λ t. t.tip_cap;
  chain_of = λ t. t.chain_id;
  type_of = λ t. t.tx_type;
  to_of = λ t. some t.to;
  value_of = λ t. t.value;
  payload_of = λ t. t.payload;
  ethereum_mainnet = record { chain_id = 1; is_sync_tx_supported = false };
  resolve_network = λ c. ok (record { chain_id = c; is_sync_tx_supported = false });
  big_to_float = λ n. n;
  Receipt = Bool;
  is_successful = λ r. r;
  is_failed = λ r. not r;
  now = λ w. (pos 0, w);
  context_error = λ w. (none, w);
  sleep = λ d w. (none, w);
  make_reader = λ n w. (none, w);
  make_analyzer = λ n w. (none, w);
  make_broadcaster = λ n w. (none, w);
  make_monitor = λ n w. (true, w);
  mined_nonce = λ n a w. (ok 5, w);
  pending_nonce = λ n a w. (ok 5, w);
  estimate_gas = λ n f t g v p w. (ok 21000, w);
  suggested_gas = λ n w. (err failure, w);
  eth_call = λ n f t v p w. (some (failure, false), w);
  tx_info = λ n h w. ((record { status = unset; receipt = none }, none), w);
  broadcast = λ n t w. ((true, none), w);
  broadcast_sync = λ n t w. (answered none none, w);
  find_account = λ a w. (true, w);
  unlock = λ a w. (ok a, w);
  sign = λ a t c w. (err failure, w);
  signer_of = λ t c. ok 1;
  events = λ n h d t w. ([], w);
  resumption_ends = λ h. true;
  order = λ hs w. (hs, w);
  stored_txs = λ w a c n. some 0;
  save_tx = λ t w. w;
  update_status = λ h s r w. w;
  list_all_pending = λ w. (ok [], w);
  list_all_nonces = λ w. (ok [], w);
  add_reserved = λ a c n w. w;
  save_pending = λ a c n w. w;
  remove_reserved = λ a c n w. w;
}

abbrev pub law : KeepsNonce small
law = record { nonce_built = λ args. λ i. args.nonce }

abbrev pub net : Network
net = record { chain_id = 1; is_sync_tx_supported = false }

abbrev pub start : Manager small
start = record {
  nonce_tracker = new_tracker;
  circuit_breakers = λ c. none;
  readers = λ c. false;
  analyzers = λ c. false;
  broadcasters = λ c. false;
  tx_monitors = λ c. false;
  accounts = λ w. false;
  txs = λ w c n. none;
  gas_settings = λ c. none;
  defaults = resolve small (zero_defaults small);
  idempotency_store = none;
  has_tx_store = true;
  has_nonce_store = true;
  world = 0;
}

abbrev pub params : TxParams small
params = record {
  tx_type = 2;
  from = 1;
  to = 2;
  value = 0;
  payload = [];
  network = net;
  skip_simulation = false;
}

abbrev pub retries : RetryConfig
retries = record {
  max_attempts = pos 3;
  sleep_duration = seconds 5;
  tx_check_interval = seconds 5;
  slow_tx_timeout = seconds 5;
}

abbrev pub bounds : GasBounds small
bounds = record {
  extra_gas_limit = 0;
  extra_gas_price = 0;
  extra_tip_cap = 0;
  max_gas_price = 50;
  max_tip_cap = 50;
  gas_price_bump_factor = 2;
  tip_cap_bump_factor = 2;
}

abbrev pub no_hooks : TxHooks small
no_hooks = record {
  before_sign_and_broadcast = none;
  after_sign_and_broadcast = none;
  gas_estimation_failed = none;
  simulation_failed = none;
  tx_mined = none;
}

abbrev pub cfg : Config small
cfg = record { params = params; retry = retries; gas = bounds; hooks = no_hooks }

-- A draft with no nonce and no price, so that `BuildTx` acquires the one and asks for the other.
abbrev pub unpriced : Draft small
unpriced = record {
  nonce = none;
  gas_limit = 21000;
  extra_gas_limit = 0;
  gas_price = 0;
  extra_gas_price = 0;
  tip_cap = 0;
  extra_tip_cap = 0;
}

abbrev pub tx : TxArgs ℕ
tx = record {
  tx_type = 2;
  nonce = 7;
  to = 2;
  value = 0;
  gas_limit = 21000;
  gas_price = 10;
  tip_cap = 1;
  payload = [];
  chain_id = 1;
}

-- A machine whose next attempt has the nonce 7.
abbrev pub ready : Machine small
ready = record {
  manager = start;
  state = record {
    attempt_count = 0;
    gas_price = 0;
    tip_cap = 0;
    gas_limit = 21000;
    nonce = some 7;
    old_txs = [];
    resume_with = none;
  };
}
