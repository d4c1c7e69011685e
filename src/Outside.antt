-- ===== src/Outside.antt =====
-- What the program calls and does not implement: go-ethereum, jarvis, the clients' hooks and stores,
-- the clock and the context. Each call takes the world and returns its answer and the next world, so
-- nothing is assumed of an answer, or of what other processes do between two calls. Addresses and
-- hashes are numbers; a `float64` is of a type with the operations that the program uses.
use walletarmy.Common.{ℕ, ◌≡◌, Bool, Option, List, ℤ}
use walletarmy.Common.Text.{Text}
use walletarmy.Broadcast.{BroadcastError}

-- The package's error variables that `errors.Is` is asked for, or that a result wraps.
pub data Sentinel : Type 0 where
  estimate_gas_failed acquire_nonce_failed get_gas_setting_failed out_of_retries : Sentinel
  gas_price_limit_reached from_address_zero network_nil simulated_tx_reverted : Sentinel
  simulated_tx_failed circuit_breaker_open tx_reverted abnormal_nonce_state duplicate_key : Sentinel

-- An error and what it wraps: `join` is `errors.Join(sentinel, err)` or a `%w` of both, `wrapped` a
-- `%w` with a text, `plain` an error that wraps none. `gas_estimation` and `simulation_revert` are
-- the structured errors of errors.go, without the data that they carry for the caller.
pub data Error : Type 0 where
  plain : Text → Error
  sentinel : Sentinel → Error
  join : Sentinel → Error → Error
  wrapped : Text → Error → Error
  gas_estimation : Error → Error
  simulation_revert : Error → Error
  broadcast_failed : BroadcastError → Error

pub data Except (A : Type 0) : Type 0 where
  ok : A → Except A
  err : Error → Except A

-- `networks.Network`, as far as it is asked.
pub record Network : Type 0 where
  pub chain_id : ℕ
  pub is_sync_tx_supported : Bool

-- `TxInfoStatus` of deps.go; `unset` is the empty text, `unknown` any other.
pub data TxStatus : Type 0 where
  mined reverted lost slow cancelled pending done unset : TxStatus
  unknown : Text → TxStatus

pub record TxInfo (Receipt : Type 0) : Type 0 where
  pub status : TxStatus
  pub receipt : Option Receipt

-- What a `TxMonitor` sends: `status.Status` is one of the three texts, or another one.
pub data MonitorStatus : Type 0 where
  said_done said_reverted said_lost said_other : MonitorStatus

-- What the `select` of `MonitorTxContext` receives; `closed_` is a closed monitor channel.
pub data Event (Receipt : Type 0) : Type 0 where
  context_done slow_timer closed_ : Event Receipt
  status : MonitorStatus → Option Receipt → Event Receipt

-- What `select` receives first after `BroadcastTxSync` was started: its result, the end of
-- `SyncBroadcastTimeout`, or the end of the context.
pub data SyncAnswer (Receipt : Type 0) : Type 0 where
  answered : Option Receipt → Option BroadcastError → SyncAnswer Receipt
  timed_out : SyncAnswer Receipt
  interrupted : Error → SyncAnswer Receipt

-- `PendingTxStatus` of persistence.go.
pub data PendingTxStatus : Type 0 where
  pending broadcasted mined reverted dropped replaced : PendingTxStatus

-- `PendingTx`, without the metadata, which the package leaves to the caller.
pub record PendingTx (Tx Receipt : Type 0) : Type 0 where
  pub hash : ℕ
  pub wallet : ℕ
  pub chain_id : ℕ
  pub nonce : ℕ
  pub status : PendingTxStatus
  pub transaction : Option Tx
  pub receipt : Option Receipt
  pub created_at : ℤ
  pub updated_at : ℤ

-- `NonceState`, without the time of its last update, which the package does not read.
pub record NonceState : Type 0 where
  pub wallet : ℕ
  pub chain_id : ℕ
  pub local_pending_nonce : Option ℕ
  pub reserved_nonces : List ℕ

-- The arguments of `jarviscommon.BuildExactTx`.
pub record TxArgs (Float : Type 0) : Type 0 where
  pub tx_type : ℕ
  pub nonce : ℕ
  pub to : ℕ
  pub value : ℕ
  pub gas_limit : ℕ
  pub gas_price : Float
  pub tip_cap : Float
  pub payload : Text
  pub chain_id : ℕ

pub record Outside : Type 1 where
  pub World : Type 0
  -- `float64`: x == 0, x > y, x <= y, x + y, x * y, a literal n / d, and n wei in gwei
  pub Float : Type 0
  pub is_zero : Float → Bool
  pub greater : Float → Float → Bool
  pub at_most : Float → Float → Bool
  pub plus : Float → Float → Float
  pub times : Float → Float → Float
  pub literal : ℕ → ℕ → Float
  pub gwei_of : ℕ → Float
  -- `types.Transaction`
  pub Tx : Type 0
  pub build_exact_tx : TxArgs Float → Tx
  pub hash_of : Tx → ℕ
  pub nonce_of : Tx → ℕ
  pub gas_of : Tx → ℕ
  pub gas_price_of : Tx → ℕ
  pub tip_cap_of : Tx → ℕ
  pub chain_of : Tx → ℕ
  pub type_of : Tx → ℕ
  -- none: a contract creation
  pub to_of : Tx → Option ℕ
  pub value_of : Tx → ℕ
  pub payload_of : Tx → Text
  -- `NetworkResolver`, and `networks.EthereumMainnet`
  pub resolve_network : ℕ → Except Network
  pub ethereum_mainnet : Network
  -- `jarviscommon.BigToFloat(x, 9)`
  pub big_to_float : ℕ → Float
  -- `types.Receipt`: whether the status is `ReceiptStatusSuccessful`, `ReceiptStatusFailed`
  pub Receipt : Type 0
  pub is_successful : Receipt → Bool
  pub is_failed : Receipt → Bool
  -- the clock, the context, and a sleep that the context may end
  pub now : World → ℤ × World
  pub context_error : World → Option Error × World
  pub sleep : ℤ → World → Option Error × World
  -- the factories, by network
  pub make_reader : Network → World → Option Error × World
  pub make_analyzer : Network → World → Option Error × World
  pub make_broadcaster : Network → World → Option Error × World
  pub make_monitor : Network → World → Bool × World
  -- `EthReader`
  pub mined_nonce : Network → ℕ → World → Except ℕ × World
  pub pending_nonce : Network → ℕ → World → Except ℕ × World
  pub estimate_gas : Network → ℕ → ℕ → Float → ℕ → Text → World → Except ℕ × World
  pub suggested_gas : Network → World → Except (Float × Float) × World
  -- `EthCall`: its error, and whether that is a revert by `ethclient.RevertErrorData`
  pub eth_call : Network → ℕ → ℕ → ℕ → Text → World → Option (Error × Bool) × World
  -- `TxInfoFromHash`: the information that comes back, and the error
  pub tx_info : Network → ℕ → World → (TxInfo Receipt × Option Error) × World
  -- `EthBroadcaster`
  pub broadcast : Network → Tx → World → (Bool × Option BroadcastError) × World
  pub broadcast_sync : Network → Tx → World → SyncAnswer Receipt × World
  -- the accounts of jarvis
  -- the address of the account that was found, or unlocked
  pub find_account : ℕ → World → Bool × World
  pub unlock : ℕ → World → Except ℕ × World
  pub sign : ℕ → Tx → ℕ → World → Except (ℕ × Tx) × World
  pub signer_of : Tx → ℕ → Except ℕ
  -- the events of one `MonitorTxContext`, by the check interval and the slow timeout
  pub events : Network → ℕ → ℤ → ℤ → World → List (Event Receipt) × World
  -- whether the goroutine that resumes the transaction of a hash comes to its end
  pub resumption_ends : ℕ → Bool
  -- the order in which Go ranges over a map's keys
  pub order : List ℕ → World → List ℕ × World
  -- `TxStore` and `NonceStore`
  pub stored_txs : World → ℕ → ℕ → ℕ → Option ℕ
  pub save_tx : PendingTx Tx Receipt → World → World
  pub update_status : ℕ → PendingTxStatus → Option Receipt → World → World
  pub list_all_pending : World → Except (List (PendingTx Tx Receipt)) × World
  pub add_reserved : ℕ → ℕ → ℕ → World → World
  pub save_pending : ℕ → ℕ → ℕ → World → World
  pub list_all_nonces : World → Except (List NonceState) × World
  pub remove_reserved : ℕ → ℕ → ℕ → World → World

-- `BuildExactTx` builds a transaction with the nonce that it is given.
pub record KeepsNonce (o : Outside) : Type 0 where
  pub nonce_built : (args : TxArgs o.Float) → o.nonce_of (o.build_exact_tx args) ≡ args.nonce
