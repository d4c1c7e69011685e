-- ===== src/Adapters.antt =====
-- adapters.go: the components of the jarvis library behind the interfaces of deps.go. Jarvis itself is a
-- parameter. The methods that only pass a call on to jarvis are left out.
pub mod Forwarded
mod Tests
use walletarmy.Common.{ℕ, Bool, true, false, Option, none, some, List, [], ◌∷◌, if◌then◌else◌}
use walletarmy.Common.Text.{Text, codes}
use walletarmy.Outside.{
  Error, Except, ok, err, Network, TxInfo, TxStatus, mined, reverted, lost, slow, cancelled,
  pending, done, unset, unknown, Event, context_done, slow_timer, closed_, status, said_other,
}
use walletarmy.ErrorDecoder.{text_eq}

-- What the adapters call of jarvis.
pub record Jarvis : Type 1 where
  pub World : Type 0
  pub Receipt : Type 0
  pub Reader : Type 0
  pub Broadcaster : Type 0
  pub Monitor : Type 0
  pub eth_reader : Network → World → Except Reader × World
  pub eth_broadcaster : Network → World → Except Broadcaster × World
  pub new_generic_tx_monitor : Reader → Monitor
  -- the text of the status, the receipt, and the error
  pub tx_info_from_hash : Reader → ℕ → World → (Text × Option Receipt × Option Error) × World
  pub get_network_by_id : ℕ → Except Network

-- An `EthReader`: the adapter of a jarvis reader, or one of the caller's own.
pub data EthReader (j : Jarvis) (Own : Type 0) : Type 0 where
  reader_adapter : j.Reader → EthReader j Own
  own_reader : Own → EthReader j Own

-- `TxInfoStatus(info.Status)`
abbrev pub tx_info_status : Text → TxStatus
tx_info_status t =
    if text_eq t (codes "mined")
    then mined
    else if text_eq t (codes "reverted")
    then reverted
    else if text_eq t (codes "lost")
    then lost
    else if text_eq t (codes "slow")
    then slow
    else if text_eq t (codes "cancelled")
    then cancelled
    else if text_eq t (codes "pending")
    then pending
    else if text_eq t (codes "done")
    then done
    else if text_eq t []
    then unset
    else unknown t

module _ (j : Jarvis) (Own : Type 0) where
  abbrev pub converted : Text × Option j.Receipt × Option Error → TxInfo j.Receipt × Option Error
  converted (t, r, some e) = (record { status = unset; receipt = none }, some e)
  converted (t, r, none) = (record { status = tx_info_status t; receipt = r }, none)

  -- `TxInfoFromHash` of the adapter.
  unfoldable pub tx_info_from_hash :
      j.Reader → ℕ → j.World → (TxInfo j.Receipt × Option Error) × j.World
  tx_info_from_hash r hash w =
      let (answer, w') = j.tx_info_from_hash r hash w in (converted answer, w')

  abbrev adapted : Except j.Reader → Except (EthReader j Own)
  adapted (err e) = err e
  adapted (ok r) = ok (reader_adapter r)

  unfoldable pub default_reader_factory : Network → j.World → Except (EthReader j Own) × j.World
  default_reader_factory net w = let (r, w') = j.eth_reader net w in (adapted r, w')

  unfoldable pub default_broadcaster_factory : Network → j.World → Except j.Broadcaster × j.World
  default_broadcaster_factory net w = j.eth_broadcaster net w

  unfoldable pub jarvis_reader_from_interface : EthReader j Own → Option j.Reader
  jarvis_reader_from_interface (reader_adapter r) = some r
  jarvis_reader_from_interface (own_reader r) = none

  abbrev monitor_of : Option j.Reader → Option j.Monitor
  monitor_of none = none
  monitor_of (some r) = some (j.new_generic_tx_monitor r)

  -- `none` is nil.
  unfoldable pub default_tx_monitor_factory : EthReader j Own → Option j.Monitor
  default_tx_monitor_factory r = monitor_of (jarvis_reader_from_interface r)

  unfoldable pub default_network_resolver : ℕ → Except Network
  default_network_resolver chain = j.get_network_by_id chain

-- The channel of `MakeWaitChannelWithInterval` beside the timer and the context, in the order in which
-- they are received: the goroutine takes one value from the channel of jarvis, passes it on, and closes its
-- own channel. A channel that jarvis has closed gives the zero value.
module _ {Receipt : Type 0} where
  -- Nothing more is taken from jarvis.
  abbrev pub left_alone : List (Event Receipt) → List (Event Receipt)
  left_alone [] = []
  left_alone (status s r ∷ events) = left_alone events
  left_alone (closed_ ∷ events) = left_alone events
  left_alone (context_done ∷ events) = context_done ∷ left_alone events
  left_alone (slow_timer ∷ events) = slow_timer ∷ left_alone events

  unfoldable pub forwarded : List (Event Receipt) → List (Event Receipt)
  forwarded [] = []
  forwarded (status s r ∷ events) = status s r ∷ closed_ ∷ left_alone events
  forwarded (closed_ ∷ events) = status said_other none ∷ closed_ ∷ left_alone events
  forwarded (context_done ∷ events) = context_done ∷ forwarded events
  forwarded (slow_timer ∷ events) = slow_timer ∷ forwarded events
