-- ===== src/Broadcast.antt =====
-- broadcast_error.go: the error of a node, told apart by its message.
pub mod Classify
use walletarmy.Common.{Bool, ◌&&◌, ◌||◌, Option, none, some, if◌then◌else◌}
use walletarmy.Common.Text.{Text, codes, contains, to_lower}

-- `BroadcastError`. Go compares these by identity: each variable of the package is a value of its
-- own, `sync_broadcast_timeout` is the one of errors.go, and `other` is any other error.
pub data BroadcastError : Type 0 where
  insufficient_fund nonce_gap nonce_is_low replacement_underpriced : BroadcastError
  gas_limit_is_too_low tx_is_known sync_broadcast_timeout : BroadcastError
  other : Text → BroadcastError

-- `Error()` of each.
unfoldable pub message : BroadcastError → Text
message insufficient_fund = codes "insufficient fund"
message nonce_gap = codes "nonce gap"
message nonce_is_low = codes "nonce is low"
message replacement_underpriced = codes "replacement transaction underpriced"
message gas_limit_is_too_low = codes "gas limit is too low"
message tx_is_known = codes "tx is known"
message sync_broadcast_timeout = codes "sync broadcast timed out, falling back to async monitoring"
message (other text) = text

unfoldable pub is_tx_is_known : Text → Bool
unfolding contains
is_tx_is_known msg =
    contains msg (codes "already known") || contains msg (codes "known transaction")

unfoldable pub is_gas_limit_is_too_low : Text → Bool
unfolding contains
is_gas_limit_is_too_low msg =
    (contains msg (codes "gas limit") && contains msg (codes "low"))
    || (contains msg (codes "intrinsic gas") && contains msg (codes "low"))
    || (contains msg (codes "gas limit") && contains msg (codes "reach"))

unfoldable pub is_replacement_underpriced : Text → Bool
unfolding contains
is_replacement_underpriced msg = contains msg (codes "underprice")

unfoldable pub is_nonce_gap : Text → Bool
unfolding contains to_lower
is_nonce_gap msg = contains (to_lower msg) (codes "nonce gap")

unfoldable pub is_nonce_is_low : Text → Bool
unfolding contains
is_nonce_is_low msg =
    (contains msg (codes "nonce") && contains msg (codes "low"))
    || (contains msg (codes "nonce") && contains msg (codes "already exist"))

unfoldable pub is_insufficient_fund : Text → Bool
unfolding contains
is_insufficient_fund msg =
    contains msg (codes "insufficient funds")
    || contains msg (codes "insufficient balance")
    || contains msg (codes "not enough funds")
    || contains msg (codes "balance too low")

-- The body of `NewBroadcastError` at an error that is not nil.
unfoldable pub classify : BroadcastError → BroadcastError
classify err =
    let msg = message err in
    if is_insufficient_fund msg
    then insufficient_fund
    else if is_replacement_underpriced msg
    then replacement_underpriced
    else if is_nonce_gap msg
    then nonce_gap
    else if is_nonce_is_low msg
    then nonce_is_low
    else if is_gas_limit_is_too_low msg
    then gas_limit_is_too_low
    else if is_tx_is_known msg
    then tx_is_known
    else err

pub new_broadcast_error : Option BroadcastError → Option BroadcastError
new_broadcast_error none = none
new_broadcast_error (some err) = some (classify err)
