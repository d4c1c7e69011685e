-- ===== src/Broadcast/Classify.antt =====
-- Classifying twice is classifying once: `NewBroadcastError` of broadcast_error.go.
use walletarmy.Common.{◌≡◌, refl, ap, ◌⊎◌, inl, inr, Option, none, some, arith}
use walletarmy.Broadcast.{
  BroadcastError, other, message, is_tx_is_known, is_gas_limit_is_too_low,
  is_replacement_underpriced, is_nonce_gap, is_nonce_is_low, is_insufficient_fund,
  new_broadcast_error, classify,
}

-- The variables of the package, as against errors that come from a node.
abbrev IsSentinel : BroadcastError → Type 0
IsSentinel (other text) = ⊥
IsSentinel _ = Unit {0}

classify-IsSentinel : (err : BroadcastError) → (classify err ≡ err) ⊎ IsSentinel (classify err)
unfolding classify
classify-IsSentinel err = ground arith

-- Each variable of the package is classified as itself.
classify-sentinel : (err : BroadcastError) → IsSentinel err → classify err ≡ err
unfolding classify message is_tx_is_known is_gas_limit_is_too_low is_replacement_underpriced
    is_nonce_gap is_nonce_is_low is_insufficient_fund
classify-sentinel (other text) h = absurd h
classify-sentinel _ h = refl

-- Classifying an error that was classified before changes nothing.
new_broadcast_error-new_broadcast_error :
    (err : Option BroadcastError)
    → new_broadcast_error (new_broadcast_error err) ≡ new_broadcast_error err
unfolding new_broadcast_error
new_broadcast_error-new_broadcast_error none = refl
new_broadcast_error-new_broadcast_error (some err) = elim (classify-IsSentinel err) [
  | inl same ↦ ap (λ e. some (classify e)) same
  | inr known ↦ ap some (classify-sentinel (classify err) known)
]
