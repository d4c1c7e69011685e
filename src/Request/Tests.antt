-- ===== src/Request/Tests.antt =====
-- The theorem on repeated requests, at a request whose transaction cannot be signed.
use walletarmy.Common.{none, some, true, [], ◌∷◌, pos}
use walletarmy.Common.Text.{codes}
use walletarmy.Outside.{wrapped}
use walletarmy.Breaker
use walletarmy.Nonce
use walletarmy.Idempotency
use walletarmy.Idempotency.{new_store}
use walletarmy.Exec.Loop.{Final}
use walletarmy.Request.{
  TxRequest, Shared, set_from, set_to, set_network, set_gas_limit, set_gas_price,
  set_skip_simulation, set_idempotency_key, r, apply_setters,
}
use walletarmy.Exec.Tests.{small, net, start, failure}

abbrev shared : Shared small
shared = record { manager = start; store = new_store (pos 1000) }

abbrev payment : TxRequest small
payment =
    apply_setters small
      (set_from 1
        ∷ set_to 2
        ∷ set_network (some net)
        ∷ set_gas_limit 21000
        ∷ set_gas_price 10
        ∷ set_skip_simulation true
        ∷ set_idempotency_key "pay"
        ∷ [])
      (r small start.defaults)

abbrev refused : Final small
refused = record {
  transaction = none;
  receipt = none;
  error = some (wrapped (codes "failed to sign transaction") failure);
}

-- A second request with the key, which pays another wallet.
abbrev again_payment : TxRequest small
again_payment =
    apply_setters small (set_from 1 ∷ set_to 3 ∷ set_idempotency_key "pay" ∷ [])
      (r small start.defaults)
