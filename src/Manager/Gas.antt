-- ===== src/Manager/Gas.antt =====
-- manager_network.go: the cached gas settings, and the record of broadcast transactions.
use walletarmy.Common.{ℕ, Option, none, some, ℤ, ◌-ℤ◌, lebℤ, ◌==◌, ◌&&◌, if◌then◌else◌}
use walletarmy.Common.Text.{codes}
use walletarmy.Outside.{Outside, Except, ok, err, wrapped, Network}
use walletarmy.Breaker.{seconds}
use walletarmy.Manager.{Manager, GasInfo, Action, pure, ◌>>=◌, outside, set_at}
use walletarmy.Manager.Network.{reader}

-- `GAS_INFO_TTL` of gas_info.go.
abbrev pub gas_info_ttl : ℤ
gas_info_ttl = seconds 60

module _ (o : Outside) where
  unfoldable pub refresh_gas : Network → Action (Manager o) (Except (GasInfo o))
  refresh_gas net = do
    failed ← reader o net
    elim failed [
      | some e ↦ pure (err (wrapped (codes "couldn't get reader for gas settings") e))
      | none ↦ do
        suggested ← outside o (o.suggested_gas net)
        elim suggested [
          | err e ↦ pure (err (wrapped (codes "couldn't get gas settings") e))
          | ok prices ↦ do
            now ← outside o o.now
            λ m.
                let info : GasInfo o = record {
                  gas_price = prices.0;
                  max_priority_price = prices.1;
                  fee_per_gas = prices.0;
                  timestamp = now;
                } in
                (
                  ok info,
                  record m { gas_settings = set_at net.chain_id (some info) m.gas_settings },
                )
        ]
    ]

  abbrev cached_or_refresh : Network → Option (GasInfo o) → Action (Manager o) (Except (GasInfo o))
  cached_or_refresh net none = refresh_gas net
  cached_or_refresh net (some info) = do
    now ← outside o o.now
    if lebℤ gas_info_ttl (now -ℤ info.timestamp) then refresh_gas net else pure (ok info)

  unfoldable pub gas_setting : Network → Action (Manager o) (Except (GasInfo o))
  gas_setting net m = cached_or_refresh net (m.gas_settings net.chain_id) m

  abbrev pub set_tx : ℕ → Network → o.Tx → Manager o → Manager o
  set_tx wallet net tx m = record m {
    txs = λ w c n.
        if w == wallet && c == net.chain_id && n == o.nonce_of tx then some tx else m.txs w c n;
  }
