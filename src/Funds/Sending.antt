-- ===== src/Funds/Sending.antt =====
-- `EnsureTransfer` of examples/fund_distribution/main.go.
use walletarmy.Common.{ℕ, ◌*◌, false, some, [], ℤ, pos, negsuc, ◌-ℤ◌, lebℤ, if◌then◌else◌}
use walletarmy.Outside.{Outside, Except, ok, err, Network}
use walletarmy.Defaults.{zero_float}
use walletarmy.Manager.{Manager, GasInfo, Action, pure, ◌>>=◌}
use walletarmy.Manager.Gas.{gas_setting}
use walletarmy.Exec.Context.{Given}
use walletarmy.Exec.Loop.{Round}
use walletarmy.Exec.Entry.{ensure_tx, fails_with}

-- `L2_GAS_OVERHEAD`
abbrev pub l2_gas_overhead : ℤ
l2_gas_overhead = pos (2432225336832 * 10)

-- What is left of a balance after the gas of a plain transfer, at a price in wei. It can be negative.
abbrev pub amount_after_gas : ℤ → ℕ → ℤ
amount_after_gas balance wei = balance -ℤ pos (21000 * wei) -ℤ l2_gas_overhead

-- `gwei_to_wei` is the one of jarvis. `negative_value` is what `EnsureTx` comes to with a negative value,
-- which go-ethereum decides.
module _ (o : Outside) (gwei_to_wei : o.Float → ℕ)
    (negative_value : Action (Manager o) (Round o)) where
  abbrev pub plain_transfer : ℕ → ℕ → ℕ → ℕ → Network → Given o
  plain_transfer tx_type from to value net = record {
    tx_type = tx_type;
    from = from;
    to = to;
    value = some value;
    payload = [];
    network = some net;
    skip_simulation = false;
  }

  -- A legacy transaction at the given price.
  abbrev pub send_all : ℕ → ℕ → ℕ → o.Float → Network → ℤ → Action (Manager o) (Round o)
  send_all rounds from to price net (pos value) =
      ensure_tx o rounds (plain_transfer 0 from to value net) 21000 0 price (zero_float o)
        (zero_float o) (zero_float o)
  send_all rounds from to price net (negsuc value) = negative_value

  -- A transaction with a dynamic fee, which the manager chooses.
  abbrev pub send_part : ℕ → ℕ → ℕ → Network → ℤ → Action (Manager o) (Round o)
  send_part rounds from to net (pos value) =
      ensure_tx o rounds (plain_transfer 2 from to value net) 0 0 (zero_float o) (zero_float o)
        (zero_float o) (zero_float o)
  send_part rounds from to net (negsuc value) = negative_value

  abbrev pub with_gas_setting :
      ℕ → ℕ → ℕ → ℤ → Network → Except (GasInfo o) → Action (Manager o) (Round o)
  with_gas_setting rounds from to balance net (err e) = pure (fails_with o e)
  with_gas_setting rounds from to balance net (ok info) =
      send_all rounds from to info.gas_price net
        (amount_after_gas balance (gwei_to_wei info.gas_price))

  unfoldable pub ensure_transfer : ℕ → ℕ → ℕ → ℤ → ℤ → Network → Action (Manager o) (Round o)
  ensure_transfer rounds from to balance amount net =
      if lebℤ balance amount
      then (do info ← gas_setting o net; with_gas_setting rounds from to balance net info)
      else send_part rounds from to net amount
