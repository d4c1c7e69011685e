-- ===== src/Exec/Tests/Entries.antt =====
-- The theorems on the defaults and on the entry points at the small world.
use walletarmy.Common.{◌≡◌, refl, none}
use walletarmy.Outside.{PendingTx, TxArgs, pending}
use walletarmy.Defaults.{zero_defaults, resolve}
use walletarmy.Defaults.Resolved.{IsResolved, resolve-IsResolved}
use walletarmy.Exec.Entry.{ResumeOptions, resume_pending_transaction}
use walletarmy.Exec.Entry.Resume.{resume-crashes}
use walletarmy.Exec.Loop.{crashes}
use walletarmy.Exec.Tests.{small, start, tx, net}
use walletarmy.Breaker.{seconds}
use walletarmy.Common.{pos, some, Bool, ℕ}

resolve-IsResolved_example : IsResolved small (resolve small (zero_defaults small))
resolve-IsResolved_example = resolve-IsResolved small (zero_defaults small)

abbrev sent : PendingTx (TxArgs ℕ) Bool
sent = record {
  hash = 7;
  wallet = 1;
  chain_id = 1;
  nonce = 7;
  status = pending;
  transaction = some tx;
  receipt = none;
  created_at = pos 0;
  updated_at = pos 0;
}

abbrev resume_options : ResumeOptions small
resume_options = record {
  num_retries = pos 3;
  sleep_duration = seconds 5;
  tx_check_interval = seconds 5;
  max_gas_price = 50;
  max_tip_cap = 50;
  tx_mined_hook = none;
}

resume-crashes_example :
    (resume_pending_transaction small 3 resume_options (some sent) start).0 ≡ crashes
resume-crashes_example =
    resume-crashes small 2 resume_options sent tx 2 net start refl refl refl refl refl
