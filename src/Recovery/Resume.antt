-- ===== src/Recovery/Resume.antt =====
-- recovery.go: `resumeTransaction`, which a goroutine runs for a transaction that is still pending.
use walletarmy.Common.{ℕ, ◌==◌, Bool, true, false, Option, none, some, ℤ, pos, if◌then◌else◌}
use walletarmy.Outside.{Outside, Error, PendingTxStatus, dropped, replaced, broadcasted}
use walletarmy.Manager.{Manager, Action}
use walletarmy.Defaults.{zero_float}
use walletarmy.Exec.Loop.{Round, again, ends, crashes, hangs}
use walletarmy.Exec.Entry.{ResumeOptions, resume_pending_transaction}
use walletarmy.Recovery.{RecoveryOptions}
use walletarmy.Recovery.Pending.{Pending, call, mark}

module _ (o : Outside) (opts : RecoveryOptions o) where
  abbrev mined_or_reverted : Bool → PendingTxStatus
  mined_or_reverted true = PendingTxStatus.mined
  mined_or_reverted false = PendingTxStatus.reverted

  abbrev told :
      Option (Pending o → Option o.Receipt → o.World → o.World)
      → Pending o
      → o.Receipt
      → o.World
      → o.World
  told none p receipt w = w
  told (some f) p receipt w = f p (some receipt) w

  -- Its call with a nil receipt panics. It is here the identity, after which `handle_mined_tx` panics.
  abbrev pub mined_hook : Pending o → o.Tx → Option o.Receipt → o.World → Option Error × o.World
  mined_hook p tx none w = (none, w)
  mined_hook p tx (some receipt) w = (
    none,
    told opts.on_tx_mined p receipt (
        o.update_status (o.hash_of tx) (mined_or_reverted (o.is_successful receipt)) (some receipt)
          w),
  )

  abbrev pub resume_options : Pending o → ResumeOptions o
  resume_options p = record {
    num_retries = pos 0;
    sleep_duration = pos 0;
    tx_check_interval = opts.tx_check_interval;
    max_gas_price = zero_float o;
    max_tip_cap = zero_float o;
    tx_mined_hook = some (mined_hook p);
  }

  abbrev final_status : Option o.Receipt → PendingTxStatus
  final_status none = broadcasted
  final_status (some receipt) = mined_or_reverted (o.is_successful receipt)

  abbrev pub replacement : Pending o → o.Tx → Option o.Receipt → ℤ → ℤ → Pending o
  replacement p tx receipt created updated = record {
    hash = o.hash_of tx;
    wallet = p.wallet;
    chain_id = p.chain_id;
    nonce = o.nonce_of tx;
    status = final_status receipt;
    transaction = some tx;
    receipt = receipt;
    created_at = created;
    updated_at = updated;
  }

  abbrev pub replace : Pending o → o.Tx → Option o.Receipt → Manager o → Manager o
  replace p tx receipt m =
      let (created, w) = o.now (mark o opts p replaced none m).world in
      let (updated, w') = o.now w in
      record m { world = o.save_tx (replacement p tx receipt created updated) w' }

  abbrev pub after_end :
      Pending o → Option Error → Option o.Tx → Option o.Receipt → Manager o → Manager o
  after_end p (some e) tx receipt m =
      call o opts opts.on_tx_dropped p (mark o opts p dropped none m)
  after_end p none none receipt m = m
  after_end p none (some tx) receipt m =
      if o.hash_of tx == p.hash then m else replace p tx receipt m

  -- A panic, or a loop that never ends, is passed on.
  abbrev pub after_resume : Pending o → Round o → Manager o → Manager o
  after_resume p (ends f) m = after_end p f.error f.transaction f.receipt m
  after_resume p again m = m
  after_resume p crashes m = m
  after_resume p hangs m = m

  unfoldable pub resume_transaction : ℕ → Pending o → Action (Manager o) (Round o)
  resume_transaction rounds p m =
      let (out, m') = resume_pending_transaction o rounds (resume_options p) (some p) m in
      (out, after_resume p out m')
