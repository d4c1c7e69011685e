-- ===== src/Request/Once.antt =====
-- A key is executed once: a later request with it is answered from the record of the first.
use walletarmy.Common.{ℕ, refl, Option, none, some, ℤ}
use walletarmy.Outside.{Outside, Error}
use walletarmy.Idempotency.{InMemoryStore, Record, blank, insert}
use walletarmy.Idempotency.Settled.{settled_store}
use walletarmy.Exec.Loop.{Final, Round, ends}
use walletarmy.Request.{TxRequest, Shared, time, settled, execute_internal, duplicate}

module _ (o : Outside) where
  -- What a request is answered when an earlier one with its key has ended: the same, but a duplicate
  -- if the earlier one had neither an error nor a receipt.
  abbrev pub answer_again : Option Error → Option o.Receipt → Final o → Round o
  answer_again (some e) receipt f = ends f
  answer_again none (some receipt) f = ends f
  answer_again none none f = duplicate o f.transaction none

  -- When the first request creates its record: at its second reading of the clock.
  abbrev pub creation_time : Shared o → ℤ
  creation_time x = (time o (time o x).1).0

  abbrev started : TxRequest o → Shared o → Shared o
  started q x = record (time o (time o x).1).1 {
    store = insert q.idempotency_key (creation_time x) x.store;
  }

  abbrev ended : ℕ → TxRequest o → Shared o → Shared o
  ended rounds q x = record (started q x) {
    manager = (execute_internal o rounds q (started q x).manager).1;
  }

  abbrev left_record : ℕ → TxRequest o → Shared o → Final o → Record o.Tx o.Receipt Error
  left_record rounds q x f = record (settled o f (blank q.idempotency_key (creation_time x))) {
    updated_at = (time o (ended rounds q x)).0;
  }

  abbrev left_store : ℕ → TxRequest o → Shared o → Final o → InMemoryStore o.Tx o.Receipt Error
  left_store rounds q x f =
      settled_store q.idempotency_key (creation_time x) (time o (ended rounds q x)).0 (settled o f)
        x.store refl
