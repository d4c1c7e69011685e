-- ===== src/Idempotency.antt =====
-- idempotency/idempotency.go: the in-memory store of idempotency keys. Each method holds the lock
-- for its whole body, so it is one step; a call of `time.Now` is the argument `now`. `Get` and
-- `Create` return pointers into the store, so records stand in a heap and the map holds references.
pub mod Lifetime
pub mod Once
pub mod Settled
pub mod Spec
mod Tests
use Prim.Native.String.{String}
use text.Mathlib.Text.{◌==◌ as str_eq}
use walletarmy.Common.{
  ℕ, suc, Bool, true, false, not, ◌&&◌, ◌||◌, Option, none, some, ℤ, pos, ◌-ℤ◌, lebℤ, ltbℤ, ◌==◌,
  if◌then◌else◌,
}

pub data Status : Type 0 where
  pending submitted confirmed failed : Status

pub data StoreError : Type 0 where
  duplicate_key key_not_found : StoreError

-- Transactions, receipts and errors are the client's.
pub record Record (Tx Receipt Err : Type 0) : Type 0 where
  pub key : String
  pub status : Status
  pub tx_hash : ℕ
  pub transaction : Option Tx
  pub receipt : Option Receipt
  pub error : Option Err
  pub created_at : ℤ
  pub updated_at : ℤ

pub record InMemoryStore (Tx Receipt Err : Type 0) : Type 0 where
  pub heap : ℕ → Record Tx Receipt Err
  -- the references below this one are in use
  pub next_ref : ℕ
  pub records : String → Option ℕ
  pub ttl : ℤ
  pub stopped : Bool

-- `m[key] = a`
abbrev pub write {ℓ} : {A : Type ℓ} → String → A → (String → A) → String → A
write key a m k = if str_eq k key then a else m k

abbrev pub is_some {ℓ} : {A : Type ℓ} → Option A → Bool
is_some none = false
is_some (some a) = true

module _ {Tx Receipt Err : Type 0} where
  abbrev pub blank : String → ℤ → Record Tx Receipt Err
  blank key now = record {
    key = key;
    status = pending;
    tx_hash = 0;
    transaction = none;
    receipt = none;
    error = none;
    created_at = now;
    updated_at = now;
  }

  unfoldable pub new_store : ℤ → InMemoryStore Tx Receipt Err
  new_store ttl = record {
    heap = λ r. blank "" (pos 0);
    next_ref = 0;
    records = λ k. none;
    ttl = ttl;
    stopped = false;
  }

  pub stop : InMemoryStore Tx Receipt Err → InMemoryStore Tx Receipt Err
  stop s = record s { stopped = true }

  -- `time.Since(record.CreatedAt)`
  abbrev pub age : ℤ → ℕ → InMemoryStore Tx Receipt Err → ℤ
  age now ref s = now -ℤ (s.heap ref).created_at

  -- A record, or `ErrKeyNotFound`.
  unfoldable pub get : String → ℤ → InMemoryStore Tx Receipt Err → Option ℕ
  get key now s = elim (s.records key) [
    | none ↦ none
    | some ref ↦ if ltbℤ (pos 0) s.ttl && ltbℤ s.ttl (age now ref s) then none else some ref
  ]

  unfoldable pub insert : String → ℤ → InMemoryStore Tx Receipt Err → InMemoryStore Tx Receipt Err
  insert key now s = record s {
    heap = λ r. if r == s.next_ref then blank key now else s.heap r;
    next_ref = suc s.next_ref;
    records = write key (some s.next_ref) s.records;
  }

  -- The record, and whether the error is `ErrDuplicateKey`.
  unfoldable pub create :
      String → ℤ → InMemoryStore Tx Receipt Err → (ℕ × Bool) × InMemoryStore Tx Receipt Err
  create key now s = elim (s.records key) [
    | none ↦ ((s.next_ref, false), insert key now s)
    | some ref ↦
        if (lebℤ s.ttl (pos 0) && lebℤ (pos 0) s.ttl) || lebℤ (age now ref s) s.ttl
        then ((ref, true), s)
        else ((s.next_ref, false), insert key now s)
  ]

  -- A client that writes through the pointer, without the lock.
  unfoldable pub modify :
      ℕ
      → (Record Tx Receipt Err → Record Tx Receipt Err)
      → InMemoryStore Tx Receipt Err
      → InMemoryStore Tx Receipt Err
  modify ref f s = record s { heap = λ r. if r == ref then f (s.heap r) else s.heap r }

  -- Whether the record was there; `false` is `ErrKeyNotFound`.
  unfoldable pub update : ℕ → ℤ → InMemoryStore Tx Receipt Err → Bool × InMemoryStore Tx Receipt Err
  unfolding modify
  update ref now s =
      let key = (s.heap ref).key in
      if is_some (s.records key)
      then (
        true,
        record (modify ref (λ r. record r { updated_at = now }) s) {
          records = write key (some ref) s.records;
        },
      )
      else (false, s)

  unfoldable pub delete : String → InMemoryStore Tx Receipt Err → InMemoryStore Tx Receipt Err
  delete key s = record s { records = write key none s.records }

  abbrev pub keep_young : ℤ → InMemoryStore Tx Receipt Err → Option ℕ → Option ℕ
  keep_young now s none = none
  keep_young now s (some ref) = if ltbℤ s.ttl (age now ref s) then none else some ref

  -- One tick of `cleanupLoop`, which runs only with a positive TTL.
  pub cleanup : ℤ → InMemoryStore Tx Receipt Err → InMemoryStore Tx Receipt Err
  cleanup now s = record s { records = λ k. keep_young now s (s.records k) }
