-- ===== src/Idempotency/Settled.antt =====
-- A record that is created, written and updated, as a request does: idempotency.go.
use Prim.Native.String.{String}
use text.Mathlib.TextEquality.{eq_iff}
use walletarmy.Common.{ℕ, ◌≡◌, false, none, some, arith, ℤ, ◌+ℤ◌, ◌≤ℤ◌}
use walletarmy.Idempotency.{InMemoryStore, Record, blank, get, create, insert, modify, update}

module _ {Tx Receipt Err : Type 0} where
  pub get-absent :
      (key : String) (now : ℤ) (s : InMemoryStore Tx Receipt Err)
      → s.records key ≡ none
      → get key now s ≡ none
  unfolding get
  get-absent key now s e = ground arith

  pub create-absent :
      (key : String) (now : ℤ) (s : InMemoryStore Tx Receipt Err)
      → s.records key ≡ none
      → create key now s ≡ ((s.next_ref, false), insert key now s)
  unfolding create
  create-absent key now s e = ground arith

  -- The record `rec` stands in the store under its key.
  pub record Holds (ref : ℕ) (rec : Record Tx Receipt Err) (s : InMemoryStore Tx Receipt Err)
      : Type 0 where
    pub stored : s.records rec.key ≡ some ref
    pub written : s.heap ref ≡ rec

  pub get-Holds :
      (ref : ℕ) (rec : Record Tx Receipt Err) (now : ℤ) (s : InMemoryStore Tx Receipt Err)
      → Holds ref rec s
      → now ≤ℤ rec.created_at +ℤ s.ttl
      → get rec.key now s ≡ some ref
  unfolding get
  get-Holds ref rec now s h le = ground arith

  module _ (key : String) (start now : ℤ) (f : Record Tx Receipt Err → Record Tx Receipt Err)
      (s : InMemoryStore Tx Receipt Err) (same : (f (blank key start)).key ≡ key) where
    abbrev pub settled_store : InMemoryStore Tx Receipt Err
    settled_store = (update s.next_ref now (modify s.next_ref f (insert key start s))).1

    pub update-modify-insert :
        Holds s.next_ref (record (f (blank key start)) { updated_at = now }) settled_store
    unfolding update modify insert
    update-modify-insert = ground (arith, eq_iff key key)

    pub ttl-settled : settled_store.ttl ≡ s.ttl
    unfolding update modify insert
    ttl-settled = ground arith
