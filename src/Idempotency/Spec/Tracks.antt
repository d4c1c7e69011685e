-- ===== src/Idempotency/Spec/Tracks.antt =====
-- How the store of idempotency/idempotency.go stands for its specification, and that each operation
-- keeps this so.
use Prim.Native.String.{String}
use text.Mathlib.Text.{◌==◌ as str_eq}
use text.Mathlib.TextEquality.{eq_iff}
use walletarmy.Common.{
  ℕ, ◌<◌, ◌≡◌, ◌⊎◌, inl, inr, true, false, Bool-cases, Option, none, some, arith, ℤ, pos, ◌-ℤ◌,
  ◌≤ℤ◌, ltbℤ,
}
use walletarmy.Idempotency.{
  InMemoryStore, Record, age, get, insert, update, modify, delete, cleanup, stop,
}
use walletarmy.Idempotency.Spec.{live, finds}

module _ {Tx Receipt Err : Type 0} where
  -- A key that was created stands in the store, or has been cleaned up after its lifetime.
  abbrev pub TracksAt : Option (ℕ × ℤ) → String → ℤ → InMemoryStore Tx Receipt Err → Type 0
  TracksAt none key now s = s.records key ≡ none
  TracksAt (some (ref, start)) key now s =
      ((s.records key ≡ some ref) × ((s.heap ref).created_at ≡ start) × (ref < s.next_ref))
      ⊎ ((s.records key ≡ none) × (ltbℤ s.ttl (now -ℤ start) ≡ true))

  pub get-live :
      (b : Option (ℕ × ℤ)) (key : String) (now t : ℤ) (s : InMemoryStore Tx Receipt Err)
      → pos 1 ≤ℤ s.ttl
      → now ≤ℤ t
      → TracksAt b key now s
      → get key t s ≡ live s.ttl t b
  unfolding get
  get-live none key now t s p le h = ground arith
  get-live (some (ref, start)) key now t s p le (inl h) = ground arith
  get-live (some (ref, start)) key now t s p le (inr h) = ground arith

  pub later-TracksAt :
      (b : Option (ℕ × ℤ)) (key : String) (now t : ℤ) (s : InMemoryStore Tx Receipt Err)
      → now ≤ℤ t
      → TracksAt b key now s
      → TracksAt b key t s
  later-TracksAt none key now t s le h = h
  later-TracksAt (some (ref, start)) key now t s le (inl h) = inl h
  later-TracksAt (some (ref, start)) key now t s le (inr h) = inr (h.0, ground arith)

  pub insert-TracksAt :
      (b : Option (ℕ × ℤ)) (key k : String) (now : ℤ) (s : InMemoryStore Tx Receipt Err)
      → str_eq key k ≡ false
      → TracksAt b key now s
      → TracksAt b key now (insert k now s)
  unfolding insert
  insert-TracksAt none key k now s ne h = ground arith
  insert-TracksAt (some (ref, start)) key k now s ne (inl h) =
      inl (ground arith, ground arith, ground arith)
  insert-TracksAt (some (ref, start)) key k now s ne (inr h) = inr (ground arith, h.1)

  pub insert-own :
      (key k : String) (now : ℤ) (s : InMemoryStore Tx Receipt Err)
      → str_eq key k ≡ true
      → TracksAt (some (s.next_ref, now)) key now (insert k now s)
  unfolding insert
  insert-own key k now s same = inl (ground arith, ground arith, ground arith)

  pub modify-TracksAt :
      (b : Option (ℕ × ℤ)) (key : String) (now : ℤ) (r : ℕ)
      (f : Record Tx Receipt Err → Record Tx Receipt Err) (s : InMemoryStore Tx Receipt Err)
      → (f (s.heap r)).created_at ≡ (s.heap r).created_at
      → TracksAt b key now s
      → TracksAt b key now (modify r f s)
  unfolding modify
  modify-TracksAt none key now r f s same h = h
  modify-TracksAt (some (ref, start)) key now r f s same (inl h) = inl (h.0, ground arith, h.2)
  modify-TracksAt (some (ref, start)) key now r f s same (inr h) = inr h

  pub delete-TracksAt :
      (b : Option (ℕ × ℤ)) (key k : String) (now : ℤ) (s : InMemoryStore Tx Receipt Err)
      → str_eq key k ≡ false
      → TracksAt b key now s
      → TracksAt b key now (delete k s)
  unfolding delete
  delete-TracksAt none key k now s ne h = ground arith
  delete-TracksAt (some (ref, start)) key k now s ne (inl h) = inl (ground arith, h.1, h.2)
  delete-TracksAt (some (ref, start)) key k now s ne (inr h) = inr (ground arith, h.1)

  pub cleanup-TracksAt :
      (b : Option (ℕ × ℤ)) (key : String) (now : ℤ) (s : InMemoryStore Tx Receipt Err)
      → TracksAt b key now s
      → TracksAt b key now (cleanup now s)
  unfolding cleanup
  cleanup-TracksAt none key now s h = ground arith
  cleanup-TracksAt (some (ref, start)) key now s (inl h) =
      elim (Bool-cases (ltbℤ s.ttl (age now ref s))) [
        | inl old ↦ inr (ground arith, ground arith)
        | inr young ↦ inl (ground arith, h.1, h.2)
      ]
  cleanup-TracksAt (some (ref, start)) key now s (inr h) = inr (ground arith, h.1)

  pub update-TracksAt :
      (b : Option (ℕ × ℤ)) (key : String) (now t : ℤ) (r : ℕ) (s : InMemoryStore Tx Receipt Err)
      → (s.records (s.heap r).key ≡ none) ⊎ (s.records (s.heap r).key ≡ some r)
      → TracksAt b key now s
      → TracksAt b key now (update r t s).1
  unfolding update modify
  update-TracksAt none key now t r s fair h = ground (arith, eq_iff key (s.heap r).key)
  update-TracksAt (some (ref, start)) key now t r s fair (inl h) =
      inl (ground (arith, eq_iff key (s.heap r).key), ground arith, ground arith)
  update-TracksAt (some (ref, start)) key now t r s fair (inr h) =
      inr (ground (arith, eq_iff key (s.heap r).key), ground arith)

  -- What an update answers about the key of its record.
  pub update-found :
      (b : Option (ℕ × ℤ)) (now t : ℤ) (r : ℕ) (s : InMemoryStore Tx Receipt Err)
      → now ≤ℤ t
      → TracksAt b (s.heap r).key now s
      → (finds s.ttl t b ≡ some (update r t s).0) ⊎ (finds s.ttl t b ≡ none)
  unfolding update
  update-found none now t r s le h = inl (ground arith)
  update-found (some (ref, start)) now t r s le (inl h) = ground arith
  update-found (some (ref, start)) now t r s le (inr h) = inr (ground arith)

  pub stop-TracksAt :
      (b : Option (ℕ × ℤ)) (key : String) (now : ℤ) (s : InMemoryStore Tx Receipt Err)
      → TracksAt b key now s
      → TracksAt b key now (stop s)
  unfolding stop
  stop-TracksAt none key now s h = h
  stop-TracksAt (some (ref, start)) key now s h = h
