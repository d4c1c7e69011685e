-- ===== src/Idempotency/Once.antt =====
-- While a key lives, whatever calls come between, it is not taken again: idempotency.go.
use Prim.Native.String.{String}
use text.Mathlib.Text.{◌==◌ as str_eq}
use text.Mathlib.TextEquality.{eq_iff}
use walletarmy.Common.{
  ℕ, ◌<◌, ◌≡◌, ◌≢◌, ◌⊎◌, inl, inr, ap, Bool-cases, true, false, some, List, [], ◌∷◌, arith, ℤ, pos,
  ◌≤ℤ◌, ◌+ℤ◌,
}
use walletarmy.Idempotency.{
  Record, InMemoryStore, create, insert, modify, update, delete, cleanup, stop,
}

-- What the callers may do to the store.
pub data Call (Tx Receipt Err : Type 0) : Type 0 where
  creates : String → ℤ → Call Tx Receipt Err
  updates : ℕ → ℤ → Call Tx Receipt Err
  settles : ℕ → (Record Tx Receipt Err → Record Tx Receipt Err) → Call Tx Receipt Err
  deletes : String → Call Tx Receipt Err
  cleans : ℤ → Call Tx Receipt Err
  stops : Call Tx Receipt Err

-- A record from `start` lasts until `end`: for ever, if the lifetime is 0.
abbrev pub Lasts : ℤ → ℤ → ℤ → Type 0
Lasts ttl start end = (ttl ≡ pos 0) ⊎ (end ≤ℤ start +ℤ ttl)

module _ {Tx Receipt Err : Type 0} where
  unfoldable pub after :
      InMemoryStore Tx Receipt Err → Call Tx Receipt Err → InMemoryStore Tx Receipt Err
  after s (creates key now) = (create key now s).1
  after s (updates ref now) = (update ref now s).1
  after s (settles ref f) = modify ref f s
  after s (deletes key) = delete key s
  after s (cleans now) = cleanup now s
  after s stops = stop s

  unfoldable pub run :
      InMemoryStore Tx Receipt Err → List (Call Tx Receipt Err) → InMemoryStore Tx Receipt Err
  run s [] = s
  run s (c ∷ cs) = run (after s c) cs

  -- A call no later than `end`, which updates no other record of the key, does not delete the key, and writes
  -- neither key nor time of a record. The cleanup runs only with a positive lifetime.
  abbrev pub Within : String → ℕ → ℤ → InMemoryStore Tx Receipt Err → Call Tx Receipt Err → Type 0
  Within key ref end s (creates k now) = now ≤ℤ end
  Within key ref end s (updates r now) = (s.heap r).key ≡ key → r ≡ ref
  Within key ref end s (settles r f) =
      ((f (s.heap r)).key ≡ (s.heap r).key) × ((f (s.heap r)).created_at ≡ (s.heap r).created_at)
  Within key ref end s (deletes k) = k ≢ key
  Within key ref end s (cleans now) = (pos 1 ≤ℤ s.ttl) × (now ≤ℤ end)
  Within key ref end s stops = Unit {0}

  abbrev pub AllWithin :
      String → ℕ → ℤ → InMemoryStore Tx Receipt Err → List (Call Tx Receipt Err) → Type 0
  AllWithin key ref end s [] = Unit {0}
  AllWithin key ref end s (c ∷ cs) = Within key ref end s c × AllWithin key ref end (after s c) cs

  record Live (key : String) (ref : ℕ) (end : ℤ) (s : InMemoryStore Tx Receipt Err) : Type 0 where
    stored : s.records key ≡ some ref
    fits : Lasts s.ttl (s.heap ref).created_at end
    used : ref < s.next_ref

  create_again :
      (key : String) (ref : ℕ) (end now : ℤ) (s : InMemoryStore Tx Receipt Err)
      → now ≤ℤ end
      → Live key ref end s
      → create key now s ≡ ((ref, true), s)
  unfolding create
  create_again key ref end now s le v = ground arith

  insert-Live :
      (key k : String) (ref : ℕ) (end now : ℤ) (s : InMemoryStore Tx Receipt Err)
      → k ≢ key
      → Live key ref end s
      → Live key ref end (insert k now s)
  unfolding insert
  insert-Live key k ref end now s ne v = ground (arith, eq_iff key k)

  create-cases :
      (k : String) (now : ℤ) (s : InMemoryStore Tx Receipt Err)
      → ((create k now s).1 ≡ s) ⊎ ((create k now s).1 ≡ insert k now s)
  unfolding create
  create-cases k now s = ground arith

  create-Live :
      (key k : String) (ref : ℕ) (end now : ℤ) (s : InMemoryStore Tx Receipt Err)
      → now ≤ℤ end
      → Live key ref end s
      → Live key ref end (create k now s).1
  create-Live key k ref end now s le v = elim (Bool-cases (str_eq k key)) [
    | inl same ↦
        rw ((eq_iff k key).0 same) (rw (ap (λ p. p.1) (create_again key ref end now s le v)) v)
    | inr other ↦ elim (create-cases k now s) [
      | inl kept ↦ rw kept v
      | inr put ↦ rw put (insert-Live key k ref end now s (λ e. cc (other, (eq_iff k key).1 e)) v)
    ]
  ]

  update-Live :
      (key : String) (ref r : ℕ) (end now : ℤ) (s : InMemoryStore Tx Receipt Err)
      → ((s.heap r).key ≡ key → r ≡ ref)
      → Live key ref end s
      → Live key ref end (update r now s).1
  unfolding update
  update-Live key ref r end now s only v = ground (arith, eq_iff key (s.heap r).key)

  after-Live :
      (key : String) (ref : ℕ) (end : ℤ) (s : InMemoryStore Tx Receipt Err)
      (c : Call Tx Receipt Err)
      → Within key ref end s c
      → Live key ref end s
      → Live key ref end (after s c)
  unfolding after modify cleanup stop delete
  after-Live key ref end s (creates k now) le v = create-Live key k ref end now s le v
  after-Live key ref end s (updates r now) only v = update-Live key ref r end now s only v
  after-Live key ref end s (settles r f) same v = ground arith
  after-Live key ref end s (deletes k) ne v = ground (arith, eq_iff key k)
  after-Live key ref end s (cleans now) (runs, le) v = ground arith
  after-Live key ref end s stops h v = ground arith

  run-Live :
      (key : String) (ref : ℕ) (end : ℤ) (s : InMemoryStore Tx Receipt Err)
      (cs : List (Call Tx Receipt Err))
      → AllWithin key ref end s cs
      → Live key ref end s
      → Live key ref end (run s cs)
  unfolding run
  run-Live key ref end s [] h v = v
  run-Live key ref end s (c ∷ cs) h v =
      run-Live key ref end (after s c) cs h.1 (after-Live key ref end s c h.0 v)

  create_new-Live :
      (key : String) (ref : ℕ) (start end : ℤ) (s s' : InMemoryStore Tx Receipt Err)
      → create key start s ≡ ((ref, false), s')
      → Lasts s.ttl start end
      → Live key ref end s'
  unfolding create insert
  create_new-Live key ref start end s s' e lasts = ground (arith, eq_iff key key)

  -- A key that was created is not created again while it lives, which is for ever if the lifetime is 0:
  -- after any calls within the lifetime, which update no other record of the key, do not delete the key,
  -- and write neither key nor time of a record, `Create` answers a duplicate, with the record of the
  -- first call, and changes nothing.
  pub create_once :
      (key : String) (ref : ℕ) (start end now : ℤ) (s s' : InMemoryStore Tx Receipt Err)
      (cs : List (Call Tx Receipt Err))
      → create key start s ≡ ((ref, false), s')
      → Lasts s.ttl start end
      → AllWithin key ref end s' cs
      → now ≤ℤ end
      → create key now (run s' cs) ≡ ((ref, true), run s' cs)
  create_once key ref start end now s s' cs e lasts h le =
      create_again key ref end now (run s' cs) le
        (run-Live key ref end s' cs h (create_new-Live key ref start end s s' e lasts))
