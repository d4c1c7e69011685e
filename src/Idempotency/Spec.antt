-- ===== src/Idempotency/Spec.antt =====
-- What the store of idempotency/idempotency.go promises, without records, references into a heap or
-- cleanups: for each key when it was last created, and a key that is old enough is as good as absent.
pub mod Tracks
pub mod Refinement
use Prim.Native.String.{String}
use walletarmy.Common.{
  ℕ, suc, ◌≡◌, ◌⊎◌, Bool, true, false, Option, none, some, List, [], ◌∷◌, ℤ, pos, ◌-ℤ◌, ◌≤ℤ◌, ltbℤ,
  if◌then◌else◌,
}
use walletarmy.Idempotency.{
  InMemoryStore, Record, write, new_store, get, create, update, modify, delete, cleanup, stop,
}

-- The calls of the clients and of the cleanup, each with its reading of the clock.
pub data Op (Tx Receipt Err : Type 0) : Type 0 where
  gets creates : String → ℤ → Op Tx Receipt Err
  -- the record, and the key that stands in it
  updates : ℕ → String → ℤ → Op Tx Receipt Err
  settles : ℕ → (Record Tx Receipt Err → Record Tx Receipt Err) → Op Tx Receipt Err
  deletes : String → Op Tx Receipt Err
  cleans : ℤ → Op Tx Receipt Err
  stops : Op Tx Receipt Err

-- What a client sees of a call: the record, by its number; whether an update found its key; or the end
-- of a call that answers nothing. A specification that promises nothing of an update says `updated none`.
pub data Answer : Type 0 where
  found : Option ℕ → Answer
  made : ℕ × Bool → Answer
  updated : Option Bool → Answer
  silent : Answer

-- The number and the time of the last creation of each key.
pub record Spec : Type 0 where
  pub born : String → Option (ℕ × ℤ)
  pub count : ℕ
  pub ttl : ℤ

abbrev pub live : ℤ → ℤ → Option (ℕ × ℤ) → Option ℕ
live ttl now none = none
live ttl now (some (ref, start)) = if ltbℤ ttl (now -ℤ start) then none else some ref

-- An update finds a key that lives, and no key that was never created or was deleted. Whether it finds one
-- whose lifetime is over depends on the last cleanup.
abbrev pub finds : ℤ → ℤ → Option (ℕ × ℤ) → Option Bool
finds ttl now none = some false
finds ttl now (some (ref, start)) = if ltbℤ ttl (now -ℤ start) then none else some true

-- An answer does what is asked for: it is the promised one, or one of an update of which nothing is promised.
abbrev pub Meets : Answer → Answer → Type 0
Meets x y = (x ≡ y) ⊎ ((y ≡ updated none) × (b : Bool) × (x ≡ updated (some b)))

abbrev pub AllMeet : List Answer → List Answer → Type 0
AllMeet [] [] = Unit
AllMeet (x ∷ xs) (y ∷ ys) = Meets x y × AllMeet xs ys
AllMeet _ _ = ⊥

abbrev pub spec_insert : String → ℤ → Spec → Spec
spec_insert key now a = record a {
  born = write key (some (a.count, now)) a.born;
  count = suc a.count;
}

abbrev pub make : String → ℤ → Spec → Option ℕ → (ℕ × Bool) × Spec
make key now a (some ref) = ((ref, true), a)
make key now a none = ((a.count, false), spec_insert key now a)

abbrev pub spec_new : ℤ → Spec
spec_new ttl = record { born = λ k. none; count = 0; ttl = ttl }

module _ {Tx Receipt Err : Type 0} where
  abbrev pub spec_step : Spec → Op Tx Receipt Err → Answer × Spec
  spec_step a (gets key now) = (found (live a.ttl now (a.born key)), a)
  spec_step a (creates key now) =
      let (out, a') = make key now a (live a.ttl now (a.born key)) in (made out, a')
  spec_step a (updates ref key now) = (updated (finds a.ttl now (a.born key)), a)
  spec_step a (settles ref f) = (silent, a)
  spec_step a (deletes key) = (silent, record a { born = write key none a.born })
  spec_step a (cleans now) = (silent, a)
  spec_step a stops = (silent, a)

  abbrev pub step :
      InMemoryStore Tx Receipt Err → Op Tx Receipt Err → Answer × InMemoryStore Tx Receipt Err
  step s (gets key now) = (found (get key now s), s)
  step s (creates key now) = let (out, s') = create key now s in (made out, s')
  step s (updates ref key now) = let (b, s') = update ref now s in (updated (some b), s')
  step s (settles ref f) = (silent, modify ref f s)
  step s (deletes key) = (silent, delete key s)
  step s (cleans now) = (silent, cleanup now s)
  step s stops = (silent, stop s)

  abbrev pub spec_answers : Spec → List (Op Tx Receipt Err) → List Answer
  spec_answers a [] = []
  spec_answers a (c ∷ cs) = (spec_step a c).0 ∷ spec_answers (spec_step a c).1 cs

  abbrev pub answers : InMemoryStore Tx Receipt Err → List (Op Tx Receipt Err) → List Answer
  answers s [] = []
  answers s (c ∷ cs) = (step s c).0 ∷ answers (step s c).1 cs

  -- The clock after a call.
  abbrev pub clock : ℤ → Op Tx Receipt Err → ℤ
  clock now (gets key t) = t
  clock now (creates key t) = t
  clock now (updates ref key t) = t
  clock now (settles ref f) = now
  clock now (deletes key) = now
  clock now (cleans t) = t
  clock now stops = now

  -- The clock does not go back; an update is of the record that stands under its key, if any does; a
  -- write through a pointer leaves the time of creation.
  abbrev pub Fair : ℤ → InMemoryStore Tx Receipt Err → Op Tx Receipt Err → Type 0
  Fair now s (gets key t) = now ≤ℤ t
  Fair now s (creates key t) = now ≤ℤ t
  Fair now s (updates ref key t) =
      (now ≤ℤ t)
      × ((s.heap ref).key ≡ key)
      × ((s.records (s.heap ref).key ≡ none) ⊎ (s.records (s.heap ref).key ≡ some ref))
  Fair now s (settles ref f) = (f (s.heap ref)).created_at ≡ (s.heap ref).created_at
  Fair now s (deletes key) = Unit {0}
  Fair now s (cleans t) = now ≤ℤ t
  Fair now s stops = Unit {0}

  abbrev pub AllFair : ℤ → InMemoryStore Tx Receipt Err → List (Op Tx Receipt Err) → Type 0
  AllFair now s [] = Unit {0}
  AllFair now s (c ∷ cs) = Fair now s c × AllFair (clock now c) (step s c).1 cs
