-- ===== src/Idempotency/Spec/Refinement.antt =====
-- The store of idempotency/idempotency.go implements its specification.
use Prim.Native.String.{String}
use text.Mathlib.Text.{◌==◌ as str_eq}
use walletarmy.Common.{
  ℕ, suc, ◌≡◌, refl, sym, ap, subst, ◌∙◌, ◌⊎◌, inl, inr, true, false, Bool-cases, Option, none,
  some, List, [], ◌∷◌, arith, ℤ, pos, ◌≤ℤ◌,
}
use walletarmy.Idempotency.{
  InMemoryStore, write, new_store, get, create, insert, update, modify, delete, cleanup, stop,
}
use walletarmy.Idempotency.Lifetime.{decided, create-get}
use walletarmy.Idempotency.Spec.{
  Op, gets, creates, updates, settles, deletes, cleans, stops, found, made, updated, Meets, AllMeet,
  finds, Spec, live, spec_insert, make, spec_new, spec_step, step, spec_answers, answers, clock,
  Fair, AllFair,
}
use walletarmy.Idempotency.Spec.Tracks.{
  TracksAt, get-live, later-TracksAt, insert-TracksAt, insert-own, modify-TracksAt, delete-TracksAt,
  cleanup-TracksAt, update-TracksAt, update-found, stop-TracksAt,
}

module _ {Tx Receipt Err : Type 0} where
  -- The store and its specification agree, when the clock is at `now`.
  record Implements (now : ℤ) (s : InMemoryStore Tx Receipt Err) (a : Spec) : Type 0 where
    lasting : pos 1 ≤ℤ s.ttl
    same_ttl : s.ttl ≡ a.ttl
    same_count : s.next_ref ≡ a.count
    tracks : (key : String) → TracksAt (a.born key) key now s

  get-found :
      (key : String) (now t : ℤ) (s : InMemoryStore Tx Receipt Err) (a : Spec)
      → now ≤ℤ t
      → Implements now s a
      → get key t s ≡ live a.ttl t (a.born key)
  get-found key now t s a le v =
      get-live (a.born key) key now t s v.lasting le (v.tracks key)
      ∙ ap (λ ttl. live ttl t (a.born key)) v.same_ttl

  later-Implements :
      (now t : ℤ) (s : InMemoryStore Tx Receipt Err) (a : Spec)
      → now ≤ℤ t
      → Implements now s a
      → Implements t s a
  later-Implements now t s a le v = record {
    lasting = v.lasting;
    same_ttl = v.same_ttl;
    same_count = v.same_count;
    tracks = λ key. later-TracksAt (a.born key) key now t s le (v.tracks key);
  }

  insert-tracks :
      (key k : String) (now t : ℤ) (s : InMemoryStore Tx Receipt Err) (a : Spec)
      → now ≤ℤ t
      → Implements now s a
      → TracksAt ((spec_insert k t a).born key) key t (insert k t s)
  insert-tracks key k now t s a le v = elim (Bool-cases (str_eq key k)) [
    | inl own ↦ rw own (
        subst (λ n. TracksAt (some (n, t)) key t (insert k t s)) v.same_count
          (insert-own key k t s own))
    | inr other ↦ rw other (
        insert-TracksAt (a.born key) key k t s other
          (later-TracksAt (a.born key) key now t s le (v.tracks key)))
  ]

  insert-Implements :
      (k : String) (now t : ℤ) (s : InMemoryStore Tx Receipt Err) (a : Spec)
      → now ≤ℤ t
      → Implements now s a
      → Implements t (insert k t s) (spec_insert k t a)
  unfolding insert
  insert-Implements k now t s a le v = record {
    lasting = v.lasting;
    same_ttl = v.same_ttl;
    same_count = ap (λ n. suc n) v.same_count;
    tracks = λ key. insert-tracks key k now t s a le v;
  }

  create-Implements :
      (key : String) (now t : ℤ) (s : InMemoryStore Tx Receipt Err) (a : Spec) (r : Option ℕ)
      → now ≤ℤ t
      → Implements now s a
      → ((decided r s key t).0 ≡ (make key t a r).0)
        × Implements t (decided r s key t).1 (make key t a r).1
  create-Implements key now t s a (some ref) le v = (refl, later-Implements now t s a le v)
  create-Implements key now t s a none le v =
      (ap (λ n. (n, false)) v.same_count, insert-Implements key now t s a le v)

  delete-tracks :
      (key k : String) (now : ℤ) (s : InMemoryStore Tx Receipt Err) (a : Spec)
      → Implements now s a
      → TracksAt (write k none a.born key) key now (delete k s)
  unfolding delete
  delete-tracks key k now s a v = elim (Bool-cases (str_eq key k)) [
    | inl own ↦ rw own (own_deleted own)
    | inr other ↦ rw other (delete-TracksAt (a.born key) key k now s other (v.tracks key))
  ]
    where
      own_deleted : str_eq key k ≡ true → write k none s.records key ≡ none
      own_deleted own = ground arith

  create-decided :
      (key : String) (now t : ℤ) (s : InMemoryStore Tx Receipt Err) (a : Spec)
      → now ≤ℤ t
      → Implements now s a
      → create key t s ≡ decided (live a.ttl t (a.born key)) s key t
  create-decided key now t s a le v =
      create-get s key t (not_negative v.lasting)
      ∙ ap (λ r. decided r s key t) (get-found key now t s a le v)
    where
      not_negative : pos 1 ≤ℤ s.ttl → pos 0 ≤ℤ s.ttl
      not_negative h = omega (arith, h)

  update-frame :
      (r : ℕ) (t : ℤ) (s : InMemoryStore Tx Receipt Err)
      → ((update r t s).1.ttl ≡ s.ttl) × ((update r t s).1.next_ref ≡ s.next_ref)
  unfolding update modify
  update-frame r t s = (ground arith, ground arith)

  update-Implements :
      (r : ℕ) (now t : ℤ) (s : InMemoryStore Tx Receipt Err) (a : Spec)
      → now ≤ℤ t
      → (s.records (s.heap r).key ≡ none) ⊎ (s.records (s.heap r).key ≡ some r)
      → Implements now s a
      → Implements t (update r t s).1 a
  update-Implements r now t s a le fair v = record {
    lasting = subst (λ z. pos 1 ≤ℤ z) (sym (update-frame r t s).0) v.lasting;
    same_ttl = (update-frame r t s).0 ∙ v.same_ttl;
    same_count = (update-frame r t s).1 ∙ v.same_count;
    tracks = λ key.
        update-TracksAt (a.born key) key t t r s fair
          (later-TracksAt (a.born key) key now t s le (v.tracks key));
  }

  update-Meets :
      (r : ℕ) (key : String) (now t : ℤ) (s : InMemoryStore Tx Receipt Err) (a : Spec)
      → now ≤ℤ t
      → (s.heap r).key ≡ key
      → Implements now s a
      → Meets (updated (some (update r t s).0)) (updated (finds a.ttl t (a.born key)))
  update-Meets r key now t s a le same v =
      subst (λ k. Meets (updated (some (update r t s).0)) (updated (finds a.ttl t (a.born k)))) same
        (subst
          (λ ttl.
            Meets (updated (some (update r t s).0)) (updated (finds ttl t (a.born (s.heap r).key))))
          v.same_ttl
          (elim (update-found (a.born (s.heap r).key) now t r s le (v.tracks (s.heap r).key)) [
            | inl promised ↦ inl (ap updated (sym promised))
            | inr silent_ ↦ inr (ap updated silent_, (update r t s).0, refl)
          ]))

  -- A call is answered as the specification asks, and the two agree afterwards.
  step-Implements :
      (now : ℤ) (s : InMemoryStore Tx Receipt Err) (a : Spec) (c : Op Tx Receipt Err)
      → Fair now s c
      → Implements now s a
      → Meets (step s c).0 (spec_step a c).0
        × Implements (clock now c) (step s c).1 (spec_step a c).1
  unfolding modify cleanup delete stop
  step-Implements now s a (gets key t) le v =
      (inl (ap found (get-found key now t s a le v)), later-Implements now t s a le v)
  step-Implements now s a (creates key t) le v =
      let r = live a.ttl t (a.born key) in
      let done = create-Implements key now t s a r le v in
      subst (λ p. Meets (made p.0) (made (make key t a r).0) × Implements t p.1 (make key t a r).1)
        (sym (create-decided key now t s a le v)) (inl (ap made done.0), done.1)
  step-Implements now s a (updates r key t) (le, same, fair) v =
      (update-Meets r key now t s a le same v, update-Implements r now t s a le fair v)
  step-Implements now s a (settles r f) same v = (
    inl refl,
    record {
      lasting = v.lasting;
      same_ttl = v.same_ttl;
      same_count = v.same_count;
      tracks = λ key. modify-TracksAt (a.born key) key now r f s same (v.tracks key);
    },
  )
  step-Implements now s a (deletes k) h v = (
    inl refl,
    record {
      lasting = v.lasting;
      same_ttl = v.same_ttl;
      same_count = v.same_count;
      tracks = λ key. delete-tracks key k now s a v;
    },
  )
  step-Implements now s a (cleans t) le v = (
    inl refl,
    record {
      lasting = v.lasting;
      same_ttl = v.same_ttl;
      same_count = v.same_count;
      tracks = λ key.
          cleanup-TracksAt (a.born key) key t s
            (later-TracksAt (a.born key) key now t s le (v.tracks key));
    },
  )
  step-Implements now s a stops h v = (
    inl refl,
    record {
      lasting = v.lasting;
      same_ttl = v.same_ttl;
      same_count = v.same_count;
      tracks = λ key. stop-TracksAt (a.born key) key now s (v.tracks key);
    },
  )

  answers-AllMeet :
      (now : ℤ) (s : InMemoryStore Tx Receipt Err) (a : Spec) (cs : List (Op Tx Receipt Err))
      → AllFair now s cs
      → Implements now s a
      → AllMeet (answers s cs) (spec_answers a cs)
  answers-AllMeet now s a [] h v = tt
  answers-AllMeet now s a (c ∷ cs) (h, hs) v =
      let next = step-Implements now s a c h v in
      (next.0, answers-AllMeet (clock now c) (step s c).1 (spec_step a c).1 cs hs next.1)

  -- A new store with a positive lifetime answers every call as its specification asks, which never
  -- cleans up and keeps no records, in any order of the calls of its clients and of the cleanup; of an
  -- update of a key whose lifetime is over the specification promises no answer. The clock does not go
  -- back, an update is of the record under its key, and no client changes the time of a creation.
  pub new_store-answers :
      (ttl now : ℤ) (cs : List (Op Tx Receipt Err))
      → pos 1 ≤ℤ ttl
      → AllFair now (new_store ttl) cs
      → AllMeet (answers (new_store ttl) cs) (spec_answers (spec_new ttl) cs)
  unfolding new_store
  new_store-answers ttl now cs p h =
      answers-AllMeet now (new_store ttl) (spec_new ttl) cs h
        (record { lasting = p; same_ttl = refl; same_count = refl; tracks = λ key. refl })
