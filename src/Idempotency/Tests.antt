-- ===== src/Idempotency/Tests.antt =====
-- The theorems on the store at concrete calls, with a lifetime of ten.
use Prim.Native.String.{String}
use text.Mathlib.TextEquality.{eq_iff}
use walletarmy.Common.{ℕ, ◌≡◌, ◌≢◌, refl, inr, true, [], ◌∷◌, List, arith, pos}
use walletarmy.Idempotency.{InMemoryStore, new_store, create, insert, get, delete}
use walletarmy.Idempotency.Lifetime.{create-get, decided}
use walletarmy.Idempotency.Spec
use walletarmy.Idempotency.Spec.{Op, AllMeet, answers, spec_answers, spec_new}
use walletarmy.Idempotency.Spec.Refinement.{new_store-answers}
use walletarmy.Idempotency.Once.{Call, creates, deletes, cleans, stops, after, run, create_once}

abbrev Store : Type 0
Store = InMemoryStore ℕ ℕ ℕ

abbrev empty : Store
empty = new_store (pos 10)

-- After `Create("a")` at time 1.
abbrev one : Store
one = (create "a" (pos 1) empty).1

abbrev calls : List (Call ℕ ℕ ℕ)
calls = creates "b" (pos 3) ∷ deletes "b" ∷ cleans (pos 9) ∷ stops ∷ []

b_ne_a : ◌≢◌ {A = String} "b" "a"
b_ne_a = λ e. cc ((eq_iff "b" "a").1 e)

create_once_example : create "a" (pos 11) (run one calls) ≡ ((0, true), run one calls)
unfolding create insert new_store delete after
create_once_example =
    create_once "a" 0 (pos 1) (pos 11) (pos 11) empty one calls refl (inr (omega arith))
      (omega arith, (b_ne_a, ((omega arith, omega arith), (tt, tt)))) (omega arith)

create-get_example : create "a" (pos 5) one ≡ decided (get "a" (pos 5) one) one "a" (pos 5)
unfolding create insert new_store
create-get_example = create-get one "a" (pos 5) (omega arith)

-- The key lives at 5, is updated, cleaned up at 20, and created anew.
abbrev session : List (Op ℕ ℕ ℕ)
session =
    Spec.creates "a" (pos 1)
    ∷ Spec.gets "a" (pos 5)
    ∷ Spec.updates 0 "a" (pos 6)
    ∷ Spec.cleans (pos 20)
    ∷ Spec.creates "a" (pos 21)
    ∷ Spec.deletes "a"
    ∷ Spec.gets "a" (pos 22)
    ∷ []

new_store-answers_example :
    AllMeet
      (answers {Tx = ℕ} {Receipt = ℕ} {Err = ℕ} (new_store (pos 10)) session)
      (spec_answers (spec_new (pos 10)) session)
unfolding new_store create insert
new_store-answers_example = new_store-answers (pos 10) (pos 0) session (omega arith) (
  omega arith,
  (
    omega arith,
    ((omega arith, refl, inr refl), (omega arith, (omega arith, (tt, (omega arith, tt))))),
  ),
)
