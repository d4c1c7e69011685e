-- ===== src/Idempotency/Lifetime.antt =====
-- A key is taken once in its lifetime: idempotency.go.
use Prim.Native.String.{String}
use walletarmy.Common.{ℕ, ◌≡◌, Bool, true, false, Option, none, some, arith, ℤ, pos, ◌≤ℤ◌}
use walletarmy.Idempotency.{InMemoryStore, get, create, insert}

module _ {Tx Receipt Err : Type 0} where
  abbrev pub decided :
      Option ℕ
      → InMemoryStore Tx Receipt Err
      → String
      → ℤ
      → (ℕ × Bool) × InMemoryStore Tx Receipt Err
  decided (some ref) s key now = ((ref, true), s)
  decided none s key now = ((s.next_ref, false), insert key now s)

  -- `Create` refuses a key exactly when `Get` finds it, and then returns the record that `Get` finds;
  -- otherwise it inserts a new record. The lifetime is not negative.
  pub create-get :
      (s : InMemoryStore Tx Receipt Err) (key : String) (now : ℤ)
      → pos 0 ≤ℤ s.ttl
      → create key now s ≡ decided (get key now s) s key now
  unfolding create get
  create-get s key now h = ground arith
