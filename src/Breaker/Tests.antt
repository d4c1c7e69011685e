-- ===== src/Breaker/Tests.antt =====
-- The theorems on the circuit breaker at concrete calls.
use walletarmy.Common.{◌≡◌, refl, false, [], ◌∷◌, arith, pos, lebℤ, ◌+◌, if◌then◌else◌, length}
use walletarmy.Breaker.{
  closed, opened, Config, CircuitBreaker, succeed, fail, new, current_state, run,
}
use walletarmy.Breaker.Opening.{IsValid, new-IsValid, run-new-IsValid, fails, run-fails}
use walletarmy.Breaker.Closing.{succeeds, run-succeeds, succeed_early}

-- A breaker that opens at two failures and closes at two successes, with a timeout of ten.
abbrev small : Config
small = record {
  failure_threshold = pos 2;
  success_threshold = pos 2;
  timeout = pos 10;
  on_state_change = false;
}

-- The same after it opened, at time 5.
abbrev tripped : CircuitBreaker
tripped = record {
  config = small;
  state = opened;
  consecutive_failures = 2;
  consecutive_successes = 0;
  last_failure_time = pos 5;
  notices = [];
}

tripped-IsValid : IsValid tripped
tripped-IsValid = ground arith

run-fails_example : (run (new small) (fails (pos 1 ∷ pos 5 ∷ []))).state ≡ (
    if lebℤ
      (new small).config.failure_threshold
      (pos ((new small).consecutive_failures + length (pos 1 ∷ pos 5 ∷ [])))
    then opened
    else closed)
unfolding new
run-fails_example = run-fails (new small) (pos 1 ∷ pos 5 ∷ []) (new-IsValid small) refl

run-new-IsValid_example : IsValid (run (new small) (fail (pos 1) ∷ fail (pos 5) ∷ []))
run-new-IsValid_example = run-new-IsValid small (fail (pos 1) ∷ fail (pos 5) ∷ [])

run-succeeds_example : (run tripped (succeeds (pos 15 ∷ pos 16 ∷ []))).state ≡ (
    if lebℤ tripped.config.success_threshold
      (pos (tripped.consecutive_successes + length (pos 15 ∷ pos 16 ∷ [])))
    then closed
    else opened)
run-succeeds_example =
    run-succeeds tripped (pos 15 ∷ pos 16 ∷ []) refl (omega arith) (omega arith, (omega arith, tt))

succeed_early_example : (run tripped (succeed (pos 6) ∷ succeed (pos 15) ∷ [])).state ≡ closed
unfolding current_state
succeed_early_example = succeed_early tripped (pos 6) (pos 15) refl refl (omega arith) refl
