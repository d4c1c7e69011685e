-- ===== src/Breaker/Opening.antt =====
-- When the circuit opens, and how long it then refuses: circuitbreaker.go.
use walletarmy.Common.{
  suc, ◌+◌, ◌≡◌, ◌≢◌, not, List, [], ◌∷◌, arith, ℤ, pos, ◌-ℤ◌, ◌≤ℤ◌, lebℤ, ltbℤ, length,
  if◌then◌else◌,
}
use walletarmy.Breaker.{
  closed, opened, half_open, Config, CircuitBreaker, Call, succeed, fail, reset_all, new, allow,
  step, run,
}

-- Between two calls: the limits are positive, half-open is never stored, and a closed circuit has
-- seen fewer failures in a row than open it.
pub record IsValid (cb : CircuitBreaker) : Type 0 where
  pub failures_positive : pos 1 ≤ℤ cb.config.failure_threshold
  pub successes_positive : pos 1 ≤ℤ cb.config.success_threshold
  pub timeout_positive : pos 1 ≤ℤ cb.config.timeout
  pub not_stored : cb.state ≢ half_open
  pub below : cb.state ≡ closed → pos (suc cb.consecutive_failures) ≤ℤ cb.config.failure_threshold

-- A new breaker is valid, whatever its configuration, also one with zero or negative limits.
pub new-IsValid : (c : Config) → IsValid (new c)
unfolding new
new-IsValid c = ground arith

step-IsValid : (cb : CircuitBreaker) (c : Call) → IsValid cb → IsValid (step cb c)
unfolding step
step-IsValid cb (succeed now) v = ground arith
step-IsValid cb (fail now) v = ground arith
step-IsValid cb reset_all v = ground arith

run-IsValid : (cb : CircuitBreaker) (cs : List Call) → IsValid cb → IsValid (run cb cs)
unfolding run
run-IsValid cb [] v = v
run-IsValid cb (c ∷ cs) v = run-IsValid (step cb c) cs (step-IsValid cb c v)

-- Every breaker that `New` builds, from any configuration, is valid after any calls.
pub run-new-IsValid : (c : Config) (cs : List Call) → IsValid (run (new c) cs)
run-new-IsValid c cs = run-IsValid (new c) cs (new-IsValid c)

abbrev pub fails : List ℤ → List Call
fails [] = []
fails (t ∷ ts) = fail t ∷ fails ts

-- A failure in a closed circuit: the circuit opens exactly at the limit.
fail_closed :
    (cb : CircuitBreaker) (t : ℤ)
    → cb.state ≡ closed
    → let cb' = step cb (fail t) in
      (cb'.state ≡ (
        if lebℤ cb.config.failure_threshold (pos (suc cb.consecutive_failures))
        then opened
        else closed))
      × (cb'.consecutive_failures ≡ suc cb.consecutive_failures)
      × (cb'.config ≡ cb.config)
unfolding step
fail_closed cb t h = ground arith

fail_opened :
    (cb : CircuitBreaker) (t : ℤ)
    → IsValid cb
    → cb.state ≡ opened
    → (step cb (fail t)).state ≡ opened
unfolding step
fail_opened cb t v h = ground arith

fails_opened :
    (cb : CircuitBreaker) (ts : List ℤ)
    → IsValid cb
    → cb.state ≡ opened
    → (run cb (fails ts)).state ≡ opened
unfolding run
fails_opened cb [] v h = h
fails_opened cb (t ∷ ts) v h =
    fails_opened (step cb (fail t)) ts (step-IsValid cb (fail t) v) (fail_opened cb t v h)

-- A valid closed circuit that sees only failures is open exactly if there are as many in a row as the
-- threshold asks for, those that were counted before included.
pub run-fails :
    (cb : CircuitBreaker) (ts : List ℤ)
    → IsValid cb
    → cb.state ≡ closed
    → (run cb (fails ts)).state ≡ (
        if lebℤ cb.config.failure_threshold (pos (cb.consecutive_failures + length ts))
        then opened
        else closed)
unfolding run
run-fails cb [] v h = ground arith
run-fails cb (t ∷ ts) v h = ground (
  arith,
  fail_closed cb t h,
  fails_opened (step cb (fail t)) ts (step-IsValid cb (fail t) v),
  run-fails (step cb (fail t)) ts (step-IsValid cb (fail t) v),
)

-- An open circuit refuses calls exactly until its timeout is over, counted from the last failure: of
-- a valid breaker that is open after a failure at `t`, whatever the clock reads.
allow-fail :
    (cb : CircuitBreaker) (t now : ℤ)
    → IsValid cb
    → (step cb (fail t)).state ≡ opened
    → allow now (step cb (fail t)) ≡ not (ltbℤ (now -ℤ t) cb.config.timeout)
unfolding step allow
allow-fail cb t now v h = ground arith
