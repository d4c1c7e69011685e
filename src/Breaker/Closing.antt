-- ===== src/Breaker/Closing.antt =====
-- How an open circuit closes again: circuitbreaker.go, the half-open state.
use walletarmy.Common.{
  suc, ◌+◌, ◌≡◌, true, List, [], ◌∷◌, arith, ℤ, pos, ◌-ℤ◌, ◌≤ℤ◌, lebℤ, All, All-map, length,
  if◌then◌else◌,
}
use walletarmy.Breaker.{
  closed, opened, half_open, CircuitBreaker, Call, succeed, fail, current_state, step, run,
}
use walletarmy.Breaker.Opening.{IsValid}

abbrev pub succeeds : List ℤ → List Call
succeeds [] = []
succeeds (t ∷ ts) = succeed t ∷ succeeds ts

-- The clock's readings at which the timeout of the last failure is over.
abbrev pub IsOver : CircuitBreaker → ℤ → Type 0
IsOver cb now = cb.config.timeout ≤ℤ now -ℤ cb.last_failure_time

succeed_over :
    (cb : CircuitBreaker) (t : ℤ)
    → cb.state ≡ opened
    → IsOver cb t
    → let cb' = step cb (succeed t) in
      (cb'.state ≡ (
        if lebℤ cb.config.success_threshold (pos (suc cb.consecutive_successes))
        then closed
        else opened))
      × (cb'.consecutive_failures ≡ 0)
      × (cb'.config ≡ cb.config)
      × (cb'.last_failure_time ≡ cb.last_failure_time)
      × (cb'.state ≡ opened → cb'.consecutive_successes ≡ suc cb.consecutive_successes)
unfolding step
succeed_over cb t h o = ground arith

succeeds_closed :
    (cb : CircuitBreaker) (ts : List ℤ) → cb.state ≡ closed → (run cb (succeeds ts)).state ≡ closed
unfolding run step
succeeds_closed cb [] h = h
succeeds_closed cb (t ∷ ts) h = succeeds_closed (step cb (succeed t)) ts (ground arith)

-- An open circuit that has counted fewer successes than the threshold, and sees only successes from the
-- timeout of its last failure on, is closed after them exactly if there are as many as the threshold asks
-- for, those that were counted before included; else it is open.
pub run-succeeds :
    (cb : CircuitBreaker) (ts : List ℤ)
    → cb.state ≡ opened
    → pos (suc cb.consecutive_successes) ≤ℤ cb.config.success_threshold
    → All (IsOver cb) ts
    → (run cb (succeeds ts)).state ≡ (
        if lebℤ cb.config.success_threshold (pos (cb.consecutive_successes + length ts))
        then closed
        else opened)
unfolding run
run-succeeds cb [] h b o = ground arith
run-succeeds cb (t ∷ ts) h b o =
    let cb' = step cb (succeed t) in
    let (state, _, config, time, count) = succeed_over cb t h o.0 in
    let rest : All (IsOver cb') ts = All-map ts (λ a q. rw (config, time) q) o.1 in
    ground (arith, state, config, count, succeeds_closed cb' ts, run-succeeds cb' ts)

-- A failure in the half-open state opens the circuit again: the timeout starts anew at the failure,
-- the successes so far are forgotten, and no change of state is announced.
half_open-fail :
    (cb : CircuitBreaker) (t : ℤ)
    → IsValid cb
    → current_state t cb ≡ half_open
    → let cb' = step cb (fail t) in
      (cb'.state ≡ opened)
      × (cb'.last_failure_time ≡ t)
      × (cb'.consecutive_successes ≡ 0)
      × (cb'.notices ≡ cb.notices)
unfolding step
half_open-fail cb t v h = ground arith

-- A success that is recorded while the circuit still refuses calls counts towards closing it: with
-- one success missing after it, the first success after the timeout closes the circuit.
pub succeed_early :
    (cb : CircuitBreaker) (t now : ℤ)
    → cb.state ≡ opened
    → current_state t cb ≡ opened
    → IsOver cb now
    → lebℤ cb.config.success_threshold (pos (suc (suc cb.consecutive_successes))) ≡ true
    → (run cb (succeed t ∷ succeed now ∷ [])).state ≡ closed
unfolding run step
succeed_early cb t now h e o b = ground arith
