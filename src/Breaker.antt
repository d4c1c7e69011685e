-- ===== src/Breaker.antt =====
-- internal/circuitbreaker/circuitbreaker.go: the circuit breaker. Each method holds the lock for
-- its whole body, so it is one step: it takes the clock's reading and returns the new breaker.
-- Times and durations are nanoseconds, as integers with no bound. The counters are natural numbers:
-- an `int` wraps only after 2^63 calls.
pub mod Opening
pub mod Closing
mod Tests
use walletarmy.Common.{
  ℕ, suc, ◌*◌, Bool, true, false, List, [], ◌∷◌, ℤ, pos, ◌-ℤ◌, lebℤ, if◌then◌else◌,
}

pub data State : Type 0 where
  closed opened half_open : State

pub record Config : Type 0 where
  pub failure_threshold : ℤ
  pub success_threshold : ℤ
  pub timeout : ℤ
  -- whether `OnStateChange` is set
  pub on_state_change : Bool

abbrev pub seconds : ℕ → ℤ
seconds n = pos (n * 1000000000)

pub record CircuitBreaker : Type 0 where
  pub config : Config
  pub state : State
  pub consecutive_failures : ℕ
  pub consecutive_successes : ℕ
  pub last_failure_time : ℤ
  -- the calls of `OnStateChange` that were started, newest first
  pub notices : List (State × State)

unfoldable pub default_config : Config
default_config = record {
  failure_threshold = pos 5;
  success_threshold = pos 2;
  timeout = seconds 30;
  on_state_change = false;
}

abbrev or_default : ℤ → ℤ → ℤ
or_default n d = if lebℤ n (pos 0) then d else n

-- `lastFailureTime` starts as the zero time; it is read only in the open state.
unfoldable pub new : Config → CircuitBreaker
new c = record {
  config = record c {
    failure_threshold = or_default c.failure_threshold (pos 5);
    success_threshold = or_default c.success_threshold (pos 2);
    timeout = or_default c.timeout (seconds 30);
  };
  state = closed;
  consecutive_failures = 0;
  consecutive_successes = 0;
  last_failure_time = pos 0;
  notices = [];
}

-- `currentState`: an open circuit whose timeout is over counts as half-open.
unfoldable pub current_state : ℤ → CircuitBreaker → State
current_state now cb = elim cb.state [
  | closed ↦ closed
  | opened ↦ if lebℤ cb.config.timeout (now -ℤ cb.last_failure_time) then half_open else opened
  | half_open ↦ half_open
]

unfoldable pub allow : ℤ → CircuitBreaker → Bool
unfolding current_state
allow now cb = elim (current_state now cb) [ closed ↦ true | opened ↦ false | half_open ↦ true ]

abbrev same_state : State → State → Bool
same_state closed closed = true
same_state opened opened = true
same_state half_open half_open = true
same_state _ _ = false

unfoldable pub set_state : State → CircuitBreaker → CircuitBreaker
set_state s cb = if same_state cb.state s then cb else record cb {
  state = s;
  notices = if cb.config.on_state_change then (cb.state, s) ∷ cb.notices else cb.notices;
}

unfoldable pub record_success : ℤ → CircuitBreaker → CircuitBreaker
unfolding current_state set_state
record_success now cb =
    let counted = record cb {
      consecutive_failures = 0;
      consecutive_successes = suc cb.consecutive_successes;
    } in
    elim (current_state now counted) [
      | half_open ↦
          if lebℤ cb.config.success_threshold (pos counted.consecutive_successes)
          then record (set_state closed counted) { consecutive_successes = 0 }
          else counted
      | _ ↦ counted
    ]

pub record_failure : ℤ → CircuitBreaker → CircuitBreaker
unfolding current_state set_state
record_failure now cb =
    let counted = record cb {
      consecutive_successes = 0;
      consecutive_failures = suc cb.consecutive_failures;
      last_failure_time = now;
    } in
    elim (current_state now counted) [
      | closed ↦
          if lebℤ cb.config.failure_threshold (pos counted.consecutive_failures)
          then set_state opened counted
          else counted
      | opened ↦ counted
      | half_open ↦ set_state opened counted
    ]

unfoldable pub reset : CircuitBreaker → CircuitBreaker
unfolding set_state
reset cb = set_state closed (record cb { consecutive_failures = 0; consecutive_successes = 0 })

pub record Stats : Type 0 where
  pub state : State
  pub consecutive_failures : ℕ
  pub consecutive_successes : ℕ
  pub last_failure_time : ℤ

unfoldable pub stats : ℤ → CircuitBreaker → Stats
stats now cb = record {
  state = current_state now cb;
  consecutive_failures = cb.consecutive_failures;
  consecutive_successes = cb.consecutive_successes;
  last_failure_time = cb.last_failure_time;
}

-- One call of a method that changes the breaker, at the clock's reading.
pub data Call : Type 0 where
  succeed fail : ℤ → Call
  reset_all : Call

pub step : CircuitBreaker → Call → CircuitBreaker
unfolding record_success record_failure reset
step cb (succeed now) = record_success now cb
step cb (fail now) = record_failure now cb
step cb reset_all = reset cb

unfoldable pub run : CircuitBreaker → List Call → CircuitBreaker
run cb [] = cb
run cb (c ∷ cs) = run (step cb c) cs
