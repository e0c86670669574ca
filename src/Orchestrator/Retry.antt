-- ===== src/Orchestrator/Retry.antt =====
-- internal/agent/orchestrator/engine_types.go and errors.go: whether and when a failed phase is tried
-- again. Times are natural numbers of nanoseconds, and the jitter of the clock is left to the wait.
use tell_me_go.Base.{ℕ, zero, suc, ◌*◌, ◌/◌, Bool, true, false, ◌||◌, leb, if◌then◌else◌}
use tell_me_go.Errors.{Error, is, logic_violation}
use tell_me_go.Providers.Classify.{is_transient, is_terminal, is_auth}

-- `maxDelay`.
abbrev pub max_delay : ℕ
max_delay = 120000000000

-- The loop of `calculateBackoff` over the attempts that are left.
unfoldable pub doubled : ℕ → ℕ → ℕ
doubled zero delay = delay
doubled (suc attempts) delay =
    let rest = doubled attempts (delay * 2) in if leb (max_delay / 2) delay then max_delay else rest

unfoldable pub calculate_backoff : ℕ → ℕ → ℕ
calculate_backoff base attempt = if leb max_delay base then max_delay else doubled attempt base

-- `IsFatal`.
abbrev pub is_fatal : Error → Bool
is_fatal e = if is_terminal e || is_auth e then true else is e logic_violation

-- `DefaultRetryPolicy.ShouldRetry`, without the delay.
unfoldable pub should_retry : ℕ → Error → ℕ → Bool
should_retry max_retries e attempt =
    if leb max_retries attempt then false else if is_fatal e then false else is_transient e
