-- ===== src/Orchestrator/Run.antt =====
-- internal/agent/orchestrator/engine.go: the run over the turns of a session. No processor asks for a stop, so
-- a turn's `Stop` stays false; the middleware is left out.
pub mod Limited
use tell_me_go.Base.{ℕ, zero, suc, ◌+◌, ◌*◌, Bool, true, false, not, Option, none, some}
use tell_me_go.Errors.{Error}
use tell_me_go.Orchestrator.Steps.{guard, TurnState, Calls}
use tell_me_go.Orchestrator.Loop.{LoopEnd, run_phase_loop}

-- `CreateTurn`, with what the run's loop detector knows.
unfoldable pub create_turn : ℕ → Bool → TurnState
create_turn i seen = record {
  index = i;
  phase = guard;
  has_tool_calls = false;
  response = none;
  tool_response = none;
  last_error = none;
  retry_count = 0;
  recovery_from_overflow = false;
  seen_rate_limit = seen;
}

abbrev pub should_stop_running : TurnState → Bool
should_stop_running t = not t.has_tool_calls

-- The fuel of a turn's phases.
abbrev pub phase_fuel : ℕ → ℕ
phase_fuel max_retries = (max_retries + 4) * 9

module _ {S : Type 0} (calls : Calls S) where
  abbrev pub RunEnd : Type 0
  RunEnd = Option (S × Option Error)

  unfoldable pub unless_stopped : (Bool → S → RunEnd) → Bool → TurnState → S → RunEnd
  unless_stopped next true t s = some (s, none)
  unless_stopped next false t s = next t.seen_rate_limit s

  unfoldable pub continued : (Bool → S → RunEnd) → LoopEnd calls → RunEnd
  continued next none = none
  continued next (some ((s, t), some e)) = some (s, some e)
  continued next (some ((s, t), none)) = unless_stopped next (should_stop_running t) t s

  -- `Run` from a turn on, on fuel; `none` where that is used up.
  unfoldable pub run : ℕ → ℕ → ℕ → Bool → S → RunEnd
  run zero max_retries i seen s = none
  run (suc fuel) max_retries i seen s =
      continued (λ seen' s'. run fuel max_retries (i + 1) seen' s')
        (run_phase_loop calls (phase_fuel max_retries) max_retries (create_turn i seen) s)
