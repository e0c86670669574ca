-- ===== src/Examples/Runs.antt =====
-- A run in which the model asks for a tool each time, and the theorem at it. The state counts the calls of
-- the model; behind the third one the context is canceled.
use tell_me_go.Base.{ℕ, zero, suc, ◌+◌, false, ◌≡◌, [], ◌∷◌, Option, none, some, subst, arith}
use mathlib.Core.Option.{some-injective}
use tell_me_go.Errors.{Error, wraps, ok, canceled}
use tell_me_go.Examples.Messages.{tool_answer, tool_request}
use tell_me_go.Orchestrator.Steps.{Calls}
use tell_me_go.Orchestrator.Loop.Nearer.{IsPlain}
use tell_me_go.Orchestrator.Run.{run}
use tell_me_go.Orchestrator.Run.Limited.{Stops, was_canceled, HasContext, HasTurnLimit, run_total}

abbrev canceled_third : ℕ → Option Error
canceled_third zero = none
canceled_third (suc zero) = none
canceled_third (suc (suc zero)) = none
canceled_third (suc (suc (suc n))) = some (wraps (canceled ∷ []))

abbrev calls : Calls ℕ
calls = record {
  ctx_err = canceled_third;
  max_tool_turns = λ s. 5;
  publish_turn_started = λ s. (s, none);
  prepare = λ recovering s. (s, none);
  generate = λ s. (suc s, ok (some tool_request));
  execute = λ response s. (s, some tool_answer, none);
  add_content = λ c s. (s, none);
  wait = λ s. (s, none);
  has_timed_out = λ e. false;
}

calls-IsPlain : IsPlain calls
calls-IsPlain c s e h = cc h

calls-HasContext : HasContext calls
calls-HasContext zero e h = cc h
calls-HasContext (suc zero) e h = cc h
calls-HasContext (suc (suc zero)) e h = cc h
calls-HasContext (suc (suc (suc n))) e h =
    subst Stops (some-injective (wraps (canceled ∷ [])) e h) was_canceled

calls-HasTurnLimit : HasTurnLimit calls 5
calls-HasTurnLimit s = omega arith

run_total_example : (end : ℕ × Option Error) × (run calls (5 + 2) 6 0 false 0 ≡ some end)
run_total_example = run_total calls 6 5 0 calls-IsPlain calls-HasContext calls-HasTurnLimit
