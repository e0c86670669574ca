-- ===== src/Examples/Phases.antt =====
-- A turn whose first call of the model fails, and the theorem at it. The state counts the calls.
use tell_me_go.Base.{ℕ, zero, suc, ◌+◌, ◌*◌, false, ◌≡◌, refl, [], ◌∷◌, Option, none, some}
use tell_me_go.Errors.{Error, wraps, Result, ok, err, rate_limit}
use tell_me_go.Llm.{Content}
use tell_me_go.Examples.Messages.{reply}
use tell_me_go.Orchestrator.Steps.{guard, TurnState, Calls}
use tell_me_go.Orchestrator.Loop.{run_phase_loop}
use tell_me_go.Orchestrator.Loop.Nearer.{IsPlain}
use tell_me_go.Orchestrator.Loop.Ended.{run_phase_loop_total}

abbrev second_time : ℕ → ℕ × Result (Option Content)
second_time zero = (1, err (wraps (rate_limit ∷ [])))
second_time (suc n) = (suc n, ok (some reply))

abbrev calls : Calls ℕ
calls = record {
  ctx_err = λ s. none;
  max_tool_turns = λ s. 10;
  publish_turn_started = λ s. (s, none);
  prepare = λ recovering s. (s, none);
  generate = second_time;
  execute = λ response s. (s, none, none);
  add_content = λ c s. (s, none);
  wait = λ s. (s, none);
  has_timed_out = λ e. false;
}

calls-IsPlain : IsPlain calls
calls-IsPlain c s e h = cc h

abbrev fresh_turn : TurnState
fresh_turn = record {
  index = 0;
  phase = guard;
  has_tool_calls = false;
  response = none;
  tool_response = none;
  last_error = none;
  retry_count = 0;
  recovery_from_overflow = false;
  seen_rate_limit = false;
}

run_phase_loop_total_example :
    (end : (ℕ × TurnState) × Option Error) × (run_phase_loop calls ((6 + 4) * 9) 6 fresh_turn 0
      ≡ some end)
run_phase_loop_total_example = run_phase_loop_total calls 6 fresh_turn 0 calls-IsPlain refl
