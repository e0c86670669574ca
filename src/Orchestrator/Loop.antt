-- ===== src/Orchestrator/Loop.antt =====
-- internal/agent/orchestrator/engine.go: the loop over the phases of a turn.
pub mod Ended
pub mod Nearer
use tell_me_go.Base.{
  ℕ, zero, suc, Bool, true, false, not, ◌||◌, List, [], ◌∷◌, Option, none, some, is_nil,
  if◌then◌else◌,
}
use tell_me_go.Errors.{Error, Result, ok, err}
use tell_me_go.Llm.{Content}
use tell_me_go.Orchestrator.Steps.{
  Phase, guard, refining, inference, executing, persisting, recovering, complete, TurnState, Calls,
  Processed, process, persist,
}

abbrev pub is_recovering : Phase → Bool
is_recovering recovering = true
is_recovering phase = false

abbrev pub is_complete : Phase → Bool
is_complete complete = true
is_complete phase = false

-- `determineNextPhase`.
abbrev pub determine_next_phase : Phase → Result Phase → Phase
determine_next_phase current (ok next) = next
determine_next_phase current (err e) = if is_recovering current then complete else recovering

abbrev pub recorded : Result Phase → Option Error → Option Error
recorded (ok next) last = last
recorded (err e) last = some e

module _ {S : Type 0} (calls : Calls S) where
  -- `executePhase`: the error is recorded and the next phase set.
  abbrev pub entered : Phase → Processed S → Processed S
  entered current (s, t, r) = (
    s,
    record t { last_error = recorded r t.last_error; phase = determine_next_phase current r },
    r,
  )

  unfoldable pub execute_phase : ℕ → TurnState → S → Processed S
  execute_phase max_retries t s = entered t.phase (process calls max_retries t.phase t s)

  -- `emergencySave`: what could not be stored is stored once more, whatever that answers.
  abbrev pub has_parts : Option Content → Bool
  has_parts none = false
  has_parts (some c) = not (is_nil c.parts)

  unfoldable pub emergency_save : TurnState → S → S × TurnState
  emergency_save t s =
      if has_parts t.response || has_parts t.tool_response
      then ((persist calls t s t.response).0, (persist calls t s t.response).1)
      else (s, t)

  -- `runPhaseLoop`, on fuel; `none` where that is used up.
  abbrev pub LoopEnd : Type 0
  LoopEnd = Option ((S × TurnState) × Option Error)

  unfoldable pub looped : (TurnState → S → LoopEnd) → Bool → Processed S → LoopEnd
  looped next true (s, t, err e) = some (emergency_save t s, some e)
  looped next true (s, t, ok phase) = next t s
  looped next false (s, t, r) = next t s

  unfoldable pub unless_complete : Bool → TurnState → S → (Unit {0} → LoopEnd) → LoopEnd
  unless_complete true t s more = some ((s, t), none)
  unless_complete false t s more = more tt

  unfoldable pub run_phase_loop : ℕ → ℕ → TurnState → S → LoopEnd
  run_phase_loop zero max_retries t s = none
  run_phase_loop (suc fuel) max_retries t s = unless_complete (is_complete t.phase) t s (λ u.
      looped (λ t' s'. run_phase_loop fuel max_retries t' s')
        (is_complete (execute_phase max_retries t s).1.phase) (execute_phase max_retries t s))
