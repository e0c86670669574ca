-- ===== src/Orchestrator/Steps.antt =====
-- internal/agent/orchestrator: the processors of the phases (engine_phases.go, engine_inference.go,
-- engine_execution.go). Calls that leave the package are an argument, on a state that stands for
-- everything outside. Metrics, logs and notices to the interface are left out, and so is the middleware.
use tell_me_go.Base.{
  ℕ, ◌+◌, Bool, true, false, List, [], ◌∷◌, Option, none, some, ltb, ◌==◌, if◌then◌else◌,
}
use tell_me_go.Errors.{
  Error, wraps, nil_dereference, Result, ok, err, is, terminal, transient, max_turns_reached,
  bus_not_initialized, empty_response, logic_violation,
}
use tell_me_go.Llm.{Part, Content}
use tell_me_go.Llm.Parts.{is_empty}
use tell_me_go.Context.Manager.{categorized}
use tell_me_go.History.Turns.{has_function_call}
use tell_me_go.Providers.Classify.{
  LlmError, rate_limited, context_overflow, auth_failure, server_error, timeout, classify_llm_error,
}
use tell_me_go.Orchestrator.Retry.{should_retry}

-- `TurnPhase`.
pub data Phase : Type 0 where
  guard refining inference executing persisting recovering complete : Phase

-- `TurnState`, with the turn's index and what its loop detector knows of rate limits.
pub record TurnState : Type 0 where
  pub index : ℕ
  pub phase : Phase
  pub has_tool_calls : Bool
  pub response : Option Content
  pub tool_response : Option Content
  pub last_error : Option Error
  pub retry_count : ℕ
  pub recovery_from_overflow : Bool
  pub seen_rate_limit : Bool

-- `execute` answers the tools' response behind the limits of its payload; `wait` tells of the retry and
-- waits for the delay; `has_timed_out` is what a `Timeout()` in the chain of an error answers.
pub record Calls (S : Type 0) : Type 0 where
  pub ctx_err : S → Option Error
  pub max_tool_turns : S → ℕ
  pub publish_turn_started : S → S × Option Error
  pub prepare : Bool → S → S × Option Error
  pub generate : S → S × Result (Option Content)
  pub execute : Option Content → S → S × Option Content × Option Error
  pub add_content : Content → S → S × Option Error
  pub wait : S → S × Option Error
  pub has_timed_out : Error → Bool

-- `maxEmptyResponseRetries`.
abbrev pub max_empty_response_retries : ℕ
max_empty_response_retries = 3

-- Whether all parts are empty: the loop of `isResponseEmpty`.
unfoldable pub are_all_empty : List (Option Part) → Result Bool
are_all_empty [] = ok true
are_all_empty (none ∷ ps) = err nil_dereference
are_all_empty (some p ∷ ps) = let rest = are_all_empty ps in if is_empty p then rest else ok false

-- The outcome of a phase: an error, or the next phase.
abbrev pub Processed : Type 0 → Type 0
Processed S = S × TurnState × Result Phase

module _ {S : Type 0} (calls : Calls S) where
  -- `GuardStep`.
  unfoldable pub guarded : TurnState → S × Option Error → Processed S
  guarded t (s, none) = (s, t, ok refining)
  guarded t (s, some e) = (s, t, if is e bus_not_initialized then ok refining else err e)

  unfoldable pub guard_live : TurnState → S → Option Error → Processed S
  guard_live t s (some e) = (s, t, err e)
  guard_live t s none =
      if ltb (calls.max_tool_turns s) t.index
      then (s, t, err (wraps (terminal ∷ max_turns_reached ∷ [])))
      else guarded t (calls.publish_turn_started s)

  -- `ContextRefiner`.
  unfoldable pub refined : TurnState → S × Option Error → Processed S
  refined t (s, none) = (s, t, ok inference)
  refined t (s, some e) = (s, t, err (categorized e))

  -- `InferenceStep`, behind the answer of the gateway.
  unfoldable pub routed_by_content : S → TurnState → Result Bool → Processed S
  routed_by_content s t (err e) = (s, t, err e)
  routed_by_content s t (ok true) =
      (s, t, err (categorized (wraps (transient ∷ empty_response ∷ []))))
  routed_by_content s t (ok false) = (s, t, ok (if t.has_tool_calls then executing else persisting))

  unfoldable pub updated : S → TurnState → Content → Result Bool → Processed S
  updated s t c (err e) = (s, t, err e)
  updated s t c (ok has_calls) =
      routed_by_content s (record t { response = some c; has_tool_calls = has_calls })
        (are_all_empty c.parts)

  unfoldable pub inferred : TurnState → S × Result (Option Content) → Processed S
  inferred t (s, err e) = (s, t, err (categorized e))
  inferred t (s, ok none) = (s, t, err (categorized (wraps (logic_violation ∷ []))))
  inferred t (s, ok (some c)) = updated s t c (has_function_call c.parts)

  -- `ExecutionStep`.
  abbrev pub with_tool_response : TurnState → Option Content → TurnState
  with_tool_response t none = t
  with_tool_response t (some c) = record t { tool_response = some c }

  unfoldable pub executed : TurnState → S × Option Content × Option Error → Processed S
  executed t (s, c, some e) = (s, with_tool_response t c, err (categorized e))
  executed t (s, c, none) = (s, with_tool_response t c, ok persisting)

  -- `PersistenceStep`: what is stored is cleared, so that storing again stores only what failed.
  unfoldable pub persisted_tools : TurnState → S × Option Error → Processed S
  persisted_tools t (s, some e) = (s, t, err (categorized e))
  persisted_tools t (s, none) = (s, record t { tool_response = none }, ok complete)

  unfoldable pub persist_tools : TurnState → S → Option Content → Processed S
  persist_tools t s none = (s, t, ok complete)
  persist_tools t s (some c) = persisted_tools t (calls.add_content c s)

  unfoldable pub persisted_response : TurnState → S × Option Error → Processed S
  persisted_response t (s, some e) = (s, t, err (categorized e))
  persisted_response t (s, none) = persist_tools (record t { response = none }) s t.tool_response

  unfoldable pub persist : TurnState → S → Option Content → Processed S
  persist t s none = persist_tools t s t.tool_response
  persist t s (some c) = persisted_response t (calls.add_content c s)

  -- `RecoveryStep`: `attemptRetry`.
  unfoldable pub waited : TurnState → S × Option Error → Processed S
  waited t (s, some e) = (s, t, err e)
  waited t (s, none) = (s, t, ok refining)

  abbrev pub attempt_retry : TurnState → S → Processed S
  attempt_retry t s = waited (record t { retry_count = t.retry_count + 1 }) (calls.wait s)

  unfoldable pub retry_or_fail : ℕ → TurnState → S → Error → Processed S
  retry_or_fail max_retries t s e =
      if should_retry max_retries e t.retry_count then attempt_retry t s else (s, t, err e)

  unfoldable pub recover_from : ℕ → TurnState → S → Error → LlmError → Processed S
  recover_from max_retries t s e rate_limited =
      retry_or_fail max_retries (record t { seen_rate_limit = true }) s e
  recover_from max_retries t s e auth_failure = (s, t, err e)
  recover_from max_retries t s e context_overflow =
      if t.retry_count == 0
      then (s, record t { retry_count = 1; recovery_from_overflow = true }, ok refining)
      else retry_or_fail max_retries t s e
  recover_from max_retries t s e timeout = retry_or_fail max_retries t s e
  recover_from max_retries t s e server_error = retry_or_fail max_retries t s e

  unfoldable pub recovered : ℕ → TurnState → S → Option Error → Processed S
  recovered max_retries t s none = (s, t, ok complete)
  recovered max_retries t s (some e) =
      if is e empty_response
      then (if ltb t.retry_count max_empty_response_retries
          then attempt_retry t s
          else (s, t, ok persisting))
      else recover_from max_retries t s e (classify_llm_error e (calls.has_timed_out e))

  -- The processors. A phase without one ends the turn.
  unfoldable pub process : ℕ → Phase → TurnState → S → Processed S
  process max_retries guard t s = guard_live t s (calls.ctx_err s)
  process max_retries refining t s = refined t (calls.prepare t.recovery_from_overflow s)
  process max_retries inference t s = inferred t (calls.generate s)
  process max_retries executing t s =
      if t.has_tool_calls then executed t (calls.execute t.response s) else (s, t, ok persisting)
  process max_retries persisting t s = persist t s t.response
  process max_retries recovering t s = recovered max_retries t s t.last_error
  process max_retries complete t s = (s, t, err (wraps (logic_violation ∷ [])))
