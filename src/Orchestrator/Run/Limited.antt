-- ===== src/Orchestrator/Run/Limited.antt =====
-- The run over the turns ends at the limit of turns.
use tell_me_go.Base.{
  ℕ, zero, suc, ◌+◌, ◌*◌, ◌≤◌, ◌<◌, Bool, true, false, ◌≡◌, refl, inl, inr, [], ◌∷◌, Option, none,
  some, ltb, lt→ltb, Bool-cases, arith,
}
use tell_me_go.Errors.{Error, wraps, err, terminal, max_turns_reached, canceled, deadline_exceeded}
use tell_me_go.Providers.Classify.{classify_llm_error}
use tell_me_go.Orchestrator.Retry.{should_retry}
use tell_me_go.Orchestrator.Steps.{
  recovering, complete, TurnState, Calls, guard_live, retry_or_fail, recover_from, recovered,
  process,
}
use tell_me_go.Orchestrator.Loop.{
  execute_phase, looped, unless_complete, run_phase_loop, emergency_save,
}
use tell_me_go.Orchestrator.Loop.Nearer.{IsPlain}
use tell_me_go.Orchestrator.Loop.Ended.{run_phase_loop_total}
use tell_me_go.Orchestrator.Run.{create_turn, phase_fuel, RunEnd, unless_stopped, continued, run}

-- What a context answers (it was canceled, or its deadline passed), and what a turn past the limit fails with.
pub data Stops : Error → Type 0 where
  was_canceled : Stops (wraps (canceled ∷ []))
  timed_out : Stops (wraps (deadline_exceeded ∷ []))
  past_limit : Stops (wraps (terminal ∷ max_turns_reached ∷ []))

module _ {S : Type 0} (calls : Calls S) where
  -- A context answers one of these errors only.
  abbrev pub HasContext : Type 0
  HasContext = (s : S) → (e : Error) → calls.ctx_err s ≡ some e → Stops e

  abbrev pub HasTurnLimit : ℕ → Type 0
  HasTurnLimit limit = (s : S) → calls.max_tool_turns s ≤ limit

  not_retried : (m : ℕ) (e : Error) (n : ℕ) → Stops e → should_retry m e n ≡ false
  unfolding should_retry
  not_retried m e n was_canceled = ground arith
  not_retried m e n timed_out = ground arith
  not_retried m e n past_limit = ground arith

  fuel_eq : (m : ℕ) → phase_fuel m ≡ suc (suc (m * 9 + 34))
  fuel_eq m = omega arith

  suc_eq : (n : ℕ) → n + 2 ≡ suc (n + 1)
  suc_eq n = omega arith

  recovered-Stops :
      (m : ℕ) (t : TurnState) (s : S) (e : Error)
      → Stops e
      → recovered calls m t s (some e) ≡ (s, t, err e)
  unfolding recovered recover_from retry_or_fail classify_llm_error
  recovered-Stops m t s e was_canceled = elim (Bool-cases (calls.has_timed_out e)) [
    | inl y ↦ rw y (rw (not_retried m e t.retry_count was_canceled) refl)
    | inr n ↦ rw n (rw (not_retried m e t.retry_count was_canceled) refl)
  ]
  recovered-Stops m t s e timed_out = rw (not_retried m e t.retry_count timed_out) refl
  recovered-Stops m t s e past_limit = elim (Bool-cases (calls.has_timed_out e)) [
    | inl y ↦ rw y (rw (not_retried m e t.retry_count past_limit) refl)
    | inr n ↦ rw n (rw (not_retried m e t.retry_count past_limit) refl)
  ]

  -- Past the limit the guard fails.
  guard_live-Stops :
      (t : TurnState) (s : S) (ctx : Option Error)
      → ((e : Error) → ctx ≡ some e → Stops e)
      → ltb (calls.max_tool_turns s) t.index ≡ true
      → (e : Error) × Stops e × (guard_live calls t s ctx ≡ (s, t, err e))
  unfolding guard_live
  guard_live-Stops t s (some e) has_context h = (e, has_context e refl, refl)
  guard_live-Stops t s none has_context h = (_, past_limit, rw h refl)

  abbrev failed_guard : TurnState → Error → TurnState
  failed_guard t e = record t { last_error = some e; phase = recovering }

  -- A turn whose guard fails that way ends with the error.
  run_phase_loop-Stops :
      (k m i : ℕ) (seen : Bool) (s : S) (e : Error)
      → Stops e
      → guard_live calls (create_turn i seen) s (calls.ctx_err s) ≡ (s, create_turn i seen, err e)
      → (end : S × TurnState) × (run_phase_loop calls (suc (suc k)) m (create_turn i seen) s
          ≡ some (end, some e))
  unfolding run_phase_loop execute_phase process create_turn unless_complete looped
  run_phase_loop-Stops k m i seen s e stops h = (
    emergency_save calls
        (record (failed_guard (create_turn i seen) e) { last_error = some e; phase = complete }) s,
    rw h (rw (recovered-Stops m (failed_guard (create_turn i seen) e) s e stops) refl),
  )

  -- The turn past the limit ends the run, whatever the turns before it did.
  run-past_limit :
      (fuel m limit i : ℕ) (seen : Bool) (s : S)
      → HasContext
      → HasTurnLimit limit
      → limit < i
      → (end : S × Option Error) × (run calls (suc fuel) m i seen s ≡ some end)
  unfolding run continued create_turn
  run-past_limit fuel m limit i seen s has_context has_limit h =
      let past = lt→ltb (calls.max_tool_turns s) i (omega (arith, has_limit s, h)) in
      let (e, stops, failed) =
        guard_live-Stops (create_turn i seen) s (calls.ctx_err s) (has_context s) past in
      let (end, eq) = run_phase_loop-Stops (m * 9 + 34) m i seen s e stops failed in
      ((end.0, some e), rw (fuel_eq m) (rw eq refl))

  -- The turns that are left: the turn that is past the limit is the last one.
  abbrev HasFuel : ℕ → ℕ → ℕ → Type 0
  HasFuel limit i fuel = limit + 2 ≤ i + fuel

  unless_stopped-some :
      (next : Bool → S → RunEnd calls) (stop : Bool) (t : TurnState) (s : S)
      → ((seen : Bool) → (s' : S) → (end : S × Option Error) × (next seen s' ≡ some end))
      → (end : S × Option Error) × (unless_stopped calls next stop t s ≡ some end)
  unfolding unless_stopped
  unless_stopped-some next true t s more = (_, refl)
  unless_stopped-some next false t s more = more t.seen_rate_limit s

  continued-some :
      (next : Bool → S → RunEnd calls) (r : (S × TurnState) × Option Error)
      → ((seen : Bool) → (s' : S) → (end : S × Option Error) × (next seen s' ≡ some end))
      → (end : S × Option Error) × (continued calls next (some r) ≡ some end)
  unfolding continued
  continued-some next ((s, t), some e) more = (_, refl)
  continued-some next ((s, t), none) more = unless_stopped-some next _ t s more

  fresh-retries : (i : ℕ) (seen : Bool) → (create_turn i seen).retry_count ≡ 0
  unfolding create_turn
  fresh-retries i seen = refl

  run-some :
      (fuel m limit i : ℕ) (seen : Bool) (s : S)
      → IsPlain calls
      → HasContext
      → HasTurnLimit limit
      → HasFuel limit i (suc fuel)
      → (end : S × Option Error) × (run calls (suc fuel) m i seen s ≡ some end)
  unfolding run
  run-some zero m limit i seen s plain has_context has_limit h =
      run-past_limit 0 m limit i seen s has_context has_limit (omega (arith, h))
  run-some (suc fuel) m limit i seen s plain has_context has_limit h =
      let (end, eq) =
        run_phase_loop_total calls m (create_turn i seen) s plain (fresh-retries i seen) in
      rw eq (
        continued-some _ end (λ seen' s'.
          run-some fuel m limit (i + 1) seen' s' plain has_context has_limit (omega (arith, h))))

  -- A run ends, whatever the model and the tools answer: from its first turn on it takes at most two turns
  -- more than the greatest limit of turns that is in force at any time, where a context only answers that
  -- it was canceled or timed out, and no error of storing is that of an empty response.
  pub run_total :
      (m limit : ℕ) (s : S)
      → IsPlain calls
      → HasContext
      → HasTurnLimit limit
      → (end : S × Option Error) × (run calls (limit + 2) m 0 false s ≡ some end)
  run_total m limit s plain has_context has_limit =
      rw (suc_eq limit)
        (run-some (limit + 1) m limit 0 false s plain has_context has_limit (omega arith))
