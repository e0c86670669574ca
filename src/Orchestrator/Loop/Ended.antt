-- ===== src/Orchestrator/Loop/Ended.antt =====
-- The loop over the phases of a turn ends.
use tell_me_go.Base.{
  ℕ, zero, suc, ◌+◌, ◌*◌, ◌≤◌, ◌<◌, Bool, true, false, ◌≡◌, refl, inl, inr, Option, none, some, ltb,
  ◌==◌, ltb→lt, ==_iff, Bool-cases, arith, if◌then◌else◌,
}
use tell_me_go.Errors.{Error, ok, err, is, empty_response}
use tell_me_go.Providers.Classify.{
  LlmError, rate_limited, context_overflow, auth_failure, server_error, timeout, classify_llm_error,
}
use tell_me_go.Orchestrator.Retry.{should_retry}
use tell_me_go.Orchestrator.Steps.{
  Phase, guard, refining, inference, executing, persisting, recovering, complete, TurnState, Calls,
  Processed, waited, retry_or_fail, recover_from, recovered, process, max_empty_response_retries,
}
use tell_me_go.Orchestrator.Loop.{
  execute_phase, looped, unless_complete, run_phase_loop, is_complete, LoopEnd,
}
use tell_me_go.Orchestrator.Loop.Nearer.{
  rank, distance, IsNearer-phase, IsNearer-retry, IsNearer-first, rank_bound, Goes, IsPlain,
  guard-Goes, refined-Goes, inferred-Goes, executed-Goes, persist-Goes,
}

module _ {S : Type 0} (calls : Calls S) where
  waited-Goes :
      (m : ℕ) (t : TurnState) (n : ℕ) (r : S × Option Error)
      → t.retry_count < m + 3
      → 2 ≤ n
      → Goes calls m t recovering n (waited calls (record t { retry_count = t.retry_count + 1 }) r)
  unfolding waited
  waited-Goes m t n (s, some e) h two = IsNearer-retry m t.retry_count n 0 h two (omega arith)
  waited-Goes m t n (s, none) h two = IsNearer-retry m t.retry_count n 7 h two (omega arith)

  should_retry-below :
      (m : ℕ) (e : Error) (attempt : ℕ) → should_retry m e attempt ≡ true → attempt < m
  unfolding should_retry
  should_retry-below m e attempt h = ground arith

  retry-Goes :
      (m : ℕ) (t : TurnState) (n : ℕ) (s : S) (e : Error)
      → t.retry_count ≤ m + 3
      → 2 ≤ n
      → Goes calls m t recovering n (retry_or_fail calls m t s e)
  unfolding retry_or_fail
  retry-Goes m t n s e h two = elim (Bool-cases (should_retry m e t.retry_count)) [
    | inl y ↦
        let below = should_retry-below m e t.retry_count y in
        rw y (waited-Goes m t n (calls.wait s) (omega arith) two)
    | inr n' ↦ rw n' (IsNearer-phase m t.retry_count n 0 h (omega arith))
  ]

  recover-Goes :
      (m : ℕ) (t : TurnState) (n : ℕ) (s : S) (e : Error) (class : LlmError)
      → t.retry_count ≤ m + 3
      → 2 ≤ n
      → Goes calls m t recovering n (recover_from calls m t s e class)
  unfolding recover_from
  recover-Goes m t n s e rate_limited h two =
      retry-Goes m (record t { seen_rate_limit = true }) n s e h two
  recover-Goes m t n s e auth_failure h two = IsNearer-phase m t.retry_count n 0 h (omega arith)
  recover-Goes m t n s e context_overflow h two = elim (Bool-cases (t.retry_count == 0)) [
    | inl y ↦ rw y (IsNearer-first m t.retry_count n ((==_iff t.retry_count 0).0 y) two)
    | inr n' ↦ rw n' (retry-Goes m t n s e h two)
  ]
  recover-Goes m t n s e timeout h two = retry-Goes m t n s e h two
  recover-Goes m t n s e server_error h two = retry-Goes m t n s e h two

  recovered-Goes :
      (m : ℕ) (t : TurnState) (s : S) (o : Option Error)
      → t.retry_count ≤ m + 3
      → Goes calls m t recovering (rank recovering o) (recovered calls m t s o)
  unfolding recovered
  recovered-Goes m t s none h = IsNearer-phase m t.retry_count 2 0 h (omega arith)
  recovered-Goes m t s (some e) h = elim (Bool-cases (is e empty_response)) [
    | inl y ↦ elim (Bool-cases (ltb t.retry_count max_empty_response_retries)) [
      | inl few ↦
          let below = ltb→lt t.retry_count 3 few in
          rw (y, few) (waited-Goes m t 4 (calls.wait s) (omega arith) (omega arith))
      | inr enough ↦ rw (y, enough) (IsNearer-phase m t.retry_count 4 3 h (omega arith))
    ]
    | inr n ↦
        rw n (recover-Goes m t 2 s e (classify_llm_error e (calls.has_timed_out e)) h (omega arith))
  ]

  if-Goes :
      (m : ℕ) (t : TurnState) (p : Phase) (n : ℕ) (b : Bool) (x y : Processed S)
      → Goes calls m t p n x
      → Goes calls m t p n y
      → Goes calls m t p n (if b then x else y)
  if-Goes m t p n true x y h k = h
  if-Goes m t p n false x y h k = k

  process-Goes :
      (m : ℕ) (p : Phase) (t : TurnState) (s : S)
      → IsPlain calls
      → t.retry_count ≤ m + 3
      → is_complete p ≡ false
      → Goes calls m t p (rank p t.last_error) (process calls m p t s)
  unfolding process
  process-Goes m guard t s plain h k = guard-Goes calls m t s (calls.ctx_err s) h
  process-Goes m refining t s plain h k =
      refined-Goes calls m t (calls.prepare t.recovery_from_overflow s) h
  process-Goes m inference t s plain h k = inferred-Goes calls m t (calls.generate s) h
  process-Goes m executing t s plain h k =
      if-Goes m t executing 5 t.has_tool_calls _ (s, t, ok persisting)
        (executed-Goes calls m t (calls.execute t.response s) h)
        (IsNearer-phase m t.retry_count 5 3 h (omega arith))
  process-Goes m persisting t s plain h k = persist-Goes calls m t s t.response h plain
  process-Goes m recovering t s plain h k = recovered-Goes m t s t.last_error h
  process-Goes m complete t s plain h k = cc k

  looped-some :
      (next : TurnState → S → LoopEnd calls) (b : Bool) (out : Processed S)
      → ((end : (S × TurnState) × Option Error) × (next out.1 out.0 ≡ some end))
      → (end : (S × TurnState) × Option Error) × (looped calls next b out ≡ some end)
  unfolding looped
  looped-some next true (s, t, err e) h = (_, refl)
  looped-some next true (s, t, ok p) h = h
  looped-some next false (s, t, r) h = h

  unless_complete-some :
      (b : Bool) (t : TurnState) (s : S) (more : Unit {0} → LoopEnd calls)
      → (b ≡ false → (end : (S × TurnState) × Option Error) × (more tt ≡ some end))
      → (end : (S × TurnState) × Option Error) × (unless_complete calls b t s more ≡ some end)
  unfolding unless_complete
  unless_complete-some true t s more h = (_, refl)
  unless_complete-some false t s more h = h refl

  run-some :
      (fuel m : ℕ) (t : TurnState) (s : S)
      → IsPlain calls
      → t.retry_count ≤ m + 3
      → distance m t.retry_count (rank t.phase t.last_error) < fuel
      → (end : (S × TurnState) × Option Error) × (run_phase_loop calls fuel m t s ≡ some end)
  unfolding run_phase_loop execute_phase
  run-some zero m t s plain h k = absurd (ground arith)
  run-some (suc fuel) m t s plain h k =
      unless_complete-some (is_complete t.phase) t s _ (λ open_phase.
        let (below, nearer) = process-Goes m t.phase t s plain h open_phase in
        looped-some _ _ (execute_phase calls m t s) (
          run-some fuel m (execute_phase calls m t s).1 (execute_phase calls m t s).0 plain below
            (omega arith)))

  -- A turn ends: whatever the calls outside answer, a turn that has not been retried yet goes through at
  -- most nine phases for each retry that the policy and an empty response allow, and nine more, where no
  -- error of storing is that of an empty response.
  pub run_phase_loop_total :
      (m : ℕ) (t : TurnState) (s : S)
      → IsPlain calls
      → t.retry_count ≡ 0
      → (end : (S × TurnState) × Option Error) × (run_phase_loop calls ((m + 4) * 9) m t s
          ≡ some end)
  run_phase_loop_total m t s plain fresh =
      run-some ((m + 4) * 9) m t s plain (omega arith) (rank_bound m t fresh)
