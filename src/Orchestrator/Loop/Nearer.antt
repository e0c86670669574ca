-- ===== src/Orchestrator/Loop/Nearer.antt =====
-- What a processor makes of a turn is nearer to the end of the turn.
use tell_me_go.Base.{
  ℕ, ◌+◌, ◌-◌, ◌*◌, ◌≤◌, ◌<◌, Bool, true, false, ◌≡◌, refl, inl, inr, [], ◌∷◌, Option, none, some,
  ltb, Bool-cases, arith, if◌then◌else◌,
}
use tell_me_go.Errors.{
  Error, wraps, nil_dereference, Result, ok, err, is, terminal, transient, empty_response,
  bus_not_initialized, logic_violation, max_turns_reached,
}
use tell_me_go.Llm.{Content}
use tell_me_go.Context.Manager.{categorized}
use tell_me_go.History.Turns.{has_function_call}
use tell_me_go.Orchestrator.Steps.{
  Phase, guard, refining, inference, executing, persisting, recovering, complete, TurnState, Calls,
  Processed, guarded, guard_live, refined, are_all_empty, routed_by_content, updated, inferred,
  executed, persisted_tools, persist_tools, persisted_response, persist,
}
use tell_me_go.Orchestrator.Loop.{determine_next_phase, recorded}

-- How far a phase is from the end, where no retry follows; a recovery from an empty response may store it.
abbrev pub rank : Phase → Option Error → ℕ
rank guard last = 8
rank refining last = 7
rank inference last = 6
rank executing last = 5
rank recovering none = 2
rank recovering (some e) = if is e empty_response then 4 else 2
rank persisting last = 3
rank complete last = 0

-- Nine phases for each retry that is left.
abbrev pub distance : ℕ → ℕ → ℕ → ℕ
distance max_retries retries n = (max_retries + 3 - retries) * 9 + n

abbrev pub IsNearer : ℕ → ℕ → ℕ → ℕ → ℕ → Type 0
IsNearer m r n r' n' = (r' ≤ m + 3) × (distance m r' n' < distance m r n)

pub IsNearer-phase : (m r n n' : ℕ) → r ≤ m + 3 → n' < n → IsNearer m r n r n'
IsNearer-phase m r n n' h k = ground arith

pub IsNearer-retry : (m r n n' : ℕ) → r < m + 3 → 2 ≤ n → n' ≤ 7 → IsNearer m r n (r + 1) n'
IsNearer-retry m r n n' h two k = ground arith

pub IsNearer-first : (m r n : ℕ) → r ≡ 0 → 2 ≤ n → IsNearer m r n 1 7
IsNearer-first m r n h two = ground arith

pub rank_le : (p : Phase) (last : Option Error) → rank p last ≤ 8
rank_le guard last = omega arith
rank_le refining last = omega arith
rank_le inference last = omega arith
rank_le executing last = omega arith
rank_le persisting last = omega arith
rank_le recovering none = omega arith
rank_le recovering (some e) = ground arith
rank_le complete last = omega arith

pub rank_bound :
    (m : ℕ) (t : TurnState)
    → t.retry_count ≡ 0
    → distance m t.retry_count (rank t.phase t.last_error) < (m + 4) * 9
rank_bound m t fresh = omega (arith, rank_le t.phase t.last_error, fresh)

module _ {S : Type 0} (calls : Calls S) where
  -- What a processor makes of a turn is nearer to the end.
  abbrev pub Goes : ℕ → TurnState → Phase → ℕ → Processed S → Type 0
  Goes m t p n (s, t', r) =
      IsNearer m t.retry_count n t'.retry_count
        (rank (determine_next_phase p r) (recorded r t'.last_error))

  -- The errors of the history are none of an empty response.
  abbrev pub IsPlain : Type 0
  IsPlain =
      (c : Content)
      → (s : S) → (e : Error) → (calls.add_content c s).1 ≡ some e
      → is e empty_response ≡ false

  error_rank : (e : Error) → rank recovering (some e) ≤ 4
  error_rank e = ground arith

  categorized-plain :
      (e : Error) → is e empty_response ≡ false → is (categorized e) empty_response ≡ false
  categorized-plain nil_dereference h = refl
  categorized-plain (wraps chain) h = elim (Bool-cases (is (wraps chain) transient)) [
    | inl y ↦ ground arith
    | inr n ↦ ground arith
  ]

  failed_phase :
      (m r n : ℕ) (e : Error) → r ≤ m + 3 → 4 < n → IsNearer m r n r (rank recovering (some e))
  failed_phase m r n e h k = IsNearer-phase m r n _ h (omega (arith, error_rank e))

  failed_persisting :
      (m r : ℕ) (e : Error)
      → r ≤ m + 3
      → is e empty_response ≡ false
      → IsNearer m r 3 r (rank recovering (some e))
  failed_persisting m r e h plain = IsNearer-phase m r 3 _ h (rw plain (omega arith))

  guarded-Goes :
      (m : ℕ) (t : TurnState) (r : S × Option Error)
      → t.retry_count ≤ m + 3
      → Goes m t guard 8 (guarded calls t r)
  unfolding guarded
  guarded-Goes m t (s, none) h = IsNearer-phase m t.retry_count 8 7 h (omega arith)
  guarded-Goes m t (s, some e) h = elim (Bool-cases (is e bus_not_initialized)) [
    | inl y ↦ rw y (IsNearer-phase m t.retry_count 8 7 h (omega arith))
    | inr n ↦ rw n (failed_phase m t.retry_count 8 e h (omega arith))
  ]

  pub guard-Goes :
      (m : ℕ) (t : TurnState) (s : S) (o : Option Error)
      → t.retry_count ≤ m + 3
      → Goes m t guard 8 (guard_live calls t s o)
  unfolding guard_live
  guard-Goes m t s (some e) h = failed_phase m t.retry_count 8 e h (omega arith)
  guard-Goes m t s none h = elim (Bool-cases (ltb (calls.max_tool_turns s) t.index)) [
    | inl y ↦
        rw y (
          failed_phase m t.retry_count 8 (wraps (terminal ∷ max_turns_reached ∷ [])) h
            (omega arith))
    | inr n ↦ rw n (guarded-Goes m t (calls.publish_turn_started s) h)
  ]

  pub refined-Goes :
      (m : ℕ) (t : TurnState) (r : S × Option Error)
      → t.retry_count ≤ m + 3
      → Goes m t refining 7 (refined calls t r)
  unfolding refined
  refined-Goes m t (s, none) h = IsNearer-phase m t.retry_count 7 6 h (omega arith)
  refined-Goes m t (s, some e) h = failed_phase m t.retry_count 7 (categorized e) h (omega arith)

  routed-Goes :
      (m : ℕ) (t : TurnState) (s : S) (r : Result Bool)
      → t.retry_count ≤ m + 3
      → Goes m t inference 6 (routed_by_content calls s t r)
  unfolding routed_by_content
  routed-Goes m t s (err e) h = failed_phase m t.retry_count 6 e h (omega arith)
  routed-Goes m t s (ok true) h =
      failed_phase m t.retry_count 6 (categorized (wraps (transient ∷ empty_response ∷ []))) h
        (omega arith)
  routed-Goes m t s (ok false) h = elim (Bool-cases t.has_tool_calls) [
    | inl y ↦ rw y (IsNearer-phase m t.retry_count 6 5 h (omega arith))
    | inr n ↦ rw n (IsNearer-phase m t.retry_count 6 3 h (omega arith))
  ]

  updated-Goes :
      (m : ℕ) (t : TurnState) (s : S) (c : Content) (r : Result Bool)
      → t.retry_count ≤ m + 3
      → Goes m t inference 6 (updated calls s t c r)
  unfolding updated
  updated-Goes m t s c (err e) h = failed_phase m t.retry_count 6 e h (omega arith)
  updated-Goes m t s c (ok has_calls) h =
      routed-Goes m (record t { response = some c; has_tool_calls = has_calls }) s
        (are_all_empty c.parts) h

  pub inferred-Goes :
      (m : ℕ) (t : TurnState) (r : S × Result (Option Content))
      → t.retry_count ≤ m + 3
      → Goes m t inference 6 (inferred calls t r)
  unfolding inferred
  inferred-Goes m t (s, err e) h = failed_phase m t.retry_count 6 (categorized e) h (omega arith)
  inferred-Goes m t (s, ok none) h =
      failed_phase m t.retry_count 6 (categorized (wraps (logic_violation ∷ []))) h (omega arith)
  inferred-Goes m t (s, ok (some c)) h = updated-Goes m t s c (has_function_call c.parts) h

  pub executed-Goes :
      (m : ℕ) (t : TurnState) (r : S × Option Content × Option Error)
      → t.retry_count ≤ m + 3
      → Goes m t executing 5 (executed calls t r)
  unfolding executed
  executed-Goes m t (s, none, some e) h =
      failed_phase m t.retry_count 5 (categorized e) h (omega arith)
  executed-Goes m t (s, some c, some e) h =
      failed_phase m t.retry_count 5 (categorized e) h (omega arith)
  executed-Goes m t (s, none, none) h = IsNearer-phase m t.retry_count 5 3 h (omega arith)
  executed-Goes m t (s, some c, none) h = IsNearer-phase m t.retry_count 5 3 h (omega arith)

  persisted_tools-Goes :
      (m : ℕ) (t : TurnState) (r : S × Option Error)
      → t.retry_count ≤ m + 3
      → ((e : Error) → r.1 ≡ some e → is e empty_response ≡ false)
      → Goes m t persisting 3 (persisted_tools calls t r)
  unfolding persisted_tools
  persisted_tools-Goes m t (s, some e) h plain =
      failed_persisting m t.retry_count (categorized e) h (categorized-plain e (plain e refl))
  persisted_tools-Goes m t (s, none) h plain = IsNearer-phase m t.retry_count 3 0 h (omega arith)

  persist_tools-Goes :
      (m : ℕ) (t : TurnState) (s : S) (c : Option Content)
      → t.retry_count ≤ m + 3
      → IsPlain
      → Goes m t persisting 3 (persist_tools calls t s c)
  unfolding persist_tools
  persist_tools-Goes m t s none h plain = IsNearer-phase m t.retry_count 3 0 h (omega arith)
  persist_tools-Goes m t s (some c) h plain =
      persisted_tools-Goes m t (calls.add_content c s) h (plain c s)

  persisted_response-Goes :
      (m : ℕ) (t : TurnState) (r : S × Option Error)
      → t.retry_count ≤ m + 3
      → IsPlain
      → ((e : Error) → r.1 ≡ some e → is e empty_response ≡ false)
      → Goes m t persisting 3 (persisted_response calls t r)
  unfolding persisted_response
  persisted_response-Goes m t (s, some e) h all plain =
      failed_persisting m t.retry_count (categorized e) h (categorized-plain e (plain e refl))
  persisted_response-Goes m t (s, none) h all plain =
      persist_tools-Goes m (record t { response = none }) s t.tool_response h all

  pub persist-Goes :
      (m : ℕ) (t : TurnState) (s : S) (c : Option Content)
      → t.retry_count ≤ m + 3
      → IsPlain
      → Goes m t persisting 3 (persist calls t s c)
  unfolding persist
  persist-Goes m t s none h plain = persist_tools-Goes m t s t.tool_response h plain
  persist-Goes m t s (some c) h plain =
      persisted_response-Goes m t (calls.add_content c s) h plain (plain c s)
