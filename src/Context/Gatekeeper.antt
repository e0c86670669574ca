-- ===== src/Context/Gatekeeper.antt =====
-- internal/agent/session/context/gatekeeper.go: `hardLimitPolicy` and `TokenGatekeeper`. `int(float64(n)
-- * 0.9)` and `* 0.1` are written as whole-number divisions, which they equal below 2^50; a limit
-- that is negative behaves as 0. Token estimator, summarizer and bus are arguments. Events whose
-- failure is only logged, and the log, are left out.
pub mod Limits
use tell_me_go.Base.{
  ℕ, ◌+◌, ◌-◌, ◌*◌, ◌/◌, Bool, true, false, not, ◌&&◌, ◌||◌, Bytes, List, [], ◌∷◌, Option, none,
  some, Slice, items, length, take, drop, ltb, leb, ◌==◌, if◌then◌else◌,
}
use tell_me_go.Errors.{
  Error, wraps, Result, ok, err, is, fails, fails_plain, invalid_payload, terminal,
  context_limit_exceeded, nil_dereference, Ctx, ◌>>=◌, ◌>>◌,
}
use tell_me_go.Context.{Message, Request}
use tell_me_go.Context.Turns.{group_turns}
use tell_me_go.Context.Events.{Bus, summarization_required, publish_or_fail}
use tell_me_go.Context.Summary.{Selector, Range, find_summarizable_range, apply_summary}

-- `config.SystemContextBuffer`.
abbrev pub system_context_buffer : ℕ
system_context_buffer = 1000

-- `hardLimitPolicy.effectiveLimit`.
unfoldable pub effective_limit : ℕ → ℕ → Bool → ℕ
effective_limit max_tokens buffer recovery =
    let capped = if ltb (max_tokens / 10) buffer then max_tokens / 10 else buffer in
    let reserved = if recovery then capped * 2 else capped in
    if max_tokens == 0 then 0 else max_tokens - reserved

-- `TokenGatekeeper`, with the IDs that a summary will get.
pub record Gatekeeper : Type 0 where
  pub max_tokens : ℕ
  pub estimate : List Message → ℕ
  pub summarizer : Option (List Message → Result Bytes)
  pub bus : Bus
  pub selector : Selector
  pub id1 : Bytes
  pub id2 : Bytes

abbrev pub blocked : Request → Request
blocked req = record req { metadata = record req.metadata { maintenance_blocked = true } }

abbrev pub summarized : Request → List Message → Request
summarized req history = record req {
  history = some history;
  metadata = record req.metadata { summarization_attempted = true };
  persist_history = true;
}

-- The change of state, on the history that the summary was put into.
unfoldable pub after_apply : Request → Range → Result (List Message) → Request × Result ℕ
after_apply req r (err e) = (req, err e)
after_apply req r (ok history) = (summarized req history, ok r.num_turns)

-- On the service's answer.
unfoldable pub after_service : Gatekeeper → Request → Range → Result Bytes → Request × Result ℕ
after_service g req r (err e) = (req, err e)
after_service g req r (ok summary) =
    after_apply req r (apply_summary g.id1 g.id2 (items req.history) r.start r.stop summary)

abbrev pub slice : List Message → Range → List Message
slice history r = take (r.stop - r.start) (drop r.start history)

-- The service call.
unfoldable pub summarize_range :
    Gatekeeper → Request → Range → Option (List Message → Result Bytes) → Request × Result ℕ
summarize_range g req r none = (blocked req, fails terminal)
summarize_range g req r (some summarize) =
    after_service g req r (summarize (slice (items req.history) r))

unfoldable pub with_range : Gatekeeper → Request → Result Range → Request × Result ℕ
with_range g req (err e) = (blocked req, err e)
with_range g req (ok r) = summarize_range g req r g.summarizer

-- `autoSummarize`: the request, which an error changes too, and the number of turns.
unfoldable pub auto_summarize : Ctx → Gatekeeper → Request → Request × Result ℕ
auto_summarize ctx g req =
    if ltb (length (items req.history)) 10
    then (blocked req, fails_plain)
    else with_range g req (find_summarizable_range ctx g.selector req.history)

-- `isBlockingError`; a panic is not an error that anything here recovers from.
abbrev pub is_blocking : Error → Bool
is_blocking nil_dereference = true
is_blocking (wraps chain) = is (wraps chain) invalid_payload || is (wraps chain) terminal

-- What `triggerSummarization` makes of the attempt: the request and the token count.
unfoldable pub after_attempt : Gatekeeper → ℕ → Request × Result ℕ → Result (Request × ℕ)
after_attempt g tokens (req, err e) =
    if is_blocking e
    then err e
    else if req.metadata.maintenance_blocked || ltb (length (items req.history)) 10
    then ok (req, tokens)
    else err e
after_attempt g tokens (req, ok n) = ok (
  record req {
    metadata = record req.metadata { summarized_turns = n; summarization_attempted = true };
    persist_history = true;
  },
  g.estimate (items req.history),
)

unfoldable pub trigger_summarization : Ctx → Gatekeeper → Request → ℕ → Result (Request × ℕ)
trigger_summarization ctx g req tokens = do
  publish_or_fail g.bus summarization_required
  if req.metadata.summarization_attempted
      then ok (req, tokens)
      else after_attempt g tokens (auto_summarize ctx g req)

-- `handleSafetyPressure`.
unfoldable pub handle_safety_pressure : Ctx → Gatekeeper → Request → ℕ → Result (Request × ℕ)
handle_safety_pressure ctx g req tokens =
    if (ltb 0 g.max_tokens && ltb (g.max_tokens * 9 / 10) tokens) || req.recovery_from_overflow
    then trigger_summarization ctx g req tokens
    else ok (req, tokens)

-- `validateHardLimits`.
unfoldable pub validate_hard_limits : Gatekeeper → Request → ℕ → Result (Unit {0})
validate_hard_limits g req tokens =
    let limit = effective_limit g.max_tokens system_context_buffer req.recovery_from_overflow in
    if limit == 0 then ok tt else if ltb limit tokens then fails context_limit_exceeded else ok tt

-- `TokenGatekeeper.Transform`.
unfoldable pub gatekeep : Ctx → Gatekeeper → Request → Result Request
gatekeep ctx g req = do
  turns ← group_turns ctx req.history
  let tokens = g.estimate (items req.history)
  let counted = record req { metadata = record req.metadata { original_token_count = tokens } }
  (managed, tokens') ← handle_safety_pressure ctx g counted tokens
  validate_hard_limits g managed tokens'
  ok (record managed { metadata = record managed.metadata { final_token_count = tokens' } })
