-- ===== src/Context/Gatekeeper/Limits.antt =====
-- The token budget, and what the gatekeeper lets through.
use tell_me_go.Base.{
  ℕ, ◌*◌, ◌/◌, ◌≤◌, ◌<◌, Bool, true, false, ◌&&◌, ◌||◌, Bytes, ◌≡◌, refl, sym, ap, ◌∙◌, subst, List,
  Option, none, some, items, length, ltb, arith, Bool-cases, inl, inr, if◌then◌else◌,
}
use tell_me_go.Errors.{Error, Result, ok, err, Ctx, >>=-eq-ok, ok-injective}
use tell_me_go.Context.{Message, Request}
use tell_me_go.Context.Turns.{group_turns}
use tell_me_go.Context.Events.{publish_or_fail, summarization_required}
use tell_me_go.Context.Summary.{Range}
use tell_me_go.Context.Gatekeeper.{
  effective_limit, Gatekeeper, system_context_buffer, after_apply, after_service, with_range,
  summarize_range, auto_summarize, after_attempt, trigger_summarization, handle_safety_pressure,
  validate_hard_limits, gatekeep,
}

-- The usable budget is the limit less a reserve of at most a tenth, in a recovery at most a fifth; for
-- limits of at least 10 and a positive buffer, a recovery leaves strictly less than an ordinary request.
effective_limit_bounds :
    (max_tokens buffer : ℕ)
    → 10 ≤ max_tokens
    → 0 < buffer
    → (max_tokens * 9 ≤ effective_limit max_tokens buffer false * 10)
      × (max_tokens * 8 ≤ effective_limit max_tokens buffer true * 10)
      × (effective_limit max_tokens buffer false ≤ max_tokens)
      × (effective_limit max_tokens buffer true < effective_limit max_tokens buffer false)
unfolding effective_limit
effective_limit_bounds max_tokens buffer large positive =
    (ground arith, ground arith, ground arith, ground arith)

-- What an attempt to summarize leaves: the request's recovery mark, and, where it fails, the history.
record Attempted (req : Request) (out : Request × Result ℕ) : Type 0 where
  recovery : out.0.recovery_from_overflow ≡ req.recovery_from_overflow
  history : (e : Error) → out.1 ≡ err e → out.0.history ≡ req.history

module _ (g : Gatekeeper) (req : Request) where
  after_apply-Attempted :
      (r : Range) (m : Result (List Message)) → Attempted req (after_apply req r m)
  unfolding after_apply
  after_apply-Attempted r (err e) = record { recovery = refl; history = λ e' h. refl }
  after_apply-Attempted r (ok history) = record { recovery = refl; history = λ e' h. cc h }

  after_service-Attempted : (r : Range) (m : Result Bytes) → Attempted req (after_service g req r m)
  unfolding after_service
  after_service-Attempted r (err e) = record { recovery = refl; history = λ e' h. refl }
  after_service-Attempted r (ok summary) = after_apply-Attempted r _

  with_range-Attempted : (m : Result Range) → Attempted req (with_range g req m)
  unfolding with_range
  with_range-Attempted (err e) = record { recovery = refl; history = λ e' h. refl }
  with_range-Attempted (ok r) = serve g.summarizer
    where
      serve : (s : Option (List Message → Result Bytes)) → Attempted req (summarize_range g req r s)
      serve none = unfold summarize_range in record { recovery = refl; history = λ e' h. refl }
      serve (some f) = unfold summarize_range in after_service-Attempted r _

  auto_summarize-Attempted : (ctx : Ctx) → Attempted req (auto_summarize ctx g req)
  unfolding auto_summarize
  auto_summarize-Attempted ctx = elim (Bool-cases (ltb (length (items req.history)) 10)) [
    | inl few ↦ rw few (record { recovery = refl; history = λ e' h. refl })
    | inr many ↦ rw many (with_range-Attempted _)
  ]

-- The token count that is passed on is the estimate of the history that is passed on.
record Managed (g : Gatekeeper) (req : Request) (out : Request × ℕ) : Type 0 where
  recovery : out.0.recovery_from_overflow ≡ req.recovery_from_overflow
  counted : out.1 ≡ g.estimate (items out.0.history)

module _ (ctx : Ctx) (g : Gatekeeper) (req : Request) (tokens : ℕ)
    (known : tokens ≡ g.estimate (items req.history)) where
  after_attempt-Managed :
      (r : Request) (n : Result ℕ) {out : Request × ℕ}
      → Attempted req (r, n)
      → after_attempt g tokens (r, n) ≡ ok out
      → Managed g req out
  unfolding after_attempt
  after_attempt-Managed r (ok n) a h =
      subst (Managed g req) (ok-injective h) (record { recovery = a.recovery; counted = refl })
  after_attempt-Managed r (err e) {out} a h =
      let kept : Managed g req (r, tokens) = record {
        recovery = a.recovery;
        counted = known ∙ ap (λ s. g.estimate (items s)) (sym (a.history e refl));
      } in
      let same : ◌≡◌ {A = Request × ℕ} (r, tokens) out = ground (arith, h) in
      subst (Managed g req) same kept

  unchanged-Managed : Managed g req (req, tokens)
  unchanged-Managed = record { recovery = refl; counted = known }

  tried-Managed :
      (b : Bool) {out : Request × ℕ}
      → (if b then ok (req, tokens) else after_attempt g tokens (auto_summarize ctx g req)) ≡ ok out
      → Managed g req out
  tried-Managed true h = subst (Managed g req) (ok-injective h) unchanged-Managed
  tried-Managed false h =
      after_attempt-Managed (auto_summarize ctx g req).0 (auto_summarize ctx g req).1
        (auto_summarize-Attempted g req ctx) h

  trigger-Managed :
      {out : Request × ℕ} → trigger_summarization ctx g req tokens ≡ ok out → Managed g req out
  unfolding trigger_summarization
  trigger-Managed h =
      let (u, e, f) = >>=-eq-ok (publish_or_fail g.bus summarization_required) _ h in
      tried-Managed req.metadata.summarization_attempted f

  handle-Managed :
      {out : Request × ℕ} → handle_safety_pressure ctx g req tokens ≡ ok out → Managed g req out
  unfolding handle_safety_pressure
  handle-Managed h =
      elim (Bool-cases (
        (ltb 0 g.max_tokens && ltb (g.max_tokens * 9 / 10) tokens) || req.recovery_from_overflow)) [
          | inl pressed ↦ trigger-Managed (rw pressed at h)
          | inr calm ↦ subst (Managed g req) (ok-injective (rw calm at h)) unchanged-Managed
        ]

effective_limit_pos :
    (max_tokens buffer : ℕ) (recovery : Bool)
    → 0 < max_tokens
    → 0 < effective_limit max_tokens buffer recovery
unfolding effective_limit
effective_limit_pos max_tokens buffer true h = ground arith
effective_limit_pos max_tokens buffer false h = ground arith

validate_hard_limits-le :
    (g : Gatekeeper) (req : Request) (tokens : ℕ) {u : Unit {0}}
    → validate_hard_limits g req tokens ≡ ok u
    → 0 < g.max_tokens
    → tokens ≤ effective_limit g.max_tokens system_context_buffer req.recovery_from_overflow
unfolding validate_hard_limits
validate_hard_limits-le g req tokens h pos =
    ground
      (arith, h, effective_limit_pos g.max_tokens system_context_buffer req.recovery_from_overflow)

gatekeep-passed :
    (ctx : Ctx) (g : Gatekeeper) (req : Request) {out : Request}
    → gatekeep ctx g req ≡ ok out
    → (out.metadata.final_token_count ≡ g.estimate (items out.history))
      × (0 < g.max_tokens
          → out.metadata.final_token_count
            ≤ effective_limit g.max_tokens system_context_buffer req.recovery_from_overflow)
unfolding gatekeep
gatekeep-passed ctx g req {out} h =
    let (turns, e, f) = >>=-eq-ok (group_turns ctx req.history) _ h in
    let (m, k, l) =
      >>=-eq-ok (handle_safety_pressure ctx g _ (g.estimate (items req.history))) _ f in
    let s = handle-Managed ctx g _ (g.estimate (items req.history)) refl k in
    let (u, v, w) = >>=-eq-ok (validate_hard_limits g m.0 m.1) _ l in
    let same : record m.0 { metadata = record m.0.metadata { final_token_count = m.1 } } ≡ out =
      ok-injective w in
    subst
      (λ o.
        (o.metadata.final_token_count ≡ g.estimate (items o.history))
        × (0 < g.max_tokens
            → o.metadata.final_token_count
              ≤ effective_limit g.max_tokens system_context_buffer req.recovery_from_overflow))
      same
      (
        s.counted,
        λ pos.
            subst (λ b. m.1 ≤ effective_limit g.max_tokens system_context_buffer b) s.recovery
              (validate_hard_limits-le g m.0 m.1 v pos),
      )

-- Where the gatekeeper with a positive limit lets a request pass, the final token count is the estimate
-- of the history that goes on, and it is within the usable budget (that of a recovery, where the
-- request is one).
pub gatekeep-within_limit :
    (ctx : Ctx) (g : Gatekeeper) (req : Request) {out : Request}
    → 0 < g.max_tokens
    → gatekeep ctx g req ≡ ok out
    → (out.metadata.final_token_count ≡ g.estimate (items out.history))
      × (out.metadata.final_token_count
          ≤ effective_limit g.max_tokens system_context_buffer req.recovery_from_overflow)
gatekeep-within_limit ctx g req pos h =
    let (counted, within) = gatekeep-passed ctx g req h in (counted, within pos)
