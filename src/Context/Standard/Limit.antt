-- ===== src/Context/Standard/Limit.antt =====
-- What the standard pipeline lets through.
use tell_me_go.Base.{
  ◌≤◌, Bool, true, false, ◌≡◌, refl, sym, ap, subst, ◌∙◌, List, [], ◌∷◌, ◌++◌, All, All-append,
  items, ltb, length, ◌/◌, arith, Bool-cases, inl, inr, if◌then◌else◌,
}
use tell_me_go.Errors.{ok, fails, context_limit_exceeded, Ctx, poll, ◌>>=◌, >>=-eq-ok, ok-injective}
use tell_me_go.Context.{Request}
use tell_me_go.Context.Strategy.{Strategy}
use tell_me_go.Context.Warnings.{validate_final}
use tell_me_go.Context.Pipeline.{
  Transformer, insert_by_priority, insertion_sort, new_pipeline, execute, Persist,
  execute_with_persistence,
}
use tell_me_go.Context.Pipeline.Run.{execute-append, ordered-run}
use tell_me_go.Context.Pipeline.Order.{new_pipeline_lem, new_pipeline_short}
use tell_me_go.Context.Standard.{
  Limits, Factory, before_last, final_validator, cleaners, pruners, limiters,
  build_standard_pipeline,
}

-- A transformer that runs no later than the last of the standard ones.
pub IsTimely : Transformer → Type 0
IsTimely t = t.priority ≤ 110

insert_before :
    (t v : Transformer) (us : List Transformer)
    → t.priority ≤ v.priority
    → insert_by_priority t (us ++ v ∷ []) ≡ insert_by_priority t us ++ v ∷ []
unfolding insert_by_priority
insert_before t v [] h = ground (arith, h)
insert_before t v (u ∷ us) h = elim (Bool-cases (ltb u.priority t.priority)) [
  | inl e ↦ rw e (ap (◌∷◌ u) (insert_before t v us h))
  | inr e ↦ rw e refl
]

insertion_sort-last :
    (v : Transformer) (ts : List Transformer)
    → v.priority ≡ 110
    → All IsTimely ts
    → insertion_sort (ts ++ v ∷ []) ≡ insertion_sort ts ++ v ∷ []
unfolding insertion_sort insert_by_priority IsTimely
insertion_sort-last v [] e h = refl
insertion_sort-last v (t ∷ ts) e h =
    rw (insertion_sort-last v ts e h.1)
      (insert_before t v (insertion_sort ts) (ground (arith, e, h.0)))

cleaners-IsTimely : All IsTimely cleaners
unfolding IsTimely
cleaners-IsTimely = (omega arith, (omega arith, (omega arith, (omega arith, tt))))

pruners-IsTimely : (f : Factory) (limits : Limits) (b : Bool) → All IsTimely (pruners f limits b)
unfolding IsTimely
pruners-IsTimely f limits true = (omega arith, tt)
pruners-IsTimely f limits false = tt

limiters-IsTimely : (f : Factory) (limits : Limits) → All IsTimely (limiters f limits)
unfolding IsTimely
limiters-IsTimely f limits = (omega arith, (omega arith, (omega arith, (omega arith, tt))))

IsTimely-cons :
    (t : Transformer) (ts : List Transformer) → IsTimely t → All IsTimely ts → All IsTimely (t ∷ ts)
IsTimely-cons t ts h k = (h, k)

before_last-IsTimely :
    (f : Factory) (limits : Limits) (extras : List Transformer)
    → All IsTimely extras
    → All IsTimely (before_last f limits extras)
unfolding before_last
before_last-IsTimely f limits extras h =
    let pruning = pruners f limits (ltb 0 limits.max_history_turns) in
    IsTimely-cons _ _ (unfold IsTimely in omega arith) (
      All-append IsTimely extras (cleaners ++ pruning ++ limiters f limits) h (
        All-append IsTimely cleaners (pruning ++ limiters f limits) cleaners-IsTimely (
          All-append IsTimely pruning (limiters f limits)
            (pruners-IsTimely f limits (ltb 0 limits.max_history_turns))
            (limiters-IsTimely f limits))))

validated :
    (s : Strategy) (req : Request) (b : Bool) {out : Request}
    → ltb s.max_history_tokens (s.counter (items req.history)) ≡ b
    → (if b
        then fails context_limit_exceeded
        else ok (record req {
          metadata = record req.metadata {
            final_token_count = s.counter (items req.history);
            final_turn_count = length (items req.history) / 2;
          };
        }))
      ≡ ok out
    → (out.metadata.final_token_count ≡ s.counter (items out.history))
      × (s.counter (items out.history) ≤ s.max_history_tokens)
validated s req true e h = ground arith
validated s req false e h =
    subst
      (λ o.
        (o.metadata.final_token_count ≡ s.counter (items o.history))
        × (s.counter (items o.history) ≤ s.max_history_tokens))
      (ok-injective h) (refl, ground (arith, e))

validate_final-within :
    (s : Strategy) (req : Request) {out : Request}
    → validate_final s req ≡ ok out
    → (out.metadata.final_token_count ≡ s.counter (items out.history))
      × (s.counter (items out.history) ≤ s.max_history_tokens)
unfolding validate_final
validate_final-within s req h =
    validated s req (ltb s.max_history_tokens (s.counter (items req.history))) refl h

-- A history that the standard pipeline lets through fits the session's limit: where the pipeline has at
-- most twelve transformers, the validator among them, and the extras run no later than it, the count of the
-- history that results is at most `max_history_tokens`, and it is the count that the metadata reports.
pub standard-within_limit :
    (ctx : Ctx) (f : Factory) (limits : Limits) (extras : List Transformer) (persist : Persist)
    (req : Request) {out : Request}
    → All IsTimely extras
    → length (before_last f limits extras ++ final_validator f ∷ []) ≤ 12
    → execute_with_persistence ctx (build_standard_pipeline f limits extras) persist req ≡ ok out
    → (out.metadata.final_token_count ≡ f.strategy.counter (items out.history))
      × (f.strategy.counter (items out.history) ≤ f.strategy.max_history_tokens)
unfolding build_standard_pipeline execute
standard-within_limit ctx f limits extras persist req {out} h few k =
    let ts = before_last f limits extras in
    let sorted = new_pipeline_lem 0 f.long_sort (ts ++ final_validator f ∷ []) few in
    let run =
      ordered-run ctx (new_pipeline f.long_sort (ts ++ final_validator f ∷ [])) persist req sorted.0
        k in
    let split : (execute ctx (insertion_sort ts) req >>= execute ctx (final_validator f ∷ []))
        ≡ ok out =
      sym (execute-append ctx (insertion_sort ts) (final_validator f ∷ []) req)
      ∙ ap (λ us. execute ctx us req)
          (sym (
            new_pipeline_short f.long_sort (ts ++ final_validator f ∷ []) few
            ∙ insertion_sort-last (final_validator f) ts refl
                (before_last-IsTimely f limits extras h)))
      ∙ run in
    let (mid, e, g) = >>=-eq-ok (execute ctx (insertion_sort ts) req) _ split in
    let (u, v, w) = >>=-eq-ok (poll ctx) _ g in
    let (r, x, y) = >>=-eq-ok (validate_final f.strategy mid) _ w in
    validate_final-within f.strategy mid (x ∙ y)
