-- ===== src/Context/Repair/Answers.antt =====
-- What the repairer adds.
use tell_me_go.Base.{
  append-nil, not, ◌||◌, true, ◌≡◌, ◌≢◌, refl, sym, subst, ap, ◌∙◌, Bytes, List, [], ◌∷◌, ◌++◌,
  Option, none, some, items, items-append_slice, map, is_nil, last?, last?-concat, List-cases,
  bytes_eq, arith, Bool-cases, inl, inr, if◌then◌else◌,
}
use tell_me_go.Errors.{ok, >>=-eq-ok}
use tell_me_go.Llm.{Part, FunctionCall, model, has_role}
use tell_me_go.Llm.Parts.Merge.{calls_of}
use tell_me_go.Context.{Message, Request}
use tell_me_go.Context.Repair.{
  error_response, error_responses, answer, with_answer, repair_after, repair,
}

-- One error result for each call, in the calls' order, under the calls' IDs and names.
abbrev pub answers_to : List FunctionCall → List (Option Part)
answers_to = map (λ c. some (error_response c))

error_responses-answers_to :
    (ps : List (Option Part)) {rs : List (Option Part)}
    → error_responses ps ≡ ok rs
    → rs ≡ answers_to (calls_of ps)
unfolding error_responses
error_responses-answers_to [] h = ground arith
error_responses-answers_to (none ∷ ps) h = cc
error_responses-answers_to (some p ∷ ps) h =
    let (rest, e, f) = >>=-eq-ok (error_responses ps) _ h in
    ground (arith, error_responses-answers_to ps e)

-- The tool calls that nobody has answered: those of a last message of the model.
abbrev pub pending : Option Message → List FunctionCall
pending (some (some last)) = if has_role last model then calls_of last.parts else []
pending (some none) = []
pending none = []

pub record Repaired (new_id : Bytes) (req : Request) (calls : List FunctionCall) (out : Request)
    : Type 0 where
  pub untouched : calls ≡ [] → out ≡ req
  pub answered :
      calls ≢ []
      → (items out.history ≡ items req.history ++ (some (answer new_id (answers_to calls)) ∷ []))
        × (out.persist_history ≡ true)

with_answer-Repaired :
    (new_id : Bytes) (req : Request) (calls : List FunctionCall)
    → Repaired new_id req calls (with_answer new_id req (answers_to calls))
with_answer-Repaired new_id req [] = record {
  untouched = λ e. refl;
  answered = λ n. absurd (n refl);
}
with_answer-Repaired new_id req (c ∷ cs) = record {
  untouched = λ e. cc;
  answered = λ n. (items-append_slice req.history _, refl);
}

repair_after-with_answer :
    (new_id : Bytes) (req : Request) (last : Option Message) {out : Request}
    → repair_after new_id req last ≡ ok out
    → with_answer new_id req (answers_to (pending last)) ≡ out
unfolding repair_after
repair_after-with_answer new_id req none h = ground arith
repair_after-with_answer new_id req (some none) h = cc
repair_after-with_answer new_id req (some (some last)) {out} h =
    elim (Bool-cases (has_role last model)) [
      | inl e ↦
          let (rs, f, g) =
            >>=-eq-ok (error_responses last.parts) (λ rs. ok (with_answer new_id req rs))
              (rw e at h) in
          let k : with_answer new_id req rs ≡ out = cc g in
          rw e (rw (error_responses-answers_to last.parts f) at k)
      | inr e ↦ rw e (ground (arith, h))
    ]

repair-Repaired :
    (new_id : Bytes) (req : Request) {out : Request}
    → repair new_id req ≡ ok out
    → Repaired new_id req (pending (last? (items req.history))) out
unfolding repair
repair-Repaired new_id req h =
    subst (Repaired new_id req (pending (last? (items req.history))))
      (repair_after-with_answer new_id req (last? (items req.history)) h)
      (with_answer-Repaired new_id req (pending (last? (items req.history))))

-- What is put behind a history whose last message leaves these calls open.
abbrev pub added : Bytes → List FunctionCall → List Message
added new_id [] = []
added new_id (c ∷ cs) = some (answer new_id (answers_to (c ∷ cs))) ∷ []

with_answer-added :
    (new_id : Bytes) (req : Request) (calls : List FunctionCall)
    → (items (with_answer new_id req (answers_to calls)).history
        ≡ items req.history ++ added new_id calls)
      × ((with_answer new_id req (answers_to calls)).persist_history
          ≡ (not (is_nil calls) || req.persist_history))
with_answer-added new_id req [] = (sym (append-nil (items req.history)), refl)
with_answer-added new_id req (c ∷ cs) = (items-append_slice req.history _, refl)

-- A history that ends in a model message with tool calls gets one user message behind it that
-- answers every call, in order, and is marked to be stored; to any other nothing is added.
pub repair-added :
    (new_id : Bytes) (req : Request) {out : Request}
    → repair new_id req ≡ ok out
    → (items out.history ≡ items req.history ++ added new_id (pending (last? (items req.history))))
      × (out.persist_history
          ≡ (not (is_nil (pending (last? (items req.history)))) || req.persist_history))
unfolding repair
repair-added new_id req h =
    subst
      (λ o.
        (items o.history ≡ items req.history ++ added new_id (pending (last? (items req.history))))
        × (o.persist_history
            ≡ (not (is_nil (pending (last? (items req.history)))) || req.persist_history)))
      (repair_after-with_answer new_id req (last? (items req.history)) h)
      (with_answer-added new_id req (pending (last? (items req.history))))

nothing_pending :
    (new_id other_id : Bytes) (req : Request) (last : Option Message) {out : Request}
    → repair_after new_id req last ≡ ok out
    → pending last ≡ []
    → repair_after other_id req last ≡ ok req
unfolding repair_after
nothing_pending new_id other_id req none h p = refl
nothing_pending new_id other_id req (some none) h p = cc
nothing_pending new_id other_id req (some (some last)) h p =
    elim (Bool-cases (has_role last model)) [
      | inl e ↦
          let (rs, f, g) =
            >>=-eq-ok (error_responses last.parts) (λ rs. ok (with_answer new_id req rs))
              (rw e at h) in
          let none_left : rs ≡ [] =
            error_responses-answers_to last.parts f ∙ ap answers_to (rw e at p) in
          rw (e, f, none_left)
      | inr e ↦ rw e
    ]

-- The repaired history has no pending call, so a second repair changes nothing.
pub repair_idem :
    (new_id other_id : Bytes) (req : Request) {out : Request}
    → repair new_id req ≡ ok out
    → repair other_id out ≡ ok out
unfolding repair repair_after bytes_eq
repair_idem new_id other_id req {out} h =
    let calls = pending (last? (items req.history)) in
    let r = repair-Repaired new_id req h in
    elim (List-cases calls) [
      | inl e ↦
          subst (λ o. repair_after other_id o (last? (items o.history)) ≡ ok o)
            (sym (r.untouched e))
            (nothing_pending new_id other_id req (last? (items req.history)) h e)
      | inr n ↦ rw (ap last? (r.answered n).0 ∙ last?-concat (items req.history) _)
    ]
