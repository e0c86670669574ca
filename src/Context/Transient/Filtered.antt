-- ===== src/Context/Transient/Filtered.antt =====
-- What the filter of empty turns keeps.
use tell_me_go.Base.{
  Bool, true, false, not, ◌&&◌, ◌≡◌, refl, sym, ap, subst, ◌∙◌, List, [], ◌∷◌, ◌++◌, append_assoc,
  map-append, Option, none, some, items, map, concat, length, is_nil, ◌==◌, arith, Bool-cases, inl,
  inr, if◌then◌else◌,
}
use tell_me_go.Errors.{ok, Ctx, >>=-eq-ok, ok-injective}
use tell_me_go.Llm.{Part, Content}
use tell_me_go.Llm.Parts.{is_empty}
use tell_me_go.Context.{Message, Turn, Request}
use tell_me_go.Context.Turns.{group_turns, are_parts_empty, is_turn_empty}
use tell_me_go.Context.Turns.Partition.{group_turns-concat}
use tell_me_go.Context.Clean.Cleaned.{parts_of}
use tell_me_go.Context.Transient.{is_single, filter_turns, filter_empty_turns}

-- The parts with content, in order.
abbrev pub with_content : List (Option Part) → List (Option Part)
with_content [] = []
with_content (none ∷ ps) = none ∷ with_content ps
with_content (some p ∷ ps) = if is_empty p then with_content ps else some p ∷ with_content ps

with_content-append :
    (ps qs : List (Option Part)) → with_content (ps ++ qs) ≡ with_content ps ++ with_content qs
with_content-append [] qs = refl
with_content-append (none ∷ ps) qs = ap (◌∷◌ none) (with_content-append ps qs)
with_content-append (some p ∷ ps) qs = elim (Bool-cases (is_empty p)) [
  | inl e ↦ rw e (with_content-append ps qs)
  | inr e ↦ rw e (ap (◌∷◌ (some p)) (with_content-append ps qs))
]

-- What the messages hold.
abbrev pub held : List Message → List (Option Part)
held ms = with_content (parts_of ms)

parts_of-append : (ms ns : List Message) → parts_of (ms ++ ns) ≡ parts_of ms ++ parts_of ns
parts_of-append [] ns = refl
parts_of-append (none ∷ ms) ns = parts_of-append ms ns
parts_of-append (some m ∷ ms) ns =
    rw (parts_of-append ms ns) (sym (append_assoc m.parts (parts_of ms) (parts_of ns)))

held-append : (ms ns : List Message) → held (ms ++ ns) ≡ held ms ++ held ns
held-append ms ns =
    ap with_content (parts_of-append ms ns) ∙ with_content-append (parts_of ms) (parts_of ns)

are_parts_empty-held :
    (ps : List (Option Part)) → are_parts_empty ps ≡ ok true → with_content ps ≡ []
unfolding are_parts_empty
are_parts_empty-held [] h = refl
are_parts_empty-held (none ∷ ps) h = ground arith
are_parts_empty-held (some p ∷ ps) h = elim (Bool-cases (is_empty p)) [
  | inl e ↦ rw e (are_parts_empty-held ps (ground (arith, e, h)))
  | inr e ↦ ground (arith, e, h)
]

message_held :
    (m : Content) (ms : Turn) (empty : Bool)
    → are_parts_empty m.parts ≡ ok empty
    → (if empty then is_turn_empty ms else ok false) ≡ ok true
    → (is_turn_empty ms ≡ ok true → held (map some ms) ≡ [])
    → held (map some (m ∷ ms)) ≡ []
message_held m ms true e f later =
    with_content-append m.parts (parts_of (map some ms))
    ∙ rw (are_parts_empty-held m.parts e) (later f)
message_held m ms false e f later = ground arith

is_turn_empty-held : (t : Turn) → is_turn_empty t ≡ ok true → held (map some t) ≡ []
unfolding is_turn_empty
is_turn_empty-held [] h = refl
is_turn_empty-held (m ∷ ms) h =
    let (empty, e, f) = >>=-eq-ok (are_parts_empty m.parts) _ h in
    message_held m ms empty e f (is_turn_empty-held ms)

dropped-held :
    (t : Turn) (kept empty : Bool) (rest rest' : List Message)
    → (if kept then ok false else is_turn_empty t) ≡ ok empty
    → held rest ≡ held rest'
    → held (if empty then rest else map some t ++ rest) ≡ held (map some t ++ rest')
dropped-held t kept false rest rest' e h =
    held-append (map some t) rest
    ∙ ap (λ x. held (map some t) ++ x) h
    ∙ sym (held-append (map some t) rest')
dropped-held t true true rest rest' e h = ground arith
dropped-held t false true rest rest' e h =
    h ∙ sym (held-append (map some t) rest' ∙ ap (λ x. x ++ held rest') (is_turn_empty-held t e))

filter_turns-held :
    (ts : List Turn) {r : List Message}
    → filter_turns ts ≡ ok r
    → held r ≡ held (map some (concat ts))
unfolding filter_turns
filter_turns-held [] h = ap held (sym (ok-injective h))
filter_turns-held (t ∷ ts) h =
    let (empty, e, f) =
      >>=-eq-ok (if is_single t && is_nil ts then ok false else is_turn_empty t) _ h in
    let (rest, g, k) = >>=-eq-ok (filter_turns ts) _ f in
    subst (λ x. held x ≡ held (map some (t ++ concat ts))) (ok-injective k)
      (dropped-held t (is_single t && is_nil ts) empty rest (map some (concat ts)) e
          (filter_turns-held ts g)
        ∙ ap held (sym (map-append some t (concat ts))))

replaced_held :
    (req : Request) (filtered : List Message) (b : Bool)
    → held filtered ≡ held (items req.history)
    → held (
        items
          (if b
            then record req { history = some filtered; persist_history = true }
            else req).history)
      ≡ held (items req.history)
replaced_held req filtered true h = h
replaced_held req filtered false h = refl

-- Filtering empty turns loses no content: every part that has some stays, in order.
pub filter_empty_turns-held :
    (ctx : Ctx) (req : Request) {out : Request}
    → filter_empty_turns ctx req ≡ ok out
    → held (items out.history) ≡ held (items req.history)
unfolding filter_empty_turns
filter_empty_turns-held ctx req h =
    let (turns, e, f) = >>=-eq-ok (group_turns ctx req.history) _ h in
    let (filtered, g, k) = >>=-eq-ok (filter_turns turns) _ f in
    let same = filter_turns-held turns g ∙ ap held (group_turns-concat ctx req.history e) in
    subst (λ o. held (items o.history) ≡ held (items req.history)) (ok-injective k)
      (replaced_held req filtered (not (length filtered == length (items req.history))) same)
