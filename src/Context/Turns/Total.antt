-- ===== src/Context/Turns/Total.antt =====
-- When `groupTurns` succeeds.
use tell_me_go.Base.{
  ℕ, ◌+◌, Bool, true, false, ◌≡◌, refl, sym, subst, List, [], ◌∷◌, ◌++◌, Option, none, some, is_nil,
  is_none, last?, last?-concat, last?-cons, All, arith, if◌then◌else◌,
}
use tell_me_go.Errors.{Error, ok, err, ok_of_ne_err}
use tell_me_go.Llm.{Part, Content}
use tell_me_go.Context.{Message, Turn}
use tell_me_go.Context.Turns.{
  is_tool_call_parts, is_tool_call, is_model_tool_call_boundary, is_user_turn_boundary,
  is_turn_boundary, validate_turn_content, group_loop, group_turns,
}

abbrev pub NoNil : List (Option Part) → Type 0
NoNil = All (λ p. is_none p ≡ false)

-- A message that is there, with a role and without nil parts.
abbrev pub IsSound : Message → Type 0
IsSound none = ⊥
IsSound (some m) = (is_nil m.role ≡ false) × NoNil m.parts

is_tool_call_parts_total :
    (ps : List (Option Part)) → NoNil ps → (b : Bool) × (is_tool_call_parts ps ≡ ok b)
unfolding is_tool_call_parts
is_tool_call_parts_total [] h = (false, refl)
is_tool_call_parts_total (none ∷ ps) h = cc
is_tool_call_parts_total (some p ∷ ps) h =
    let (b, e) = is_tool_call_parts_total ps h.1 in
    elim p.function_call
      as (λ c. (b : Bool) × ((elim c [ some c ↦ ok true | none ↦ is_tool_call_parts ps ]) ≡ ok b)) [
        | none ↦ (b, e)
        | some c ↦ (true, refl)
      ]

is_turn_boundary_ne_err :
    (m last : Content) (current : Turn)
    → last? current ≡ some last
    → NoNil last.parts
    → (e : Error) → ¬ (is_turn_boundary m current ≡ err e)
unfolding is_turn_boundary is_user_turn_boundary is_model_tool_call_boundary is_tool_call
is_turn_boundary_ne_err m last [] l h e f = cc
is_turn_boundary_ne_err m last (c ∷ cs) l h e f =
    let (b, g) = is_tool_call_parts_total last.parts h in ground arith

-- The current turn's last message, if there is one, has no nil part.
SoundEnd : Option Content → Type 0
SoundEnd none = Unit
SoundEnd (some m) = NoNil m.parts

validate_total :
    (i : ℕ) (msg : Message)
    → IsSound msg
    → (m : Content) × (validate_turn_content none msg i ≡ ok m) × NoNil m.parts
unfolding validate_turn_content
validate_total i none h = absurd h
validate_total i (some m) h = (m, ground arith, h.1)

round_total :
    (m : Content) (current : Turn)
    → SoundEnd (last? current)
    → (b : Bool) × (is_turn_boundary m current ≡ ok b)
unfolding is_turn_boundary SoundEnd
round_total m [] h = (false, refl)
round_total m (c ∷ cs) h =
    let (last, e) = last?-cons c cs in
    ok_of_ne_err _ (is_turn_boundary_ne_err m last (c ∷ cs) e (subst SoundEnd e h))

SoundEnd-step :
    (b : Bool) (m : Content) (current : Turn)
    → NoNil m.parts
    → SoundEnd (last? (if b then m ∷ [] else current ++ (m ∷ [])))
unfolding SoundEnd
SoundEnd-step true m current h = h
SoundEnd-step false m current h = subst SoundEnd (sym (last?-concat current m)) h

group_loop_total :
    (i : ℕ) (rest : List Message) (turns : List Turn) (current : Turn)
    → All IsSound rest
    → SoundEnd (last? current)
    → (out : List Turn) × (group_loop none i rest turns current ≡ ok out)
unfolding group_loop
group_loop_total i [] turns current h s = (_, refl)
group_loop_total i (msg ∷ rest) turns current h s =
    let (m, valid, sound) = validate_total i msg h.0 in
    let (b, boundary) = round_total m current s in
    let (out, later) =
      group_loop_total (i + 1) rest (if b then turns ++ (current ∷ []) else turns)
        (if b then m ∷ [] else current ++ (m ∷ [])) h.1 (SoundEnd-step b m current sound) in
    (out, rw (valid, boundary) later)

-- Outside a cancelled context, a history that is not nil and whose messages are there, have a role
-- and no nil part is always grouped.
pub group_turns_total :
    (history : List Message)
    → All IsSound history
    → (turns : List Turn) × (group_turns none (some history) ≡ ok turns)
unfolding group_turns SoundEnd
group_turns_total history h = group_loop_total 0 history [] [] h tt
