-- ===== src/Context/Turns.antt =====
-- internal/agent/session/context/transformers.go: `groupTurns` and the tests of a turn's boundary.
-- `groupTurns` refuses nil messages, so a turn holds messages themselves and the nil tests on its
-- members are not repeated.
pub mod Partition
pub mod Boundaries
pub mod Total
use tell_me_go.Base.{
  ℕ, ◌+◌, Bool, true, false, not, ◌||◌, List, [], ◌∷◌, ◌++◌, Option, none, some, Slice, is_nil,
  last?, if◌then◌else◌,
}
use tell_me_go.Errors.{
  Result, ok, err, fails, invalid_payload, nil_dereference, Ctx, poll_at, ◌>>=◌, ◌>>◌,
}
use tell_me_go.Llm.{Part, Content, user, model, system, has_role}
use tell_me_go.Llm.Parts.{is_empty}
use tell_me_go.Context.{Message, Turn}

-- `isToolCall`: whether a part is a function call; a nil part in front of the first call is an error.
unfoldable pub is_tool_call_parts : List (Option Part) → Result Bool
is_tool_call_parts [] = ok false
is_tool_call_parts (none ∷ ps) = fails invalid_payload
is_tool_call_parts (some p ∷ ps) = elim p.function_call [
  | some c ↦ ok true
  | none ↦ is_tool_call_parts ps
]

unfoldable pub is_tool_call : Content → Result Bool
is_tool_call m = is_tool_call_parts m.parts

abbrev pub is_boundary_role : Content → Bool
is_boundary_role m = has_role m user || has_role m system

unfoldable pub is_model_tool_call_boundary : Content → Result Bool
is_model_tool_call_boundary last = do call ← is_tool_call last; ok (not call)

unfoldable pub is_user_turn_boundary : Option Content → Result Bool
is_user_turn_boundary none = err nil_dereference
is_user_turn_boundary (some last) =
    if not (has_role last model) then ok true else is_model_tool_call_boundary last

-- `isTurnBoundary`: whether `m` starts a new turn behind the messages of the current one.
unfoldable pub is_turn_boundary : Content → Turn → Result Bool
is_turn_boundary m current =
    if is_nil current
    then ok false
    else if not (is_boundary_role m)
    then ok false
    else if has_role m user
    then is_user_turn_boundary (last? current)
    else ok true

unfoldable pub validate_turn_content : Ctx → Message → ℕ → Result Content
validate_turn_content ctx none i = fails invalid_payload
validate_turn_content ctx (some m) i = do
  poll_at ctx i
  if is_nil m.role then fails invalid_payload else ok m

-- The loop of `groupTurns`, with the turns closed so far and the current one.
unfoldable pub group_loop : Ctx → ℕ → List Message → List Turn → Turn → Result (List Turn)
group_loop ctx i [] turns current = ok (if is_nil current then turns else turns ++ (current ∷ []))
group_loop ctx i (msg ∷ rest) turns current = do
  m ← validate_turn_content ctx msg i
  boundary ← is_turn_boundary m current
  group_loop ctx (i + 1) rest (if boundary then turns ++ (current ∷ []) else turns)
      (if boundary then m ∷ [] else current ++ (m ∷ []))

unfoldable pub group_turns : Ctx → Slice Message → Result (List Turn)
group_turns ctx none = fails invalid_payload
group_turns ctx (some history) = group_loop ctx 0 history [] []

-- `isTurnEmpty`.
unfoldable pub are_parts_empty : List (Option Part) → Result Bool
are_parts_empty [] = ok true
are_parts_empty (none ∷ ps) = fails invalid_payload
are_parts_empty (some p ∷ ps) =
    let rest = are_parts_empty ps in if not (is_empty p) then ok false else rest

unfoldable pub is_turn_empty : Turn → Result Bool
is_turn_empty [] = ok true
is_turn_empty (m ∷ ms) = do
  empty ← are_parts_empty m.parts
  let rest = is_turn_empty ms
  if empty then rest else ok false
