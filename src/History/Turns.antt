-- ===== src/History/Turns.antt =====
-- internal/infrastructure/history/history.go: the two messages of a turn, and how far a rollback goes.
pub mod Pairs
pub mod Rollback
use tell_me_go.Base.{
  ℕ, zero, suc, ◌+◌, ◌-◌, ◌*◌, ◌/◌, ◌%◌, Bool, true, false, not, List, [], ◌∷◌, ◌++◌, Option, none,
  some, Bytes, bytes_eq, length, is_none, is_nil, ltb, leb, ◌==◌, if◌then◌else◌,
}
use tell_me_go.Errors.{Result, ok, err, fails_plain, nil_dereference, ◌>>=◌, ◌>>◌}
use tell_me_go.Llm.{Part, Content, user, model, system, has_role}
use tell_me_go.Context.{Message}

-- The message at an index, read through its pointer.
unfoldable pub message_at : List Message → ℕ → Result Content
message_at [] i = fails_plain
message_at (none ∷ ms) zero = err nil_dereference
message_at (some m ∷ ms) zero = ok m
message_at (m ∷ ms) (suc i) = message_at ms i

-- `contentHasFunctionCall` and `contentHasFunctionResponse`.
unfoldable pub has_function_call : List (Option Part) → Result Bool
has_function_call [] = ok false
has_function_call (none ∷ ps) = err nil_dereference
has_function_call (some p ∷ ps) =
    let rest = has_function_call ps in if is_none p.function_call then rest else ok true

unfoldable pub has_function_response : List (Option Part) → Result Bool
has_function_response [] = ok false
has_function_response (none ∷ ps) = err nil_dereference
has_function_response (some p ∷ ps) =
    let rest = has_function_response ps in if is_none p.function_response then rest else ok true

-- The test that `complementPred` wants of a partner, or none.
abbrev pub checked : Option (List (Option Part) → Result Bool) → Content → Result Bool
checked none partner = ok true
checked (some pred) partner = pred partner.parts

-- `validateTurnPair` forward and backward.
unfoldable pub pair_forward :
    List Message → ℕ → Bytes → Option (List (Option Part) → Result Bool) → Result (ℕ × ℕ)
pair_forward ms i partner_role pred = if leb (length ms) (i + 1) then fails_plain else do
  partner ← message_at ms (i + 1)
  matches ← (if bytes_eq partner.role partner_role then checked pred partner else ok false)
  if matches then ok (i, i + 1) else fails_plain

unfoldable pub pair_backward :
    List Message → ℕ → Bytes → Option (List (Option Part) → Result Bool) → Result (ℕ × ℕ)
pair_backward ms zero partner_role pred = fails_plain
pair_backward ms (suc i) partner_role pred = do
  partner ← message_at ms i
  matches ← (if bytes_eq partner.role partner_role then checked pred partner else ok false)
  if matches then ok (i, suc i) else fails_plain

-- `findTurnPair` over `turnPairRules`.
unfoldable pub find_turn_pair : List Message → ℕ → Result (ℕ × ℕ)
find_turn_pair ms i = do
  m ← message_at ms i
  if has_role m model
      then (do
        call ← has_function_call m.parts
        if call
            then pair_forward ms i user (some has_function_response)
            else pair_backward ms i user none)
      else if has_role m user
      then (do
        response ← has_function_response m.parts
        if response
            then pair_backward ms i model (some has_function_call)
            else pair_forward ms i model none)
      else fails_plain

-- `calculateRollbackBounds`: the turns removed and the length that is left.
unfoldable pub rollback_bounds : ℕ → ℕ → Bool → ℕ × ℕ
rollback_bounds original turns has_system =
    let offset = if has_system then 1 else 0 in
    let effective = original - offset in
    let current = (effective + 1) / 2 in
    if original == 0
    then (0, 0)
    else if turns == 0
    then (0, if effective % 2 == 0 then original else original - 1)
    else if leb current turns
    then (current, offset)
    else (turns, original - (if effective % 2 == 0 then turns * 2 else turns * 2 - 1))

-- `rollbackRemainingTurns`.
unfoldable pub remaining_turns : ℕ → Bool → ℕ
remaining_turns messages has_system = (if has_system then messages - 1 else messages) / 2

-- The text of a message: the loop of `GetLastUserMessage`.
unfoldable pub text_parts : List (Option Part) → Result Bytes
text_parts [] = ok []
text_parts (none ∷ ps) = err nil_dereference
text_parts (some p ∷ ps) = do rest ← text_parts ps; ok (p.text ++ rest)

-- The last message of the user with a text, with its index, from the messages in front of `i`, the
-- last of them first.
unfoldable pub last_user_text : List Message → ℕ → Result (Bytes × ℕ)
last_user_text [] i = fails_plain
last_user_text (none ∷ before) i = err nil_dereference
last_user_text (some m ∷ before) i =
    let rest = last_user_text before (i - 1) in
    if has_role m user
    then (do text ← text_parts m.parts; if is_nil text then rest else ok (text, i - 1))
    else rest

-- The turns that `GetLastUserMessage` counts behind the message at `i`.
unfoldable pub turns_to_rollback : ℕ → ℕ → ℕ
turns_to_rollback total i = (total - i + 1) / 2
