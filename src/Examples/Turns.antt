-- ===== src/Examples/Turns.antt =====
-- The theorems on messages and turns at concrete ones.
use tell_me_go.Base.{◌≡◌, refl, codes, List, [], ◌∷◌, none, some, map, concat, All, bytes_eq}
use tell_me_go.Errors.{ok}
use tell_me_go.Llm.{Content, user, text_part}
use tell_me_go.Llm.Parts.{add_part, add_part_to, can_merge_with}
use tell_me_go.Llm.Validate.{no_nil, validate_structure}
use tell_me_go.Context.{Turn}
use tell_me_go.Context.Turns.{
  group_turns, group_loop, validate_turn_content, is_turn_boundary, is_user_turn_boundary,
  is_model_tool_call_boundary, is_tool_call, is_tool_call_parts,
}
use tell_me_go.Context.Turns.Partition.{group_turns-concat}
use tell_me_go.Context.Turns.Boundaries.{Cut, group_turns-Cut}
use tell_me_go.Context.Turns.Total.{IsSound, group_turns_total}
use tell_me_go.Examples.Messages.{hello, question, reply, tool_request, tool_answer, session, say}

abbrev greeted : Content
greeted = say user (some (text_part (codes "hellohello")) ∷ [])

add_part_run : add_part question hello ≡ ok greeted
unfolding add_part add_part_to can_merge_with
add_part_run = refl

tool_request_valid : validate_structure (some tool_request) ≡ ok tt
unfolding validate_structure no_nil
tool_request_valid = refl

abbrev session_turns : List Turn
session_turns = (question ∷ tool_request ∷ tool_answer ∷ reply ∷ []) ∷ []

session_grouped : group_turns none (some session) ≡ ok session_turns
unfolding group_turns group_loop validate_turn_content is_turn_boundary bytes_eq
    is_user_turn_boundary is_model_tool_call_boundary is_tool_call is_tool_call_parts
session_grouped = refl

group_turns-concat_example : map some (concat session_turns) ≡ session
group_turns-concat_example = group_turns-concat none (some session) session_grouped

group_turns-Cut_example : Cut none session_turns
group_turns-Cut_example = group_turns-Cut none (some session) session_grouped

session-IsSound : All IsSound session
session-IsSound = (
  (refl, (refl, tt)),
  ((refl, (refl, (refl, tt))), ((refl, (refl, tt)), ((refl, (refl, tt)), tt))),
)

group_turns_total_example : (turns : List Turn) × (group_turns none (some session) ≡ ok turns)
group_turns_total_example = group_turns_total session session-IsSound
