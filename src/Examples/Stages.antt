-- ===== src/Examples/Stages.antt =====
-- The theorems on the stages of the pipeline at concrete requests.
use tell_me_go.Llm.Parts.{is_empty}
use tell_me_go.Context.Turns.{are_parts_empty}
use tell_me_go.Context.Turns.{is_turn_empty}
use tell_me_go.Context.Transient.{filter_turns}
use tell_me_go.Context.Transient.{filter_empty_turns}
use tell_me_go.Context.Transient.Filtered.{held, filter_empty_turns-held}
use tell_me_go.Llm.{user, Content}
use tell_me_go.Examples.Messages.{hello, say, reply}
use tell_me_go.Examples.Messages.{request_of, messages_of}
use tell_me_go.Context.Pruner.{reconstruct_loop}
use tell_me_go.Context.Pruner.{reconstruct}
use tell_me_go.Context.Pruner.{has_important_parts}
use tell_me_go.Context.Pruner.{is_turn_important}
use tell_me_go.Context.Pruner.{importance}
use tell_me_go.Context.Pruner.{mark_where}
use tell_me_go.Context.Pruner.{pinning}
use tell_me_go.Context.Pruner.{mark_window}
use tell_me_go.Context.Pruner.{mark_sliding}
use tell_me_go.Context.Pruner.{sliding_window}
use tell_me_go.Base.{contains}
use tell_me_go.Context.Warnings.{parts_contain}
use tell_me_go.Context.Warnings.{shown_in}
use tell_me_go.Context.Warnings.{reverse_onto}
use tell_me_go.Context.Warnings.{inject_last}
use tell_me_go.Context.Pruner.{apply_policies}
use tell_me_go.Context.Turns.{is_tool_call_parts}
use tell_me_go.Context.Turns.{is_tool_call}
use tell_me_go.Context.Turns.{is_model_tool_call_boundary}
use tell_me_go.Context.Turns.{is_user_turn_boundary}
use tell_me_go.Context.Turns.{is_turn_boundary}
use tell_me_go.Context.Turns.{validate_turn_content}
use tell_me_go.Context.Turns.{group_loop}
use tell_me_go.Context.Signatures.{propagate_to_calls}
use tell_me_go.Context.Signatures.{find_thought_signature}
use tell_me_go.Context.Signatures.{propagate_to_message}
use tell_me_go.Context.Signatures.{propagate_history}
use tell_me_go.Context.Clean.{has_empty_part}
use tell_me_go.Context.Clean.{clean_content}
use tell_me_go.Context.Clean.{clean_contents}
use tell_me_go.Context.Clean.{is_invalid_tool_part}
use tell_me_go.Context.Clean.{drop_empty_messages}
use tell_me_go.Context.Clean.{filter_tool_parts}
use tell_me_go.Context.Clean.{clean_tool_parts}
use tell_me_go.Context.Clean.{clean_tool_history}
use tell_me_go.Context.Repair.{error_responses}
use tell_me_go.Base.{
  ◌≡◌, refl, ◌-◌, codes, List, [], ◌∷◌, ◌++◌, none, some, items, map, concat, length, take, drop,
  arith, last?, is_nil, not, ◌||◌, bytes_eq,
}
use tell_me_go.Errors.{Result, ok, err}
use tell_me_go.Llm.{model}
use tell_me_go.Context.{Message, Turn, Request}
use tell_me_go.Context.Turns.{group_turns}
use tell_me_go.Context.Repair.{repair}
use tell_me_go.Context.Repair.Answers.{added, pending, repair-added, repair_idem}
use tell_me_go.Context.Clean.{clean_tools, prune_empty_messages, clean_parts}
use tell_me_go.Context.Clean.Cleaned.{parts_of, keep_valid}
use tell_me_go.Context.Clean.Tidied.{tidied}
use tell_me_go.Context.Clean.Stage.{IsClean, clean_parts-IsClean}
use tell_me_go.Context.Signatures.{propagate_signatures}
use tell_me_go.Context.Signatures.Carried.{SignedHistory, propagate_signatures-SignedHistory}
use tell_me_go.Context.Pruner.{prune}
use tell_me_go.Context.Pruner.Marks.{standard}
use tell_me_go.Context.Pruner.Select.{PrunedTo, prune-PrunedTo}
use tell_me_go.Context.Pruner.Protect.{IsSelection, pinned_of, tool_calls, prune-protected}
use tell_me_go.Context.Warnings.{inject_warning}
use tell_me_go.Context.Warnings.Injected.{Outcome, inject_warning-Outcome, inject_warning_idem}
use tell_me_go.Examples.Messages.{
  question, tool_request, tool_answer, session, two_sessions, say, request,
}

abbrev turns_of : Result (List Turn) → List Turn
turns_of (ok ts) = ts
turns_of (err e) = []

-- A session that was interrupted_request behind a tool request.
abbrev interrupted_request : Request
interrupted_request = request (some question ∷ some tool_request ∷ [])

abbrev repaired : Request
repaired = request_of (repair (codes "new") interrupted_request)

repaired_run : repair (codes "new") interrupted_request ≡ ok repaired
unfolding repair bytes_eq error_responses
repaired_run = refl

repair-added_example :
    (items repaired.history
      ≡ items interrupted_request.history
        ++ added (codes "new") (pending (last? (items interrupted_request.history))))
    × (repaired.persist_history ≡ (
        not (is_nil (pending (last? (items interrupted_request.history))))
        || interrupted_request.persist_history))
repair-added_example = repair-added (codes "new") interrupted_request repaired_run

repair_idem_example : repair (codes "other") repaired ≡ ok repaired
repair_idem_example = repair_idem (codes "new") (codes "other") interrupted_request repaired_run

abbrev untidy : Request
untidy = request (some question ∷ some (say model []) ∷ some tool_request ∷ some tool_answer ∷ [])

abbrev without_tools : Request
without_tools = request_of (clean_tools untidy)

abbrev without_empty : Request
without_empty = request_of (prune_empty_messages without_tools)

abbrev cleaned : Request
cleaned = request_of (clean_parts without_empty)

clean_tools_run : clean_tools untidy ≡ ok without_tools
unfolding clean_tools clean_tool_history clean_tool_parts filter_tool_parts
clean_tools_run = refl

prune_empty_messages_run : prune_empty_messages without_tools ≡ ok without_empty
unfolding prune_empty_messages drop_empty_messages clean_tools clean_tool_history clean_tool_parts
    filter_tool_parts is_invalid_tool_part
prune_empty_messages_run = refl

clean_parts_run : clean_parts without_empty ≡ ok cleaned
unfolding clean_parts clean_contents prune_empty_messages drop_empty_messages clean_tools
    clean_tool_history clean_tool_parts filter_tool_parts is_invalid_tool_part clean_content
    has_empty_part
clean_parts_run = refl

clean_parts-IsClean_example :
    IsClean (items cleaned.history)
    × (parts_of (items without_empty.history) ≡ keep_valid (parts_of (items untidy.history)))
    × (items cleaned.history ≡ map tidied (items without_empty.history))
clean_parts-IsClean_example =
    clean_parts-IsClean untidy clean_tools_run prune_empty_messages_run clean_parts_run

abbrev signed : Request
signed = request_of (propagate_signatures (request session))

signed_run : propagate_signatures (request session) ≡ ok signed
unfolding propagate_signatures propagate_history bytes_eq propagate_to_message
    find_thought_signature propagate_to_calls
signed_run = refl

propagate_signatures-SignedHistory_example : SignedHistory session (items signed.history)
propagate_signatures-SignedHistory_example =
    propagate_signatures-SignedHistory (request session) signed_run

abbrev long_turns : List Turn
long_turns = turns_of (group_turns none (some two_sessions))

abbrev short : Request
short = request_of (prune none none (standard 1) (request two_sessions))

long_turns_run : group_turns none (some two_sessions) ≡ ok long_turns
unfolding group_turns group_loop validate_turn_content is_turn_boundary bytes_eq
    is_user_turn_boundary is_model_tool_call_boundary is_tool_call is_tool_call_parts
long_turns_run = refl

prune_run : prune none none (standard 1) (request two_sessions) ≡ ok short
unfolding prune group_turns group_loop validate_turn_content is_turn_boundary bytes_eq
    is_user_turn_boundary is_model_tool_call_boundary is_tool_call is_tool_call_parts apply_policies
    sliding_window mark_sliding mark_window pinning mark_where importance is_turn_important
    has_important_parts reconstruct reconstruct_loop
prune_run = refl

prune-PrunedTo_example : PrunedTo 1 long_turns (request two_sessions) short
prune-PrunedTo_example =
    prune-PrunedTo none none 1 (request two_sessions) (omega arith) long_turns_run prune_run

prune-protected_example :
    (kept : List Turn) × (items short.history ≡ map some (concat kept))
    × (pinned_of (concat kept) ≡ pinned_of (concat long_turns))
    × (tool_calls (concat kept) ≡ tool_calls (concat long_turns))
    × (front : List Turn) × IsSelection front (take (length long_turns - 1) long_turns)
    × (kept ≡ front ++ drop (length long_turns - 1) long_turns)
prune-protected_example =
    prune-protected none none 1 (request two_sessions) (omega arith) long_turns_run prune_run

abbrev warned : List Message
warned = messages_of (inject_warning (codes "careful") session)

warned_run : inject_warning (codes "careful") session ≡ ok warned
unfolding inject_warning inject_last reverse_onto shown_in parts_contain contains
warned_run = refl

inject_warning-Outcome_example : Outcome (codes "careful") session warned
inject_warning-Outcome_example = inject_warning-Outcome (codes "careful") session warned_run

inject_warning_idem_example : inject_warning (codes "careful") warned ≡ ok warned
inject_warning_idem_example = inject_warning_idem (codes "careful") session warned_run

abbrev blank : Content
blank = say user (some (record hello { text = [] }) ∷ [])

abbrev gapped : Request
gapped = request (some question ∷ some reply ∷ some blank ∷ some question ∷ some reply ∷ [])

abbrev filtered : Request
filtered = request_of (filter_empty_turns none gapped)

filtered_run : filter_empty_turns none gapped ≡ ok filtered
unfolding filter_empty_turns group_turns group_loop validate_turn_content is_turn_boundary bytes_eq
    is_user_turn_boundary is_model_tool_call_boundary is_tool_call is_tool_call_parts filter_turns
    is_turn_empty are_parts_empty is_empty
filtered_run = refl

filter_empty_turns-held_example : held (items filtered.history) ≡ held (items gapped.history)
filter_empty_turns-held_example = filter_empty_turns-held none gapped filtered_run
