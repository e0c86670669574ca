-- ===== src/Examples/Limits.antt =====
-- The theorems on the limits, the summaries and the whole pipeline at concrete requests.
use tell_me_go.Examples.Messages.{request_of, messages_of}
use tell_me_go.Context.Clean.{drop_empty_parts, rebuild_clean_parts}
use tell_me_go.Context.Events.{publish_or_fail}
use tell_me_go.Context.Pruner.{
  apply_policies, has_important_parts, importance, is_turn_important, mark_sliding, mark_where,
  mark_window, pinning, reconstruct, reconstruct_loop, sliding_window,
}
use tell_me_go.Context.Standard.{pruning_policies, window_turns}
use tell_me_go.Context.Pruner.{prune}
use tell_me_go.Context.Transient.{merge_history}
use tell_me_go.Context.Transient.{merge_transients}
use tell_me_go.Context.Strategy.{history_turn_warning}
use tell_me_go.Context.Strategy.{token_warning}
use tell_me_go.Context.Strategy.{turn_warning}
use tell_me_go.Context.Strategy.{get_warnings}
use tell_me_go.Context.Warnings.{gather_warnings}
use tell_me_go.Context.Warnings.{has_response}
use tell_me_go.Context.Warnings.{count_user_turns}
use tell_me_go.Context.Warnings.{inject_warnings}
use tell_me_go.Context.Turns.{are_parts_empty}
use tell_me_go.Context.Turns.{is_turn_empty}
use tell_me_go.Context.Transient.{filter_turns}
use tell_me_go.Context.Transient.{filter_empty_turns}
use tell_me_go.Context.Warnings.{validate_final}
use tell_me_go.Context.Pipeline.{transient_of}
use tell_me_go.Context.Pipeline.{persist_changes}
use tell_me_go.Context.Signatures.{propagate_to_calls}
use tell_me_go.Context.Signatures.{find_thought_signature}
use tell_me_go.Context.Signatures.{propagate_to_message}
use tell_me_go.Llm.Parts.{is_empty}
use tell_me_go.Context.Signatures.{propagate_history}
use tell_me_go.Context.Gatekeeper.{validate_hard_limits}
use tell_me_go.Context.Tokens.{estimate_map}
use tell_me_go.Context.Tokens.{args_size}
use tell_me_go.Context.Signatures.{propagate_signatures}
use tell_me_go.Context.Clean.{has_empty_part}
use tell_me_go.Context.Clean.{clean_content}
use tell_me_go.Context.Clean.{clean_contents}
use tell_me_go.Context.Clean.{clean_parts}
use tell_me_go.Context.Clean.{is_invalid_tool_part}
use tell_me_go.Context.Clean.{drop_empty_messages}
use tell_me_go.Context.Clean.{prune_empty_messages}
use tell_me_go.Context.Clean.{filter_tool_parts}
use tell_me_go.Context.Clean.{clean_tool_parts}
use tell_me_go.Context.Clean.{clean_tool_history}
use tell_me_go.Context.Clean.{clean_tools}
use tell_me_go.Context.Repair.{error_responses}
use tell_me_go.Context.Repair.{repair}
use tell_me_go.Context.Pipeline.{insert_by_priority}
use tell_me_go.Context.Standard.{before_last}
use tell_me_go.Context.Pipeline.{canonical_of}
use tell_me_go.Context.Summary.{close_summary}
use tell_me_go.Context.Summary.{open_summary}
use tell_me_go.Context.Summary.{locate_loop}
use tell_me_go.Context.Tokens.{part_chars}
use tell_me_go.Context.Tokens.{history_tokens}
use tell_me_go.Context.Tokens.{declaration_overhead}
use tell_me_go.Context.Gatekeeper.{handle_safety_pressure}
use tell_me_go.Context.Turns.{is_tool_call_parts}
use tell_me_go.Context.Turns.{is_tool_call}
use tell_me_go.Context.Turns.{is_model_tool_call_boundary}
use tell_me_go.Context.Turns.{is_user_turn_boundary}
use tell_me_go.Base.{bytes_eq}
use tell_me_go.Context.Turns.{is_turn_boundary}
use tell_me_go.Context.Turns.{validate_turn_content}
use tell_me_go.Context.Turns.{group_loop}
use tell_me_go.Context.Turns.{group_turns}
use tell_me_go.Base.{
  ℕ, ◌≡◌, refl, ◌≤◌, ◌*◌, ◌+◌, ◌/◌, true, false, codes, List, [], ◌∷◌, none, some, items, take,
  drop, arith, bytes_eq, map, concat,
}
use tell_me_go.Errors.{Result, ok, err}
use tell_me_go.Llm.{Value, str, arr, nil, cons, Content, text_part}
use tell_me_go.Context.{Message, Turn, Request}
use tell_me_go.Context.Transient.{merge_transient}
use tell_me_go.Context.Summary.{
  Range, contiguous_unpinned, locate_candidate_block, find_summarizable_range, apply_summary,
}
use tell_me_go.Context.Summary.Covered.{Covers, find_summarizable_range-Covers}
use tell_me_go.Context.Summary.Roles.{Alternates, apply_summary-Alternates}
use tell_me_go.Context.Gatekeeper.{Gatekeeper, system_context_buffer, effective_limit, gatekeep}
use tell_me_go.Context.Gatekeeper.Limits.{gatekeep-within_limit}
use tell_me_go.Context.Tokens.{estimate_value, parts_chars, content_tokens, count}
use tell_me_go.Context.Tokens.Bounds.{
  weight, height, height_map, height_slice, estimate_value_exact, content_tokens-merge_transient,
}
use tell_me_go.Context.Strategy.{new_strategy}
use tell_me_go.Context.Pipeline.{
  Transformer, insertion_sort, new_pipeline, execute, execute_with_persistence,
}
use tell_me_go.Context.Pipeline.Order.{
  of_priority, IsOrdered, insertion_sort-IsOrdered, new_pipeline_lem,
}
use tell_me_go.Context.Pipeline.Run.{execute_with_persistence_ok}
use tell_me_go.Context.Standard.{
  Limits, Factory, final_validator, cleaners, before_last, build_standard_pipeline,
}
use tell_me_go.Context.Standard.Limit.{standard-within_limit}
use tell_me_go.Examples.Messages.{question, reply, session, request}

abbrev range_or_empty : Result Range → Range
range_or_empty (ok r) = r
range_or_empty (err e) = record { start = 0; stop = 0; num_turns = 0 }

abbrev estimator : List Message → ℕ
estimator = count []

abbrev keeper : Gatekeeper
keeper = record {
  max_tokens = 10000;
  estimate = estimator;
  summarizer = none;
  bus = none;
  selector = contiguous_unpinned;
  id1 = codes "s1";
  id2 = codes "s2";
}

abbrev passed : Request
passed = request_of (gatekeep none keeper (request session))

passed_run : gatekeep none keeper (request session) ≡ ok passed
unfolding gatekeep group_turns group_loop validate_turn_content is_turn_boundary bytes_eq
    is_user_turn_boundary is_model_tool_call_boundary is_tool_call is_tool_call_parts
    handle_safety_pressure count declaration_overhead history_tokens content_tokens parts_chars
    part_chars args_size estimate_map validate_hard_limits effective_limit
passed_run = refl

gatekeep-within_limit_example :
    (passed.metadata.final_token_count ≡ estimator (items passed.history))
    × (passed.metadata.final_token_count ≤ effective_limit 10000 system_context_buffer false)
gatekeep-within_limit_example =
    gatekeep-within_limit none keeper (request session) (omega arith) passed_run

-- Six turns of a question and a reply.
abbrev exchanges : List Message
exchanges =
    some question
    ∷ some reply
    ∷ some question
    ∷ some reply
    ∷ some question
    ∷ some reply
    ∷ some question
    ∷ some reply
    ∷ some question
    ∷ some reply
    ∷ some question
    ∷ some reply
    ∷ []

abbrev exchange_turns : List Turn
exchange_turns = (question ∷ reply ∷ []) ∷ (question ∷ reply ∷ []) ∷ (question ∷ reply ∷ []) ∷ []

abbrev found : Range
found = range_or_empty (find_summarizable_range none contiguous_unpinned (some exchanges))

found_run : find_summarizable_range none contiguous_unpinned (some exchanges) ≡ ok found
unfolding find_summarizable_range group_turns group_loop validate_turn_content is_turn_boundary
    bytes_eq is_user_turn_boundary is_model_tool_call_boundary is_tool_call is_tool_call_parts
    locate_candidate_block locate_loop
found_run = refl

find_summarizable_range-Covers_example :
    (turns : List Turn) × (group_turns none (some exchanges) ≡ ok turns)
    × (map some (concat turns) ≡ exchanges)
    × Covers turns found
find_summarizable_range-Covers_example =
    find_summarizable_range-Covers none (some exchanges) found_run

located_run : locate_candidate_block none exchange_turns 2 contiguous_unpinned ≡ (some 0, 2)
unfolding locate_candidate_block locate_loop
located_run = refl

abbrev shortened : List Message
shortened = messages_of (apply_summary (codes "s1") (codes "s2") exchanges 0 4 (codes "short"))

shortened_run : apply_summary (codes "s1") (codes "s2") exchanges 0 4 (codes "short") ≡ ok shortened
unfolding apply_summary open_summary close_summary
shortened_run = refl

start-Alternates : Alternates (take 0 exchanges)
start-Alternates = (true, tt)

rest-Alternates : Alternates (drop 4 exchanges)
unfolding bytes_eq
rest-Alternates = (true, (refl, (refl, (refl, (refl, (refl, (refl, (refl, (refl, tt)))))))))

apply_summary-Alternates_example : Alternates shortened
apply_summary-Alternates_example =
    apply_summary-Alternates (codes "s1") (codes "s2") exchanges 0 4 (codes "short")
      start-Alternates rest-Alternates shortened_run

abbrev texts : Value
texts = arr (cons (str (codes "one")) (cons (str (codes "three")) nil))

low : height texts ≤ 100
unfolding height height_map height_slice
low = omega arith

estimate_value_exact_example : estimate_value texts 0 ≡ weight texts
estimate_value_exact_example = estimate_value_exact texts low

abbrev noted : Content
noted = record question { transient_parts = some (text_part (codes "careful")) ∷ [] }

content_tokens-merge_transient_example :
    content_tokens (some (merge_transient noted))
    ≡ (parts_chars noted.parts + 2 * parts_chars noted.transient_parts) * 5 / 16
content_tokens-merge_transient_example = content_tokens-merge_transient noted

abbrev factory : Factory
factory = record {
  strategy = new_strategy estimator;
  summarizer = none;
  bus = none;
  precise = true;
  repair_id = codes "r";
  summary_id1 = codes "s1";
  summary_id2 = codes "s2";
  long_sort = insertion_sort;
}

abbrev limits : Limits
limits = record { max_history_tokens = 120000; max_history_turns = 10 }

abbrev prepared : Request
prepared = request_of (
    execute_with_persistence none (build_standard_pipeline factory limits []) none
      (request session))

prepared_run :
    execute_with_persistence none (build_standard_pipeline factory limits []) none (request session)
    ≡ ok prepared
unfolding execute_with_persistence execute canonical_of build_standard_pipeline new_pipeline
    insertion_sort before_last insert_by_priority repair bytes_eq error_responses clean_tools
    clean_tool_history clean_tool_parts filter_tool_parts prune_empty_messages drop_empty_messages
    is_invalid_tool_part clean_parts clean_contents clean_content has_empty_part
    propagate_signatures propagate_history is_empty propagate_to_message find_thought_signature
    propagate_to_calls gatekeep group_turns group_loop validate_turn_content is_turn_boundary
    is_user_turn_boundary is_model_tool_call_boundary is_tool_call is_tool_call_parts
    handle_safety_pressure new_strategy count declaration_overhead history_tokens content_tokens
    parts_chars part_chars args_size estimate_map validate_hard_limits effective_limit
    filter_empty_turns filter_turns is_turn_empty are_parts_empty persist_changes transient_of
    inject_warnings count_user_turns has_response gather_warnings get_warnings turn_warning
    token_warning history_turn_warning merge_transients merge_history prune merge_transient
    drop_empty_parts rebuild_clean_parts publish_or_fail apply_policies has_important_parts
    importance is_turn_important mark_sliding mark_where mark_window pinning reconstruct
    reconstruct_loop sliding_window pruning_policies window_turns validate_final
prepared_run = refl

standard-within_limit_example :
    (prepared.metadata.final_token_count ≡ factory.strategy.counter (items prepared.history))
    × (factory.strategy.counter (items prepared.history) ≤ factory.strategy.max_history_tokens)
standard-within_limit_example =
    standard-within_limit none factory limits [] none (request session) tt
      (unfold before_last in omega arith) prepared_run

abbrev unordered : List Transformer
unordered = final_validator factory ∷ cleaners

new_pipeline_lem_example :
    IsOrdered (new_pipeline insertion_sort unordered)
    × (of_priority 5 (new_pipeline insertion_sort unordered) ≡ of_priority 5 unordered)
new_pipeline_lem_example = new_pipeline_lem 5 insertion_sort unordered (omega arith)

abbrev ran : Request
ran =
    request_of
      (execute_with_persistence none (new_pipeline insertion_sort unordered) none (request session))

ran_run :
    execute_with_persistence none (new_pipeline insertion_sort unordered) none (request session)
    ≡ ok ran
unfolding execute_with_persistence execute canonical_of new_pipeline insertion_sort
    insert_by_priority clean_tools clean_tool_history clean_tool_parts filter_tool_parts
    prune_empty_messages drop_empty_messages is_invalid_tool_part clean_parts clean_contents
    clean_content has_empty_part propagate_signatures propagate_history is_empty bytes_eq
    propagate_to_message find_thought_signature propagate_to_calls persist_changes transient_of
    validate_final new_strategy count declaration_overhead history_tokens content_tokens parts_chars
    part_chars args_size estimate_map
ran_run = refl

execute_with_persistence_ok_example :
    execute none (new_pipeline insertion_sort unordered) (request session) ≡ ok ran
execute_with_persistence_ok_example =
    execute_with_persistence_ok none insertion_sort unordered none (request session)
      insertion_sort-IsOrdered ran_run
