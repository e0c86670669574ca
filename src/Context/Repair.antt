-- ===== src/Context/Repair.antt =====
-- internal/agent/session/context/transformers.go: `HistoryRepairer`. A session that stopped between
-- a tool call and its result gets an error result for each call, so that the history can be sent.
-- The random ID of the new message is an argument.
pub mod Answers
use tell_me_go.Base.{
  Bool, true, false, Bytes, codes, List, [], ◌∷◌, ◌++◌, Option, none, some, Slice, items,
  append_slice, is_nil, last?, if◌then◌else◌, not,
}
use tell_me_go.Errors.{Result, ok, fails, invalid_payload, ◌>>=◌}
use tell_me_go.Llm.{
  str, end, field, Part, FunctionCall, FunctionResponse, Content, user, model, has_role, text_part,
}
use tell_me_go.Context.{Message, Request}

abbrev interrupted : Bytes
interrupted =
    codes "error: system rebooted or session interrupted during tool execution; results lost"

abbrev pub error_response : FunctionCall → Part
error_response c = record (text_part []) {
  function_response = some (record {
    id = c.id;
    name = c.name;
    response = some (field (codes "result") (str interrupted) end);
  });
}

unfoldable pub error_responses : List (Option Part) → Result (List (Option Part))
error_responses [] = ok []
error_responses (none ∷ ps) = fails invalid_payload
error_responses (some p ∷ ps) = do
  rest ← error_responses ps
  ok (elim p.function_call [ some c ↦ some (error_response c) ∷ rest | none ↦ rest ])

abbrev pub answer : Bytes → List (Option Part) → Content
answer new_id parts = record {
  role = user;
  id = new_id;
  parts = parts;
  token_count = 0;
  pinned = false;
  transient_parts = [];
}

abbrev pub with_answer : Bytes → Request → List (Option Part) → Request
with_answer new_id req responses = if is_nil responses then req else record req {
  history = append_slice req.history (some (answer new_id responses) ∷ []);
  persist_history = true;
}

pub repair_after : Bytes → Request → Option Message → Result Request
repair_after new_id req none = ok req
repair_after new_id req (some none) = fails invalid_payload
repair_after new_id req (some (some last)) =
    if not (has_role last model)
    then ok req
    else do responses ← error_responses last.parts; ok (with_answer new_id req responses)

-- `HistoryRepairer.Transform`.
unfoldable pub repair : Bytes → Request → Result Request
unfolding repair_after
repair new_id req = repair_after new_id req (last? (items req.history))
