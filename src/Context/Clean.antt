-- ===== src/Context/Clean.antt =====
-- internal/agent/session/context/transformers.go: `toolResponseCleaner`, `emptyMessagePruner` and
-- `contentCleaner`. The source changes the parts of shared messages in place; here the history of
-- the request is changed, and an error abandons the request.
pub mod Cleaned
pub mod Tidied
pub mod Stage
use tell_me_go.Base.{
  Bool, true, false, not, ◌&&◌, ◌||◌, Bytes, codes, List, [], ◌∷◌, ◌++◌, Option, none, some, Slice,
  items, is_nil, if◌then◌else◌,
}
use tell_me_go.Errors.{Result, ok, fails, invalid_payload, ◌>>=◌}
use tell_me_go.Llm.{FunctionCall, FunctionResponse, Part, Content, text_part}
use tell_me_go.Llm.Parts.{is_empty}
use tell_me_go.Context.{Message, Request}

abbrev call_without_id : Option FunctionCall → Bool
call_without_id none = false
call_without_id (some c) = is_nil c.id

abbrev response_without_id : Option FunctionResponse → Bool
response_without_id none = false
response_without_id (some r) = is_nil r.id

unfoldable pub is_invalid_tool_part : Part → Bool
is_invalid_tool_part p = call_without_id p.function_call || response_without_id p.function_response

-- The parts kept, and whether one was dropped.
unfoldable pub filter_tool_parts : List (Option Part) → Result (List (Option Part) × Bool)
filter_tool_parts [] = ok ([], false)
filter_tool_parts (none ∷ ps) = fails invalid_payload
filter_tool_parts (some p ∷ ps) = do
  (kept, changed) ← filter_tool_parts ps
  ok (if is_invalid_tool_part p then (kept, true) else (some p ∷ kept, changed))

unfoldable pub clean_tool_parts : Content → Result (Content × Bool)
clean_tool_parts m = do
  (kept, changed) ← filter_tool_parts m.parts
  ok (if changed then record m { parts = kept } else m, changed)

-- The loop of `toolResponseCleaner.Transform`: a message that loses all its parts is dropped, one
-- that came without parts stays.
unfoldable pub clean_tool_history : List Message → Result (List Message × Bool)
clean_tool_history [] = ok ([], false)
clean_tool_history (none ∷ ms) = fails invalid_payload
clean_tool_history (some m ∷ ms) = do
  (m', changed) ← clean_tool_parts m
  (rest, later) ← clean_tool_history ms
  ok (if not (is_nil m'.parts) || is_nil m.parts then some m' ∷ rest else rest, changed || later)

abbrev pub replaced : Request → List Message × Bool → Request
replaced req (history, modified) =
    if modified then record req { history = some history; persist_history = true } else req

-- `toolResponseCleaner.Transform`.
unfoldable pub clean_tools : Request → Result Request
clean_tools req = do cleaned ← clean_tool_history (items req.history); ok (replaced req cleaned)

-- The loop of `emptyMessagePruner.Transform`.
unfoldable pub drop_empty_messages : List Message → Result (List Message × Bool)
drop_empty_messages [] = ok ([], false)
drop_empty_messages (none ∷ ms) = fails invalid_payload
drop_empty_messages (some m ∷ ms) = do
  (rest, modified) ← drop_empty_messages ms
  ok (if is_nil m.parts then (rest, true) else (some m ∷ rest, modified))

-- `emptyMessagePruner.Transform`.
unfoldable pub prune_empty_messages : Request → Result Request
prune_empty_messages req = do
  pruned ← drop_empty_messages (items req.history)
  ok (replaced req pruned)

-- The first pass of `cleanContent`: whether a part is empty.
unfoldable pub has_empty_part : List (Option Part) → Result Bool
has_empty_part [] = ok false
has_empty_part (none ∷ ps) = fails invalid_payload
has_empty_part (some p ∷ ps) = do later ← has_empty_part ps; ok (is_empty p || later)

unfoldable pub drop_empty_parts : List (Option Part) → List (Option Part)
drop_empty_parts [] = []
drop_empty_parts (none ∷ ps) = drop_empty_parts ps
drop_empty_parts (some p ∷ ps) =
    if not (is_empty p) then some p ∷ drop_empty_parts ps else drop_empty_parts ps

abbrev empty_response : Part
empty_response = text_part (codes "[empty response]")

unfoldable pub rebuild_clean_parts : List (Option Part) → List (Option Part)
rebuild_clean_parts ps =
    let kept = drop_empty_parts ps in if is_nil kept then some empty_response ∷ [] else kept

unfoldable pub clean_content : Content → Result (Content × Bool)
clean_content m = do
  has_empty ← has_empty_part m.parts
  ok (
      if not has_empty && not (is_nil m.parts)
      then (m, false)
      else (record m { parts = rebuild_clean_parts m.parts }, true))

-- The loop of `contentCleaner.Transform`.
unfoldable pub clean_contents : List Message → Result (List Message × Bool)
clean_contents [] = ok ([], false)
clean_contents (none ∷ ms) = fails invalid_payload
clean_contents (some m ∷ ms) = do
  (m', changed) ← clean_content m
  (rest, later) ← clean_contents ms
  ok (some m' ∷ rest, changed || later)

-- `contentCleaner.Transform`. The messages are changed in place, so the history is the cleaned one
-- whether or not it is to be stored.
unfoldable pub clean_parts : Request → Result Request
clean_parts req = do
  (history, modified) ← clean_contents (items req.history)
  ok (replaced req (history, modified))
