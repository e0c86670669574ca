-- ===== src/Context/Transient.antt =====
-- internal/agent/session/context/transformers.go: `emptyTurnFilter` and `TransientMerger`.
pub mod Filtered
use tell_me_go.Base.{
  Bool, true, false, not, ◌&&◌, List, [], ◌∷◌, ◌++◌, none, some, items, map, length, is_nil, ◌==◌,
  if◌then◌else◌,
}
use tell_me_go.Errors.{Result, ok, fails, invalid_payload, Ctx, ◌>>=◌}
use tell_me_go.Llm.{Content}
use tell_me_go.Llm.Clone.{clone_content}
use tell_me_go.Context.{Message, Turn, Request}
use tell_me_go.Context.Turns.{group_turns, is_turn_empty}

abbrev is_single : Turn → Bool
is_single t = length t == 1

-- The loop of `emptyTurnFilter.Transform`: a single message at the end is kept as it is.
unfoldable pub filter_turns : List Turn → Result (List Message)
filter_turns [] = ok []
filter_turns (t ∷ ts) = do
  empty ← (if is_single t && is_nil ts then ok false else is_turn_empty t)
  rest ← filter_turns ts
  ok (if empty then rest else map some t ++ rest)

-- `emptyTurnFilter.Transform`.
unfoldable pub filter_empty_turns : Ctx → Request → Result Request
filter_empty_turns ctx req = do
  turns ← group_turns ctx req.history
  filtered ← filter_turns turns
  ok (
      if not (length filtered == length (items req.history))
      then record req { history = some filtered; persist_history = true }
      else req)

-- `TransientMerger.Transform` on one message and on the history.
unfoldable pub merge_transient : Content → Content
merge_transient m =
    if is_nil m.transient_parts
    then m
    else let cloned = clone_content m in
      record cloned { parts = cloned.parts ++ cloned.transient_parts }

unfoldable pub merge_history : List Message → Result (List Message)
merge_history [] = ok []
merge_history (none ∷ ms) = fails invalid_payload
merge_history (some m ∷ ms) = do rest ← merge_history ms; ok (some (merge_transient m) ∷ rest)

unfoldable pub merge_transients : Request → Result Request
merge_transients req = elim req.history [
  | none ↦ ok req
  | some ms ↦ (do merged ← merge_history ms; ok (record req { history = some merged }))
]
