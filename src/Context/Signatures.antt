-- ===== src/Context/Signatures.antt =====
-- internal/agent/session/context/transformers.go: `thoughtSignaturePropagator`. In a message of the
-- model every function call gets the first signature that a part of the message carries.
pub mod Carried
use tell_me_go.Base.{
  Bool, true, false, not, ◌&&◌, ◌||◌, Bytes, List, [], ◌∷◌, Option, none, some, items, is_none,
  is_nil, if◌then◌else◌,
}
use tell_me_go.Errors.{Result, ok, fails, invalid_payload, ◌>>=◌}
use tell_me_go.Llm.{Part, Content, model, has_role}
use tell_me_go.Context.{Message, Request}
use tell_me_go.Context.Clean.{replaced}

-- The empty signature stands for "none found".
unfoldable pub find_thought_signature : List (Option Part) → Result Bytes
find_thought_signature [] = ok []
find_thought_signature (none ∷ ps) = fails invalid_payload
find_thought_signature (some p ∷ ps) =
    let later = find_thought_signature ps in
    if not (is_nil p.thought_signature) then ok p.thought_signature else later

abbrev pub wants_signature : Part → Bool
wants_signature p = not (is_none p.function_call) && is_nil p.thought_signature

unfoldable pub propagate_to_calls : Bytes → List (Option Part) → Result (List (Option Part) × Bool)
propagate_to_calls signature [] = ok ([], false)
propagate_to_calls signature (none ∷ ps) = fails invalid_payload
propagate_to_calls signature (some p ∷ ps) = do
  (rest, later) ← propagate_to_calls signature ps
  ok (
      if wants_signature p
      then (some (record p { thought_signature = signature }) ∷ rest, true)
      else (some p ∷ rest, later))

unfoldable pub propagate_to_message : Content → Result (Content × Bool)
propagate_to_message m = do
  signature ← find_thought_signature m.parts
  let carried = do
    (parts, changed) ← propagate_to_calls signature m.parts
    ok (record m { parts = parts }, changed)
  if is_nil signature then ok (m, false) else carried

unfoldable pub propagate_history : List Message → Result (List Message × Bool)
propagate_history [] = ok ([], false)
propagate_history (none ∷ ms) = fails invalid_payload
propagate_history (some m ∷ ms) = do
  (m', changed) ← (if not (has_role m model) then ok (m, false) else propagate_to_message m)
  (rest, later) ← propagate_history ms
  ok (some m' ∷ rest, changed || later)

-- `thoughtSignaturePropagator.Transform`.
unfoldable pub propagate_signatures : Request → Result Request
propagate_signatures req = do
  (history, modified) ← propagate_history (items req.history)
  ok (replaced req (history, modified))
