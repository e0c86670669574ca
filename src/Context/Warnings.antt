-- ===== src/Context/Warnings.antt =====
-- internal/agent/session/context/warning_injector.go and the validator of transformers.go: the safety
-- warnings put beside the last message, and the last check of the limits. A nil message or a nil part
-- is dereferenced where the source does it.
pub mod Injected
use tell_me_go.Base.{
  ℕ, ◌+◌, ◌*◌, ◌/◌, Bool, true, false, not, ◌&&◌, ◌||◌, List, [], ◌∷◌, ◌++◌, Option, none, some,
  Slice, items, map, Bytes, codes, bytes_eq, contains, length, take, is_nil, is_none, ltb,
  if◌then◌else◌,
}
use tell_me_go.Errors.{Result, ok, err, nil_dereference, fails, context_limit_exceeded, ◌>>=◌}
use tell_me_go.Llm.{Part, Content, text_part, user, has_role}
use tell_me_go.Llm.Clone.{clone_content}
use tell_me_go.Context.{Message, Metadata, Request}
use tell_me_go.Context.Strategy.{Strategy, get_warnings, clogged_warning}

-- The loop over the parts stops at the first tool response.
unfoldable pub has_response : List (Option Part) → Result Bool
has_response [] = ok false
has_response (none ∷ ps) = err nil_dereference
has_response (some p ∷ ps) =
    let rest = has_response ps in if is_none p.function_response then rest else ok true

-- The conversational turns: the user's messages without a tool response.
unfoldable pub count_user_turns : List Message → Result ℕ
count_user_turns [] = ok 0
count_user_turns (none ∷ ms) = err nil_dereference
count_user_turns (some m ∷ ms) = do
  response ← (if bytes_eq m.role user then has_response m.parts else ok true)
  rest ← count_user_turns ms
  ok (if response then rest else 1 + rest)

-- `combined`: the messages with a line break between them.
unfoldable pub joined : List Bytes → Bytes
joined [] = []
joined (w ∷ []) = w
joined (w ∷ w' ∷ ws) = w ++ 10 ∷ joined (w' ∷ ws)

-- `gatherWarnings`; the combined text is `joined` of the answer.
unfoldable pub gather_warnings : Strategy → Request → ℕ → ℕ → List Bytes
gather_warnings s req tokens turns =
    if (req.metadata.summarization_attempted || req.metadata.maintenance_blocked)
      && ltb (85 * s.max_history_tokens) (100 * tokens)
    then clogged_warning ∷ []
    else get_warnings s req.turn tokens turns req.metadata.pruned_turns

unfoldable pub parts_contain : Bytes → List (Option Part) → Result Bool
parts_contain text [] = ok false
parts_contain text (none ∷ ps) = err nil_dereference
parts_contain text (some p ∷ ps) =
    let rest = parts_contain text ps in if contains p.text text then ok true else rest

-- Whether one of the messages shows the text, the transient parts included.
unfoldable pub shown_in : Bytes → List Message → Result Bool
shown_in text [] = ok false
shown_in text (none ∷ ms) = err nil_dereference
shown_in text (some m ∷ ms) =
    let rest = shown_in text ms in
    (do
      canonical ← parts_contain text m.parts
      shown ← (if canonical then ok true else parts_contain text m.transient_parts)
      if shown then ok true else rest)

-- `injectWarning` on the history from its last message to its first: the four last messages are
-- searched, from the last.
unfoldable pub inject_last : Bytes → List Message → Result (List Message)
inject_last text [] = ok []
inject_last text (none ∷ ms) = err nil_dereference
inject_last text (some m ∷ ms) = do
  shown ← shown_in text (take 4 (some m ∷ ms))
  ok (
      if shown
      then some m ∷ ms
      else let cloned = clone_content m in
        some (record cloned {
          transient_parts = cloned.transient_parts ++ some (text_part (10 ∷ 10 ∷ text)) ∷ [];
        })
        ∷ ms)

unfoldable pub reverse_onto {ℓ} : {A : Type ℓ} → List A → List A → List A
reverse_onto [] acc = acc
reverse_onto (x ∷ xs) acc = reverse_onto xs (x ∷ acc)

-- `injectWarning`.
unfoldable pub inject_warning : Bytes → List Message → Result (List Message)
inject_warning text history = do
  injected ← inject_last text (reverse_onto history [])
  ok (reverse_onto injected [])

-- `WarningInjector.Transform`. No warning is the empty text, so an empty list gives an empty
-- combined text, and no other does. A nil history has no message and stays nil.
unfoldable pub inject_warnings : Strategy → Request → Result Request
inject_warnings s req = do
  turns ← count_user_turns (items req.history)
  let list = gather_warnings s req req.metadata.final_token_count turns
  if is_nil list then ok req else (do
    injected ← inject_warning (joined list) (items req.history)
    ok (record req {
      history = (if is_none req.history then none else some injected);
      metadata = record req.metadata { warnings = req.metadata.warnings ++ list };
    }))

-- `finalContextValidator.Transform`.
unfoldable pub validate_final : Strategy → Request → Result Request
validate_final s req =
    let final_tokens = s.counter (items req.history) in
    if ltb s.max_history_tokens final_tokens
    then fails context_limit_exceeded
    else ok (record req {
      metadata = record req.metadata {
        final_token_count = final_tokens;
        final_turn_count = length (items req.history) / 2;
      };
    })
