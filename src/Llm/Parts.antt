-- ===== src/Llm/Parts.antt =====
-- internal/domain/llm/types.go: `IsEmpty`, `isPure`, `canMergeWith` and `addPart`, by which streamed
-- parts are gathered into one message.
pub mod Merge
use tell_me_go.Base.{
  Bool, false, not, ◌&&◌, ◌||◌, List, [], ◌∷◌, ◌++◌, Option, none, some, is_none, is_nil, bool_eq,
  if◌then◌else◌,
}
use tell_me_go.Errors.{Result, ok, err, nil_dereference, ◌>>=◌}
use tell_me_go.Llm.{Part, Content}
use tell_me_go.Llm.Clone.{clone_part}

-- `IsEmpty`.
unfoldable pub is_empty : Part → Bool
is_empty p =
    is_nil p.text
    && is_none p.inline_data
    && is_none p.function_call
    && is_none p.function_response
    && is_nil p.asset_id
    && not p.is_thought
    && is_nil p.thought_signature

unfoldable pub is_pure : Part → Bool
is_pure p = is_none p.function_call && is_none p.function_response && is_none p.inline_data

unfoldable pub can_merge_with : Part → Part → Bool
unfolding is_pure
can_merge_with p other =
    if not (is_pure p) || not (is_pure other) then false else bool_eq p.is_thought other.is_thought

-- The text of `other` behind that of `last`; a missing signature is taken over.
unfoldable pub merge : Part → Part → Part
merge last other = record last {
  text = last.text ++ other.text;
  thought_signature =
      if is_nil last.thought_signature && not (is_nil other.thought_signature)
      then other.thought_signature
      else last.thought_signature;
}

-- The loop-free body of `addPart` over the list of parts: the last part is merged into, or a copy of
-- the new part stands behind it. A nil last part is dereferenced.
unfoldable pub add_part_to : List (Option Part) → Part → Result (List (Option Part))
unfolding merge
add_part_to [] p = ok (some (clone_part p) ∷ [])
add_part_to (none ∷ []) p = err nil_dereference
add_part_to (some last ∷ []) p =
    if can_merge_with last p
    then ok (some (merge last p) ∷ [])
    else ok (some last ∷ some (clone_part p) ∷ [])
add_part_to (q ∷ (r ∷ rs)) p = do rest ← add_part_to (r ∷ rs) p; ok (q ∷ rest)

unfoldable pub add_part : Content → Part → Result Content
add_part c p = do parts ← add_part_to c.parts p; ok (record c { parts = parts })
