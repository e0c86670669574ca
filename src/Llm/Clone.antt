-- ===== src/Llm/Clone.antt =====
-- internal/domain/llm/types.go: the deep copies, field by field, and `equal`. Values here have no
-- identity, so a copy that misses no field is the value itself; a decoded JSON value is copied entry
-- by entry (`cloneValue`).
pub mod Copies
use tell_me_go.Base.{
  Bool, false, true, ◌&&◌, ◌||◌, not, List, [], ◌∷◌, Option, none, some, bytes_eq, bool_eq, length,
  ◌==◌, if◌then◌else◌,
}
use tell_me_go.Errors.{Result, ok, err, nil_dereference}
use tell_me_go.Llm.{
  Value, null, str, num, bool, obj, arr, opaque_value, Fields, end, field, Items, nil, cons, Blob,
  FunctionCall, FunctionResponse, Part, Content,
}

unfoldable mutual
  pub clone_value : Value → Value
  clone_value (obj fs) = obj (clone_fields fs)
  clone_value (arr xs) = arr (clone_items xs)
  clone_value null = null
  clone_value (str s) = str s
  clone_value num = num
  clone_value (bool b) = bool b
  clone_value opaque_value = opaque_value

  pub clone_fields : Fields → Fields
  clone_fields end = end
  clone_fields (field k v fs) = field k (clone_value v) (clone_fields fs)

  pub clone_items : Items → Items
  clone_items nil = nil
  clone_items (cons v xs) = cons (clone_value v) (clone_items xs)

unfoldable pub clone_args : Option Fields → Option Fields
clone_args none = none
clone_args (some fs) = some (clone_fields fs)

unfoldable pub clone_blob : Option Blob → Option Blob
clone_blob none = none
clone_blob (some b) = some (record { mime_type = b.mime_type; payload = b.payload })

unfoldable pub clone_call : Option FunctionCall → Option FunctionCall
unfolding clone_args
clone_call none = none
clone_call (some c) = some (record { id = c.id; name = c.name; args = clone_args c.args })

unfoldable pub clone_response : Option FunctionResponse → Option FunctionResponse
unfolding clone_args
clone_response none = none
clone_response (some r) =
    some (record { id = r.id; name = r.name; response = clone_args r.response })

unfoldable pub clone_part : Part → Part
unfolding clone_blob clone_call clone_response
clone_part p = record {
  text = p.text;
  inline_data = clone_blob p.inline_data;
  function_call = clone_call p.function_call;
  function_response = clone_response p.function_response;
  is_thought = p.is_thought;
  thought_signature = p.thought_signature;
  asset_id = p.asset_id;
}

unfoldable pub clone_parts : List (Option Part) → List (Option Part)
unfolding clone_part
clone_parts [] = []
clone_parts (none ∷ ps) = none ∷ clone_parts ps
clone_parts (some p ∷ ps) = some (clone_part p) ∷ clone_parts ps

unfoldable pub clone_content : Content → Content
unfolding clone_parts
clone_content c = record {
  role = c.role;
  id = c.id;
  parts = clone_parts c.parts;
  token_count = c.token_count;
  pinned = c.pinned;
  transient_parts = clone_parts c.transient_parts;
}

-- `equal`. `reflect.DeepEqual` on the arguments of two calls is a parameter.
module _ (deep_equal : Option Fields → Option Fields → Bool) where
  unfoldable pub equal_blob : Option Blob → Option Blob → Bool
  equal_blob none none = true
  equal_blob (some a) (some b) = bytes_eq a.mime_type b.mime_type && bytes_eq a.payload b.payload
  equal_blob _ _ = false

  unfoldable pub equal_call : Option FunctionCall → Option FunctionCall → Bool
  equal_call none none = true
  equal_call (some a) (some b) =
      if not (bytes_eq a.id b.id) || not (bytes_eq a.name b.name)
      then false
      else deep_equal a.args b.args
  equal_call _ _ = false

  unfoldable pub equal_response : Option FunctionResponse → Option FunctionResponse → Bool
  equal_response none none = true
  equal_response (some a) (some b) =
      if not (bytes_eq a.id b.id) || not (bytes_eq a.name b.name)
      then false
      else deep_equal a.response b.response
  equal_response _ _ = false

  unfoldable pub equal_part : Part → Part → Bool
  unfolding equal_blob equal_call equal_response
  equal_part p q =
      bytes_eq p.text q.text
      && bool_eq p.is_thought q.is_thought
      && bytes_eq p.asset_id q.asset_id
      && bytes_eq p.thought_signature q.thought_signature
      && equal_blob p.inline_data q.inline_data
      && equal_call p.function_call q.function_call
      && equal_response p.function_response q.function_response

  equal_parts : List (Option Part) → List (Option Part) → Result Bool
  equal_parts (some p ∷ ps) (some q ∷ qs) =
      let rest = equal_parts ps qs in if equal_part p q then rest else ok false
  equal_parts (_ ∷ ps) (_ ∷ qs) = err nil_dereference
  equal_parts _ _ = ok true

  unfoldable pub equal_content : Content → Content → Result Bool
  unfolding equal_parts equal_part
  equal_content c other =
      if not (bytes_eq c.role other.role) || not (length c.parts == length other.parts)
      then ok false
      else equal_parts c.parts other.parts
