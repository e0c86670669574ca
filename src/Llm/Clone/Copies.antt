-- ===== src/Llm/Clone/Copies.antt =====
-- The copies miss no field, so a copy is equal to what was copied.
use tell_me_go.Base.{◌≡◌, refl, ap, List, [], ◌∷◌, Option, none, some, arith}
use tell_me_go.Llm.{
  Value, null, str, num, bool, obj, arr, opaque_value, Fields, end, field, Items, nil, cons, Blob,
  FunctionCall, FunctionResponse, Part, Content,
}
use tell_me_go.Llm.Clone.{
  clone_value, clone_fields, clone_items, clone_args, clone_blob, clone_call, clone_response,
  clone_part, clone_parts, clone_content,
}

mutual
  unfolding clone_value clone_fields clone_items

  clone_value_lem : (v : Value) → clone_value v ≡ v
  clone_value_lem (obj fs) = ap obj (clone_fields_lem fs)
  clone_value_lem (arr xs) = ap arr (clone_items_lem xs)
  clone_value_lem null = refl
  clone_value_lem (str s) = refl
  clone_value_lem num = refl
  clone_value_lem (bool b) = refl
  clone_value_lem opaque_value = refl

  clone_fields_lem : (fs : Fields) → clone_fields fs ≡ fs
  clone_fields_lem end = refl
  clone_fields_lem (field k v fs) = cc (clone_value_lem v, clone_fields_lem fs)

  clone_items_lem : (xs : Items) → clone_items xs ≡ xs
  clone_items_lem nil = refl
  clone_items_lem (cons v xs) = cc (clone_value_lem v, clone_items_lem xs)

clone_args_lem : (a : Option Fields) → clone_args a ≡ a
unfolding clone_args
clone_args_lem none = refl
clone_args_lem (some fs) = ap some (clone_fields_lem fs)

clone_blob_lem : (b : Option Blob) → clone_blob b ≡ b
unfolding clone_blob
clone_blob_lem none = refl
clone_blob_lem (some b) = refl

clone_call_lem : (c : Option FunctionCall) → clone_call c ≡ c
unfolding clone_call
clone_call_lem none = refl
clone_call_lem (some c) = ground (arith, clone_args_lem c.args)

clone_response_lem : (r : Option FunctionResponse) → clone_response r ≡ r
unfolding clone_response
clone_response_lem none = refl
clone_response_lem (some r) = ground (arith, clone_args_lem r.response)

pub clone_part_lem : (p : Part) → clone_part p ≡ p
clone_part_lem p =
    unfold clone_part in
    ground (
      arith,
      clone_blob_lem p.inline_data,
      clone_call_lem p.function_call,
      clone_response_lem p.function_response,
    )

pub clone_parts_lem : (ps : List (Option Part)) → clone_parts ps ≡ ps
unfolding clone_parts
clone_parts_lem [] = refl
clone_parts_lem (none ∷ ps) = ap (◌∷◌ none) (clone_parts_lem ps)
clone_parts_lem (some p ∷ ps) = ground (arith, clone_part_lem p, clone_parts_lem ps)

-- A copy of a message has all its fields: role, ID, parts, token count, pin and transient parts, nil
-- parts and nil maps of arguments included.
pub clone_content_lem : (c : Content) → clone_content c ≡ c
clone_content_lem c =
    unfold clone_content in
    ground (arith, clone_parts_lem c.parts, clone_parts_lem c.transient_parts)
