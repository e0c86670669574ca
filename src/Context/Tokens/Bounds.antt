-- ===== src/Context/Tokens/Bounds.antt =====
-- How the count behaves.
use tell_me_go.Base.{
  ℕ, ◌+◌, ◌*◌, ◌/◌, ◌≤◌, ◌≡◌, refl, ap, List, [], ◌∷◌, ◌++◌, Option, some, length, arith, is_nil,
  is_nil-eq, append-nil, Bool-cases, inl, inr,
}
use tell_me_go.Llm.{
  Value, null, str, num, bool, obj, arr, opaque_value, Fields, end, field, Items, nil, cons, Part,
  Content,
}
use tell_me_go.Llm.Clone.Copies.{clone_content_lem}
use tell_me_go.Context.Transient.{merge_transient}
use tell_me_go.Context.Tokens.{
  estimate_value, estimate_map, estimate_slice, parts_chars, content_tokens,
}

unfoldable mutual
  -- The size of a value, however deep.
  pub weight : Value → ℕ
  weight null = 4
  weight (str s) = length s
  weight num = 10
  weight (bool b) = 5
  weight (obj fs) = weight_map fs
  weight (arr xs) = 1 + weight_slice xs
  weight opaque_value = 20

  weight_map : Fields → ℕ
  weight_map end = 0
  weight_map (field k v fs) = length k + weight v + weight_map fs

  weight_slice : Items → ℕ
  weight_slice nil = 0
  weight_slice (cons x xs) = weight x + weight_slice xs

unfoldable mutual
  -- How deep the estimate goes into a value: two levels for an object, one for an array.
  pub height : Value → ℕ
  height null = 0
  height (str s) = 0
  height num = 0
  height (bool b) = 0
  height (obj fs) = 1 + height_map fs
  height (arr xs) = height_slice xs
  height opaque_value = 0

  pub height_map : Fields → ℕ
  height_map end = 0
  height_map (field k v fs) = 1 + height v + height_map fs

  pub height_slice : Items → ℕ
  height_slice nil = 0
  height_slice (cons x xs) = 1 + height x + height_slice xs

mutual
  unfolding estimate_value estimate_map estimate_slice weight weight_map weight_slice

  estimate_value-le : (v : Value) (d : ℕ) → estimate_value v d ≤ weight v
  estimate_value-le null d = ground arith
  estimate_value-le (str s) d = ground arith
  estimate_value-le num d = ground arith
  estimate_value-le (bool b) d = ground arith
  estimate_value-le (obj fs) d = ground (arith, estimate_map-le fs (d + 1))
  estimate_value-le (arr xs) d = ground (arith, estimate_slice-le xs d)
  estimate_value-le opaque_value d = ground arith

  estimate_map-le : (fs : Fields) (d : ℕ) → estimate_map fs d ≤ weight_map fs
  estimate_map-le end d = ground arith
  estimate_map-le (field k v fs) d =
      ground (arith, estimate_value-le v (d + 1), estimate_map-le fs d)

  estimate_slice-le : (xs : Items) (d : ℕ) → estimate_slice xs d ≤ weight_slice xs
  estimate_slice-le nil d = ground arith
  estimate_slice-le (cons x xs) d =
      ground (arith, estimate_value-le x (d + 1), estimate_slice-le xs d)

mutual
  unfolding estimate_value estimate_map estimate_slice weight weight_map weight_slice height
      height_map height_slice

  estimate_value-exact : (v : Value) (d : ℕ) → d + height v ≤ 100 → estimate_value v d ≡ weight v
  estimate_value-exact null d h = ground arith
  estimate_value-exact (str s) d h = ground arith
  estimate_value-exact num d h = ground arith
  estimate_value-exact (bool b) d h = ground arith
  estimate_value-exact (obj fs) d h = ground (arith, estimate_map-exact fs (d + 1))
  estimate_value-exact (arr xs) d h = ground (arith, estimate_slice-exact xs d)
  estimate_value-exact opaque_value d h = ground arith

  estimate_map-exact :
      (fs : Fields) (d : ℕ) → d + height_map fs ≤ 100 → estimate_map fs d ≡ weight_map fs
  estimate_map-exact end d h = refl
  estimate_map-exact (field k v fs) d h =
      ground (arith, estimate_value-exact v (d + 1), estimate_map-exact fs d)

  estimate_slice-exact :
      (xs : Items) (d : ℕ) → d + height_slice xs ≤ 100 → estimate_slice xs d ≡ weight_slice xs
  estimate_slice-exact nil d h = refl
  estimate_slice-exact (cons x xs) d h =
      ground (arith, estimate_value-exact x (d + 1), estimate_slice-exact xs d)

-- The depth guard only ever cuts: the estimate of a value is never above its size.
estimate_value_bound : (v : Value) → estimate_value v 0 ≤ weight v
estimate_value_bound v = estimate_value-le v 0

-- A value whose nesting stays within the guard's hundred levels is estimated at its whole size.
pub estimate_value_exact : (v : Value) → height v ≤ 100 → estimate_value v 0 ≡ weight v
estimate_value_exact v h = estimate_value-exact v 0 (omega (arith, h))

parts_chars-append :
    (ps qs : List (Option Part)) → parts_chars (ps ++ qs) ≡ parts_chars ps + parts_chars qs
unfolding parts_chars
parts_chars-append [] qs = omega arith
parts_chars-append (p ∷ ps) qs = omega (arith, parts_chars-append ps qs)

merge_transient-parts : (m : Content) → (merge_transient m).parts ≡ m.parts ++ m.transient_parts
unfolding merge_transient
merge_transient-parts m = elim (Bool-cases (is_nil m.transient_parts)) [
  | inl e ↦ rw (e, is_nil-eq m.transient_parts e, append-nil m.parts) refl
  | inr e ↦ rw (e, clone_content_lem m) refl
]

merge_transient-transient_parts :
    (m : Content) → (merge_transient m).transient_parts ≡ m.transient_parts
unfolding merge_transient
merge_transient-transient_parts m = elim (Bool-cases (is_nil m.transient_parts)) [
  | inl e ↦ rw e refl
  | inr e ↦ rw (e, clone_content_lem m) refl
]

-- Merging the transient parts of a message leaves them in place, so from then on each of their
-- characters is counted twice.
pub content_tokens-merge_transient :
    (m : Content)
    → content_tokens (some (merge_transient m))
      ≡ (parts_chars m.parts + 2 * parts_chars m.transient_parts) * 5 / 16
unfolding content_tokens
content_tokens-merge_transient m =
    rw
      (
        merge_transient-parts m,
        merge_transient-transient_parts m,
        parts_chars-append m.parts m.transient_parts,
      )
      (ap (λ n. n * 5 / 16) (omega arith))
