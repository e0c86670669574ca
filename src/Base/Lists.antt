-- ===== src/Base/Lists.antt =====
-- Lists measured by native numbers, predicates over lists, and slices that may be nil.
use Prim.Native.Nat.{ℕ, zero, suc, ◌+◌}
use mathlib.Core.Path.{◌≡◌, refl, sym, ap, ◌∙◌}
use mathlib.Core.Logic.{◌≢◌, ◌⊎◌, inl, inr}
use mathlib.Core.Bool.{Bool, true, false, ◌||◌}
use mathlib.Core.List.{List, [], ◌∷◌, ◌++◌, append_assoc}
use mathlib.Core.Option.{Option, none, some}
use native.Mathlib.Omega.{arith}

module _ {ℓ} {A : Type ℓ} where
  abbrev pub length : List A → ℕ
  length [] = 0
  length (x ∷ xs) = suc (length xs)

  abbrev pub take : ℕ → List A → List A
  take zero xs = []
  take (suc n) [] = []
  take (suc n) (x ∷ xs) = x ∷ take n xs

  abbrev pub drop : ℕ → List A → List A
  drop zero xs = xs
  drop (suc n) [] = []
  drop (suc n) (x ∷ xs) = drop n xs

  -- `xs[len(xs)-1]`, where there is one.
  abbrev pub last? : List A → Option A
  last? [] = none
  last? (x ∷ []) = some x
  last? (x ∷ (y ∷ ys)) = last? (y ∷ ys)

  abbrev pub concat : List (List A) → List A
  concat [] = []
  concat (xs ∷ xss) = xs ++ concat xss

  abbrev pub any : (A → Bool) → List A → Bool
  any p [] = false
  any p (x ∷ xs) = p x || any p xs

  abbrev pub All {κ} : (A → Type κ) → List A → Type κ
  All P [] = Unit
  All P (x ∷ xs) = P x × All P xs

abbrev pub is_none {ℓ} : {A : Type ℓ} → Option A → Bool
is_none none = true
is_none (some a) = false

abbrev pub is_nil {ℓ} : {A : Type ℓ} → List A → Bool
is_nil [] = true
is_nil (x ∷ xs) = false

-- A slice: `none` is nil, which has no elements and is not the empty slice.
abbrev pub Slice {ℓ} : Type ℓ → Type ℓ
Slice A = Option (List A)

module _ {ℓ} {A : Type ℓ} where
  abbrev pub items : Slice A → List A
  items none = []
  items (some xs) = xs

  -- `append(s, xs...)`: nil stays nil where nothing is added.
  abbrev pub append_slice : Slice A → List A → Slice A
  append_slice none [] = none
  append_slice none (x ∷ xs) = some (x ∷ xs)
  append_slice (some ys) xs = some (ys ++ xs)

  pub length-append : (xs ys : List A) → length (xs ++ ys) ≡ length xs + length ys
  length-append [] ys = omega arith
  length-append (x ∷ xs) ys = omega (arith, length-append xs ys)

  pub items-append_slice : (s : Slice A) (xs : List A) → items (append_slice s xs) ≡ items s ++ xs
  items-append_slice none [] = refl
  items-append_slice none (x ∷ xs) = refl
  items-append_slice (some ys) xs = refl

  pub last?-concat : (xs : List A) (x : A) → last? (xs ++ x ∷ []) ≡ some x
  last?-concat [] x = refl
  last?-concat (y ∷ []) x = refl
  last?-concat (y ∷ (z ∷ zs)) x = last?-concat (z ∷ zs) x

  pub All-append {κ} : (P : A → Type κ) (xs ys : List A) → All P xs → All P ys → All P (xs ++ ys)
  All-append P [] ys h k = k
  All-append P (x ∷ xs) ys h k = (h.0, All-append P xs ys h.1 k)

  pub last?-cons : (x : A) (xs : List A) → (y : A) × (last? (x ∷ xs) ≡ some y)
  last?-cons x [] = (x, refl)
  last?-cons x (y ∷ ys) = last?-cons y ys

  pub List-cases : (xs : List A) → (xs ≡ []) ⊎ (xs ≢ [])
  List-cases [] = inl refl
  List-cases (x ∷ xs) = inr (λ e. cc)

  pub All-of-append {κ} : (P : A → Type κ) (xs ys : List A) → All P (xs ++ ys) → All P xs × All P ys
  All-of-append P [] ys h = (tt, h)
  All-of-append P (x ∷ xs) ys h = let r = All-of-append P xs ys h.1 in ((h.0, r.0), r.1)

  pub is_nil-eq : (xs : List A) → is_nil xs ≡ true → xs ≡ []
  is_nil-eq [] h = refl
  is_nil-eq (x ∷ xs) h = cc

  pub concat-append : (xss yss : List (List A)) → concat (xss ++ yss) ≡ concat xss ++ concat yss
  concat-append [] yss = refl
  concat-append (xs ∷ xss) yss =
      ap (◌++◌ xs) (concat-append xss yss) ∙ sym (append_assoc xs (concat xss) (concat yss))

  pub last?-none : (xs : List A) → last? xs ≡ none → xs ≡ []
  last?-none [] h = refl
  last?-none (x ∷ xs) h = let (y, e) = last?-cons x xs in cc e
