-- ===== src/History/Edit.antt =====
-- internal/infrastructure/history/history.go: the parts of a turn whose text or thought is edited.
pub mod Kept
use tell_me_go.Base.{
  ℕ, zero, suc, ◌+◌, Bool, true, false, not, ◌&&◌, List, [], ◌∷◌, ◌++◌, Option, none, some, Bytes,
  is_nil, length, leb, if◌then◌else◌,
}
use tell_me_go.Errors.{Result, ok, err, nil_dereference, ◌>>=◌}
use tell_me_go.Llm.{Part, text_part}

-- `isNonTextNonThought`.
abbrev pub is_other : Part → Bool
is_other p = not p.is_thought && is_nil p.text

-- `findTextReplacementIndex` with the count so far; `none` is -1.
unfoldable pub text_index : List Part → ℕ → Option ℕ
text_index [] i = none
text_index (p ∷ ps) i =
    let rest = text_index ps i in
    let next = text_index ps (i + 1) in
    if p.is_thought then rest else if not (is_nil p.text) then some i else next

unfoldable pub others : List Part → List Part
others [] = []
others (p ∷ ps) = let rest = others ps in if is_other p then p ∷ rest else rest

-- `append(xs[:i], append([x], xs[i:]...)...)`, where `i` is at most the length.
unfoldable pub insert_at {ℓ} : {A : Type ℓ} → ℕ → A → List A → List A
insert_at zero x xs = x ∷ xs
insert_at (suc i) x [] = x ∷ []
insert_at (suc i) x (y ∷ ys) = y ∷ insert_at i x ys

-- The insertion of both helpers: at the index, where it is one of the parts, and else at the end.
unfoldable pub insert_or_append : Option ℕ → Part → List Part → List Part
insert_or_append none x ps = ps ++ x ∷ []
insert_or_append (some i) x ps = if leb i (length ps) then insert_at i x ps else ps ++ x ∷ []

-- `rebuildTextParts` with `insertTextAtPosition`.
unfoldable pub rebuild_text_parts : List Part → Bytes → List Part
rebuild_text_parts original text =
    if is_nil text
    then others original
    else insert_or_append (text_index original 0) (text_part text) (others original)

-- `findThoughtIndex`.
unfoldable pub thought_index : List Part → ℕ → Option ℕ
thought_index [] i = none
thought_index (p ∷ ps) i =
    let rest = thought_index ps (i + 1) in if p.is_thought then some i else rest

abbrev pub thought_part : Bytes → Part
thought_part text = record (text_part text) { is_thought = true }

-- `insertThoughtIfPresent`.
unfoldable pub insert_thought : List Part → List Part → Bytes → List Part
insert_thought parts original thought =
    if is_nil thought
    then parts
    else insert_or_append (thought_index original 0) (thought_part thought) parts

-- `collectUpdatedParts`.
unfoldable pub collect_updated_parts : List Part → Bytes → Bytes → List Part
collect_updated_parts original text thought =
    insert_thought (rebuild_text_parts original text) original thought
