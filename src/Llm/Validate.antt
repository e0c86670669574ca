-- ===== src/Llm/Validate.antt =====
-- internal/domain/llm/types.go: `Validate` drops nil parts, `ValidateStructure` refuses them.
use tell_me_go.Base.{◌≡◌, refl, List, [], ◌∷◌, Option, none, some, arith}
use tell_me_go.Errors.{Result, ok, fails_plain, ◌>>◌}
use tell_me_go.Llm.{Part, Content}

unfoldable pub drop_nil : List (Option Part) → List (Option Part)
drop_nil [] = []
drop_nil (none ∷ ps) = drop_nil ps
drop_nil (some p ∷ ps) = some p ∷ drop_nil ps

unfoldable pub validate : Content → Content
unfolding drop_nil
validate c = record c { parts = drop_nil c.parts; transient_parts = drop_nil c.transient_parts }

unfoldable pub no_nil : List (Option Part) → Result (Unit {0})
no_nil [] = ok tt
no_nil (none ∷ ps) = fails_plain
no_nil (some p ∷ ps) = no_nil ps

unfoldable pub validate_structure : Option Content → Result (Unit {0})
unfolding no_nil
validate_structure none = fails_plain
validate_structure (some c) = do no_nil c.parts; no_nil c.transient_parts

no_nil-drop_nil : (ps : List (Option Part)) → no_nil (drop_nil ps) ≡ ok tt
unfolding no_nil drop_nil
no_nil-drop_nil [] = refl
no_nil-drop_nil (none ∷ ps) = no_nil-drop_nil ps
no_nil-drop_nil (some p ∷ ps) = no_nil-drop_nil ps

drop_nil_of_no_nil : (ps : List (Option Part)) → no_nil ps ≡ ok tt → drop_nil ps ≡ ps
unfolding no_nil drop_nil
drop_nil_of_no_nil [] h = refl
drop_nil_of_no_nil (none ∷ ps) h = cc
drop_nil_of_no_nil (some p ∷ ps) h = cc (drop_nil_of_no_nil ps h)

-- A message that `Validate` has cleaned passes `ValidateStructure`.
validate_structure-validate : (c : Content) → validate_structure (some (validate c)) ≡ ok tt
unfolding validate validate_structure
validate_structure-validate c = rw (no_nil-drop_nil c.parts) (no_nil-drop_nil c.transient_parts)

-- A message that passes `ValidateStructure` is left as it is by `Validate`.
validate-unchanged : (c : Content) → validate_structure (some c) ≡ ok tt → validate c ≡ c
unfolding validate validate_structure
validate-unchanged c h =
    ground (arith, drop_nil_of_no_nil c.parts, drop_nil_of_no_nil c.transient_parts)
