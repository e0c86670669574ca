-- ===== src/Security/Shell/Direct.antt =====
-- Commands that need no shell are not refused.
use tell_me_go.Base.{
  Bool, true, false, ◌≡◌, refl, ◌&&◌, List, [], ◌∷◌, Bytes, Bool-cases, inl, inr, arith,
  if◌then◌else◌,
}
use tell_me_go.Errors.{ok}
use tell_me_go.Security.Policy.{
  has_forbidden_operators, has_unsafe_interpolation, has_forbidden_chars_in_command,
}
use tell_me_go.Security.Validator.{Validator}
use tell_me_go.Security.Shell.{
  is_explicit_shell, validate_tokens, validate_structure, has_shell_special_chars,
  is_complex_command_token, has_special_token, has_shell_features,
}

no_then_true : (b c : Bool) → (if b then true else c) ≡ false → (b ≡ false) × (c ≡ false)
no_then_true b c h = ground arith

first_plain :
    (first forbidden other : Bool)
    → (first && (if forbidden then true else other)) ≡ false
    → (first && forbidden) ≡ false
first_plain first forbidden other h = ground arith

tokens_ok :
    (v : Validator) (first : Bool) (ps : List Bytes)
    → has_special_token v first ps ≡ false
    → validate_tokens first ps ≡ ok tt
unfolding has_special_token validate_tokens
tokens_ok v first [] h = refl
tokens_ok v first (p ∷ ps) h =
    let (chars, h1) = no_then_true (has_shell_special_chars p) _ h in
    let (plain, others) = no_then_true (has_unsafe_interpolation p) _ chars in
    let (token, rest) = no_then_true (first && is_complex_command_token v p) _ h1 in
    rw (plain, first_plain first (has_forbidden_chars_in_command p) _ token)
      (tokens_ok v false ps rest)

-- A command in which no shell feature is found passes the check of its structure.
pub has_shell_features-validate_structure :
    (v : Validator) (parts : List Bytes)
    → has_shell_features v parts ≡ false
    → validate_structure parts ≡ ok tt
unfolding has_shell_features validate_structure
has_shell_features-validate_structure v [] h = refl
has_shell_features-validate_structure v (p ∷ ps) h = elim (Bool-cases (is_explicit_shell p)) [
  | inl shell ↦ rw shell refl
  | inr other ↦
      let (plain, rest) = no_then_true (has_forbidden_operators (p ∷ ps)) _ (rw other at h) in
      rw (other, plain) (tokens_ok v true (p ∷ ps) rest)
]
