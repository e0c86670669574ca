-- ===== src/Examples/Commands.antt =====
-- Commands, cut at spaces, and the theorems at them.
use tell_me_go.Security.Shell.{dash_parts}
use tell_me_go.Security.Shell.{is_cmdlet}
use tell_me_go.Security.Policy.{contains_any}
use tell_me_go.Security.Shell.{has_special_token}
use tell_me_go.Security.Policy.{has_forbidden_operators}
use tell_me_go.Base.{bytes_eq}
use tell_me_go.Security.Policy.{has_name}
use tell_me_go.Base.{contains}
use tell_me_go.Base.{
  ℕ, false, not, ◌≡◌, refl, List, [], ◌∷◌, Bytes, codes, some, has_prefix, ◌==◌, if◌then◌else◌,
}
use tell_me_go.Errors.{ok}
use tell_me_go.Security.Policy.{default_policy}
use tell_me_go.Security.Quotes.{normalize, raw_pipes_all_quoted, has_bare_newline, pipe, line_feed}
use tell_me_go.Security.Quotes.Bare.{has_bare, in_open, raw_pipes_all_quoted-has_bare_newline}
use tell_me_go.Security.Quotes.Settled.{normalize_idem}
use tell_me_go.Security.Validator.{Validator}
use tell_me_go.Security.Shell.{has_shell_features, validate_structure}
use tell_me_go.Security.Shell.Direct.{has_shell_features-validate_structure}

-- The words of a text: the first word of the rest grows to the left.
abbrev grow : ℕ → List Bytes → List Bytes
grow b [] = (b ∷ []) ∷ []
grow b (w ∷ ws) = (b ∷ w) ∷ ws

abbrev words : Bytes → List Bytes
words [] = [] ∷ []
words (b ∷ bs) = let rest = words bs in if b == 32 then [] ∷ rest else grow b rest

abbrev validator : Validator
validator = record {
  policy = default_policy;
  shlex = λ cmd. ok (words cmd);
  to_lower = λ text. text;
  is_path_safe = some (λ path. not (has_prefix path (codes "/")));
  windows = false;
}

abbrev tests : Bytes
tests = codes "go test -run='A|B' ./pkg"

raw_pipes_all_quoted-has_bare_newline_example :
    (raw_pipes_all_quoted tests ≡ not (has_bare pipe in_open tests))
    × (has_bare_newline tests ≡ has_bare line_feed in_open tests)
raw_pipes_all_quoted-has_bare_newline_example = raw_pipes_all_quoted-has_bare_newline tests

abbrev continued : Bytes
continued = 108 ∷ 115 ∷ 92 ∷ 10 ∷ 92 ∷ 13 ∷ 34 ∷ 92 ∷ 34 ∷ 34 ∷ []

normalize_idem_example : normalize (normalize continued) ≡ normalize continued
normalize_idem_example = normalize_idem continued

abbrev listing : List Bytes
listing = codes "ls" ∷ codes "-la" ∷ codes "src" ∷ []

listing_run : has_shell_features validator listing ≡ false
unfolding has_shell_features has_name bytes_eq has_forbidden_operators has_special_token
    contains_any contains is_cmdlet dash_parts
listing_run = refl

has_shell_features-validate_structure_example : validate_structure listing ≡ ok tt
has_shell_features-validate_structure_example =
    has_shell_features-validate_structure validator listing listing_run
