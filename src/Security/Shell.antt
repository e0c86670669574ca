-- ===== src/Security/Shell.antt =====
-- internal/infrastructure/security/command_validator.go: which commands need a shell, and which are
-- refused because they look as if they did.
pub mod Direct
use tell_me_go.Base.{
  ℕ, ◌+◌, Bool, true, false, not, ◌&&◌, ◌||◌, List, [], ◌∷◌, ◌++◌, map, Option, none, some, Bytes,
  codes, bytes_eq, has_prefix, is_nil, leb, ltb, length, ◌==◌, if◌then◌else◌,
}
use tell_me_go.Errors.{Result, ok, err, fails_plain, ◌>>=◌, ◌>>◌}
use tell_me_go.Security.Policy.{
  has_name, has_forbidden_operators, has_unsafe_interpolation, has_forbidden_chars_in_command,
  contains_any,
}
use tell_me_go.Security.Quotes.{backslash}
use tell_me_go.Security.Validator.{Validator}

-- `isExplicitShell`, and the same table in `ValidateStructure`.
abbrev pub shells : List Bytes
shells =
    map codes
      ("sh" ∷ "bash" ∷ "zsh" ∷ "ksh" ∷ "csh" ∷ "cmd.exe" ∷ "cmd" ∷ "powershell" ∷ "pwsh" ∷ [])

abbrev pub is_explicit_shell : Bytes → Bool
is_explicit_shell token = has_name shells token

-- `validateTokenStructure` over the parts; the first of them is marked.
unfoldable pub validate_tokens : Bool → List Bytes → Result (Unit {0})
validate_tokens first [] = ok tt
validate_tokens first (p ∷ ps) =
    let rest = validate_tokens false ps in
    if has_unsafe_interpolation p
    then fails_plain
    else if first && has_forbidden_chars_in_command p
    then fails_plain
    else rest

-- `ValidateStructure`.
unfoldable pub validate_structure : List Bytes → Result (Unit {0})
validate_structure [] = ok tt
validate_structure (p ∷ ps) =
    if is_explicit_shell p
    then ok tt
    else if has_forbidden_operators (p ∷ ps)
    then fails_plain
    else validate_tokens true (p ∷ ps)

-- `isWindowsBuiltIn`.
abbrev pub windows_built_ins : List Bytes
windows_built_ins = map codes (
    "del" ∷ "erase" ∷ "dir" ∷ "echo" ∷ "mkdir" ∷ "md" ∷ "rmdir" ∷ "rd" ∷ "copy" ∷ "move" ∷ "ren"
    ∷ "rename" ∷ "type" ∷ "cls" ∷ "ver" ∷ "vol" ∷ "set" ∷ "path" ∷ "pause" ∷ "exit" ∷ "prompt"
    ∷ "title" ∷ "color" ∷ "start" ∷ [])

abbrev pub is_windows_built_in : Validator → Bytes → Bool
is_windows_built_in v token = has_name windows_built_ins (v.to_lower token)

-- The text in front of the first dash and behind it.
unfoldable pub dash_parts : Bytes → Option (Bytes × Bytes)
dash_parts [] = none
dash_parts (b ∷ bs) =
    let rest = dash_parts bs in
    if b == 45
    then some ([], bs)
    else elim rest [ none ↦ none | some (verb, noun) ↦ some (b ∷ verb, noun) ]

abbrev pub dashed_binaries : List Bytes
dashed_binaries =
    map codes ("apt-get" ∷ "git-lfs" ∷ "npm-check" ∷ "pip-compile" ∷ "docker-compose" ∷ [])

abbrev pub common_verbs : List Bytes
common_verbs = map codes (
    "get" ∷ "set" ∷ "new" ∷ "remove" ∷ "update" ∷ "invoke" ∷ "test" ∷ "write" ∷ "read" ∷ "copy"
    ∷ "move" ∷ "clear" ∷ "add" ∷ "out" ∷ "foreach" ∷ "where" ∷ "select" ∷ "export" ∷ "import"
    ∷ "start" ∷ "stop" ∷ "wait" ∷ "enable" ∷ "disable" ∷ [])

-- An upper case letter first.
abbrev pub starts_upper : Bytes → Bool
starts_upper [] = false
starts_upper (b ∷ bs) = leb 65 b && leb b 90

-- `isPowerShellCmdlet`.
unfoldable pub is_cmdlet : Validator → Bytes → Option (Bytes × Bytes) → Bool
is_cmdlet v token none = false
is_cmdlet v token (some (verb, noun)) =
    if is_nil verb || is_nil noun
    then false
    else if contains_any verb (codes "/" ++ backslash ∷ [])
    then false
    else if has_name dashed_binaries (v.to_lower token)
    then false
    else if ltb (length verb) 2
    then false
    else if starts_upper verb
    then true
    else has_name common_verbs (v.to_lower verb)

abbrev pub is_powershell_cmdlet : Validator → Bytes → Bool
is_powershell_cmdlet v token = is_cmdlet v token (dash_parts token)

-- `isComplexCommandToken`.
abbrev pub is_complex_command_token : Validator → Bytes → Bool
is_complex_command_token v token =
    if has_forbidden_chars_in_command token
    then true
    else if is_powershell_cmdlet v token
    then true
    else v.windows && is_windows_built_in v token

-- `hasShellSpecialChars`.
abbrev pub has_shell_special_chars : Bytes → Bool
has_shell_special_chars token =
    if has_unsafe_interpolation token then true else contains_any token (codes "*?[]>&<|")

-- The loop of `HasShellFeatures`.
unfoldable pub has_special_token : Validator → Bool → List Bytes → Bool
has_special_token v first [] = false
has_special_token v first (p ∷ ps) =
    let rest = has_special_token v false ps in
    if has_shell_special_chars p
    then true
    else if first && is_complex_command_token v p
    then true
    else rest

-- `HasShellFeatures`.
unfoldable pub has_shell_features : Validator → List Bytes → Bool
has_shell_features v [] = false
has_shell_features v (p ∷ ps) =
    if is_explicit_shell p
    then false
    else if has_forbidden_operators (p ∷ ps)
    then true
    else has_special_token v true (p ∷ ps)
