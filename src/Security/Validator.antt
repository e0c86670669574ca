-- ===== src/Security/Validator.antt =====
-- internal/infrastructure/security/command_validator.go: `commandValidator`. The shell lexer
-- (`shlex.Split`), `strings.ToLower` and the check of a path are arguments.
pub mod Approved
use tell_me_go.Base.{
  ℕ, ◌+◌, Bool, true, false, not, ◌&&◌, ◌||◌, List, [], ◌∷◌, ◌++◌, map, Option, none, some, Bytes,
  codes, bytes_eq, has_prefix, contains, is_nil, ltb, leb, ◌==◌, any, drop, if◌then◌else◌,
}
use tell_me_go.Errors.{Result, ok, err, fails_plain, ◌>>=◌, ◌>>◌}
use tell_me_go.Security.Policy.{
  Policy, has_name, is_command_safe, has_forbidden_operators, has_unsafe_interpolation,
  has_forbidden_chars_in_command, contains_any,
}
use tell_me_go.Security.Quotes.{normalize, raw_pipes_all_quoted, backslash, pipe}

-- `is_path_safe` is the security manager's, which may be nil.
pub record Validator : Type 0 where
  pub policy : Policy
  pub shlex : Bytes → Result (List Bytes)
  pub to_lower : Bytes → Bytes
  pub is_path_safe : Option (Bytes → Bool)
  pub windows : Bool

unfoldable pub count_byte : ℕ → Bytes → ℕ
count_byte c [] = 0
count_byte c (b ∷ bs) = let rest = count_byte c bs in if b == c then rest + 1 else rest

unfoldable pub count_in_parts : ℕ → List Bytes → ℕ
count_in_parts c [] = 0
count_in_parts c (p ∷ ps) = count_byte c p + count_in_parts c ps

-- `isAlphanumeric` and `hasBackslashBeforeAlphanumeric`.
abbrev pub is_alphanumeric : ℕ → Bool
is_alphanumeric b = leb 97 b && leb b 122 || (leb 65 b && leb b 90 || leb 48 b && leb b 57)

unfoldable pub has_backslash_before_alphanumeric : Bytes → Bool
has_backslash_before_alphanumeric [] = false
has_backslash_before_alphanumeric (b ∷ []) = false
has_backslash_before_alphanumeric (b ∷ (c ∷ cs)) =
    let rest = has_backslash_before_alphanumeric (c ∷ cs) in
    if b == backslash && is_alphanumeric c then true else rest

abbrev pub is_likely_windows_path : Bytes → Bool
is_likely_windows_path cmd =
    if contains cmd (58 ∷ backslash ∷ []) || contains cmd (backslash ∷ backslash ∷ [])
    then true
    else has_backslash_before_alphanumeric cmd

-- `Split`, on a command that is normalized.
abbrev pub checked_parts : Bytes → List Bytes → Result (List Bytes)
checked_parts cmd parts =
    if contains cmd (backslash ∷ [])
      && (ltb (count_in_parts backslash parts) (count_byte backslash cmd)
          && is_likely_windows_path cmd)
    then fails_plain
    else ok parts

unfoldable pub split : Validator → Bytes → Result (List Bytes)
split v cmd = do parts ← v.shlex (normalize cmd); checked_parts (normalize cmd) parts

-- `extractSubcommand`: the scan behind the first part, with a flag to jump over the next one.
unfoldable pub subcommand_from : Bool → List Bytes → Bytes
subcommand_from jump [] = []
subcommand_from true (p ∷ ps) = subcommand_from false ps
subcommand_from false (p ∷ ps) =
    let rest = subcommand_from (bytes_eq p (codes "-C") || bytes_eq p (codes "-c")) ps in
    if has_prefix p (codes "-") then rest else p

abbrev pub extract_subcommand : List Bytes → Bytes
extract_subcommand parts = subcommand_from false (drop 1 parts)

-- `isSafeGit`, `isSafeGh` and `isSafeAz`, with their table.
abbrev pub is_safe_subcommand : List Bytes → List Bytes → Bool
is_safe_subcommand safe parts =
    let sub = extract_subcommand parts in if is_nil sub then false else has_name safe sub

-- `validateGoTest` and `validateGoTool`.
unfoldable pub is_valid_go_test : List Bytes → Bool
is_valid_go_test [] = true
is_valid_go_test (p ∷ ps) =
    let rest = is_valid_go_test ps in
    if has_prefix p (codes "-o") || has_prefix p (codes "--output") then false else rest

abbrev pub is_valid_go_tool : List Bytes → Bool
is_valid_go_tool parts = has_name parts (codes "cover")

abbrev pub is_safe_go : Policy → List Bytes → Bool
is_safe_go policy parts =
    let sub = extract_subcommand parts in
    if has_name policy.safe_go sub
    then (if bytes_eq sub (codes "test")
        then is_valid_go_test parts
        else if bytes_eq sub (codes "tool")
        then is_valid_go_tool parts
        else true)
    else false

-- `validateSubcommandSpecifics`.
unfoldable pub has_safe_specifics : Policy → Bytes → List Bytes → Bool
has_safe_specifics policy base parts =
    if bytes_eq base (codes "git")
    then is_safe_subcommand policy.safe_git parts
    else if bytes_eq base (codes "go")
    then is_safe_go policy parts
    else if bytes_eq base (codes "gh")
    then is_safe_subcommand policy.safe_gh parts
    else if bytes_eq base (codes "az")
    then is_safe_subcommand policy.safe_az parts
    else true

-- `allPipesInRunOrBenchFlags`, with the part before.
abbrev pub is_run_or_bench_flag : Bytes → Option Bytes → Bool
is_run_or_bench_flag part none =
    has_prefix part (codes "-run=") || has_prefix part (codes "-bench=")
is_run_or_bench_flag part (some before) =
    if has_prefix part (codes "-run=") || has_prefix part (codes "-bench=")
    then true
    else bytes_eq before (codes "-run") || bytes_eq before (codes "-bench")

unfoldable pub all_pipes_in_flags : Option Bytes → List Bytes → Bool
all_pipes_in_flags before [] = true
all_pipes_in_flags before (p ∷ ps) =
    let rest = all_pipes_in_flags (some p) ps in
    if contains p (pipe ∷ []) then (if is_run_or_bench_flag p before then rest else false) else rest

abbrev pub pipe_in_parts : Bytes → Result (List Bytes) → Bool
pipe_in_parts command (err e) = false
pipe_in_parts command (ok parts) =
    if all_pipes_in_flags none parts
    then not (contains command (codes "||")) && raw_pipes_all_quoted command
    else false

-- `isSafeGoTestPipe`.
unfoldable pub is_safe_go_test_pipe : Validator → Bytes → Bool
is_safe_go_test_pipe v command = pipe_in_parts command (split v command)

-- `hasUnsafeChars`: the characters, the exceptions, and the loop.
abbrev pub unsafe_chars : Bytes
unsafe_chars = codes "|&;><(){}$`*?[" ++ 10 ∷ 13 ∷ []

abbrev pub is_go_test : Bytes → Bool
is_go_test command = has_prefix command (codes "go test")

abbrev pub is_excepted : Validator → ℕ → Bytes → Bool
is_excepted v c command =
    if c == 36 && (is_go_test command && not (contains command (codes "$(")))
    then true
    else c == pipe && (is_go_test command && is_safe_go_test_pipe v command)

unfoldable pub without_chars : Validator → Bytes → Bytes → Bool
without_chars v command [] = true
without_chars v command (c ∷ cs) =
    let rest = without_chars v command cs in
    if contains command (c ∷ []) then (if is_excepted v c command then rest else false) else rest

-- `cleanPathArgument`.
unfoldable pub behind_equals : Bytes → Bytes
behind_equals [] = []
behind_equals (b ∷ bs) = let rest = behind_equals bs in if b == 61 then bs else rest

abbrev pub clean_path_argument : Bytes → Bytes
clean_path_argument arg =
    if is_nil arg
    then []
    else if has_prefix arg (codes "-") && not (contains arg (codes "="))
    then []
    else if contains arg (codes "=")
    then behind_equals arg
    else arg

abbrev pub is_special_pattern : Bytes → Bool
is_special_pattern arg = is_nil arg || (bytes_eq arg (codes "./...") || bytes_eq arg (codes "..."))

abbrev pub looks_like_path : Bytes → Bool
looks_like_path arg =
    contains arg (codes "/")
    || (contains arg (backslash ∷ []) || (bytes_eq arg (codes ".") || bytes_eq arg (codes "..")))

-- `validateSinglePath`.
abbrev pub has_safe_target : Option (Bytes → Bool) → Bytes → Bool
has_safe_target none arg = not (looks_like_path arg)
has_safe_target (some is_safe) arg = if is_safe arg then true else not (looks_like_path arg)

abbrev pub is_valid_path : Validator → Bytes → Bool
is_valid_path v arg =
    if is_special_pattern arg
    then true
    else if bytes_eq arg (codes "..")
    then false
    else has_safe_target v.is_path_safe arg

-- `CheckPathSafety`, behind the first part.
unfoldable pub have_safe_paths : Validator → List Bytes → Bool
have_safe_paths v [] = true
have_safe_paths v (p ∷ ps) =
    let rest = have_safe_paths v ps in
    let cleaned = clean_path_argument p in
    if is_nil cleaned then rest else if is_valid_path v cleaned then rest else false

abbrev pub check_path_safety : Validator → List Bytes → Bool
check_path_safety v parts = have_safe_paths v (drop 1 parts)

-- `IsSafe`.
unfoldable pub are_parts_safe : Validator → Bytes → Result (List Bytes) → Bool
are_parts_safe v norm (err e) = false
are_parts_safe v norm (ok []) = false
are_parts_safe v norm (ok (base ∷ args)) =
    if is_command_safe v.policy base
    then (if has_safe_specifics v.policy base (base ∷ args)
        then (if without_chars v norm unsafe_chars
            then check_path_safety v (base ∷ args)
            else false)
        else false)
    else false

unfoldable pub is_safe : Validator → Bytes → Bool
is_safe v command = are_parts_safe v (normalize command) (split v (normalize command))
