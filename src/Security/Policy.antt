-- ===== src/Security/Policy.antt =====
-- internal/domain/security/policy.go and service.go: the tables of commands, and the questions about them.
-- A map from names to true is the list of the names.
use tell_me_go.Base.{
  Bool, true, false, List, [], ◌∷◌, ◌++◌, map, Bytes, codes, bytes_eq, has_prefix, contains,
  if◌then◌else◌,
}

abbrev pub shell_commands : List Bytes
shell_commands = map codes (
    "go" ∷ "git" ∷ "gh" ∷ "az" ∷ "ls" ∷ "grep" ∷ "cat" ∷ "diff" ∷ "whoami" ∷ "stat" ∷ "find" ∷ "sh"
    ∷ "make" ∷ "npm" ∷ "node" ∷ "cargo" ∷ "pytest" ∷ "python" ∷ "python3" ∷ "pwd" ∷ "echo" ∷ "head"
    ∷ "tail" ∷ "wc" ∷ "date" ∷ "golangci-lint" ∷ "staticcheck" ∷ "govulncheck" ∷ "cp" ∷ "mv" ∷ "rm"
    ∷ "mkdir" ∷ "touch" ∷ "chmod" ∷ "chown" ∷ "tar" ∷ "zip" ∷ "unzip" ∷ "curl" ∷ "wget" ∷ [])

abbrev pub filesystem_tools : List Bytes
filesystem_tools = map codes (
    "list_files" ∷ "get_tree" ∷ "read_files" ∷ "search_files" ∷ "replace_text" ∷ "find_file"
    ∷ "write_file" ∷ "delete_path" ∷ "create_directory" ∷ "append_text" ∷ "get_file_diff"
    ∷ "undo_file_change" ∷ "register_safepath" ∷ "list_safepaths" ∷ "remove_safepath"
    ∷ "register_readpath" ∷ "list_readpaths" ∷ "remove_readpath" ∷ [])

abbrev pub code_analysis_tools : List Bytes
code_analysis_tools = map codes (
    "load_toolkit" ∷ "get_definitions" ∷ "get_file_skeleton" ∷ "verify_architecture"
    ∷ "get_code_health" ∷ "find_usages" ∷ "find_definitions" ∷ "list_symbols"
    ∷ "list_implementations" ∷ "get_type_info" ∷ "get_project_summary" ∷ "search_usages_globally"
    ∷ "get_semantic_diff" ∷ "rename_symbol" ∷ "list_todos" ∷ "go_doc" ∷ "get_complexity_metrics"
    ∷ "get_package_graph" ∷ "analyze_sequence_flow" ∷ "get_detailed_coverage" ∷ "dead_code_graph"
    ∷ "generate_mermaid_diagram" ∷ "move_definition" ∷ "check_vulnerabilities" ∷ "run_linter" ∷ [])

abbrev pub development_tools : List Bytes
development_tools = map codes (
    "execute_command" ∷ "pipe_commands" ∷ "run_tests" ∷ "go_tidy" ∷ "get_coverage" ∷ "run_benchmark"
    ∷ [])

abbrev pub git_tools : List Bytes
git_tools = map codes (
    "get_git_status" ∷ "get_git_diff" ∷ "get_git_log" ∷ "get_git_show" ∷ "get_git_blame"
    ∷ "git_commit" ∷ "git_create_branch" ∷ [])

abbrev pub communication_tools : List Bytes
communication_tools = map codes (
    "send_teams_message" ∷ "read_external_docs" ∷ "http_request" ∷ "confluence_search"
    ∷ "confluence_read" ∷ "confluence_write" ∷ "jira_search_issues" ∷ "jira_get_issue" ∷ [])

abbrev pub azure_devops_tools : List Bytes
azure_devops_tools = map codes (
    "ado_get_pull_request" ∷ "ado_list_pull_requests" ∷ "ado_get_pr_diff" ∷ "ado_get_pr_threads"
    ∷ "ado_get_file_content" ∷ "ado_list_repository_items" ∷ "ado_list_pipelines"
    ∷ "ado_list_pipeline_runs" ∷ "ado_get_pipeline_run" ∷ "ado_get_pipeline_logs"
    ∷ "ado_get_pr_statuses" ∷ "ado_get_pr_policy_evaluations" ∷ "ado_list_branch_policies"
    ∷ "ado_get_build_timeline" ∷ "ado_get_task_log" ∷ "ado_get_build_changes"
    ∷ "ado_update_build_definition_variables" ∷ "ado_get_pipeline_definition"
    ∷ "ado_create_pipeline" ∷ "ado_run_pipeline" ∷ [])

abbrev pub session_tools : List Bytes
session_tools = map codes (
    "get_session_info" ∷ "manage_tasks" ∷ "bypass_confirmation" ∷ "revoke_bypass" ∷ "estimate_cost"
    ∷ "verify_release_readiness" ∷ "check_system_health" ∷ "summarize_history" ∷ "manage_history"
    ∷ "update_session_setting" ∷ "list_session_settings" ∷ [])

abbrev pub skills_tools : List Bytes
skills_tools = map codes ("search_skills" ∷ "list_skills" ∷ "install_skill" ∷ "remove_skill" ∷ [])

abbrev pub media_tools : List Bytes
media_tools = map codes ("create_image" ∷ "read_image" ∷ "read_video" ∷ "read_document" ∷ [])

abbrev pub allowed_commands : List Bytes
allowed_commands =
    shell_commands ++ filesystem_tools ++ code_analysis_tools ++ development_tools ++ git_tools
    ++ communication_tools ++ azure_devops_tools ++ session_tools ++ skills_tools ++ media_tools

abbrev pub auto_approvable_commands : List Bytes
auto_approvable_commands = map codes (
    "grep" ∷ "ls" ∷ "pwd" ∷ "cat" ∷ "echo" ∷ "head" ∷ "tail" ∷ "wc" ∷ "stat" ∷ "date" ∷ "whoami"
    ∷ "diff" ∷ "git" ∷ "go" ∷ "gh" ∷ "az" ∷ "golangci-lint" ∷ "staticcheck" ∷ "govulncheck"
    ∷ "confluence_search" ∷ "confluence_read" ∷ "ado_list_branch_policies"
    ∷ "ado_get_build_timeline" ∷ "ado_get_task_log" ∷ "ado_get_build_changes"
    ∷ "ado_create_pipeline" ∷ "ado_run_pipeline" ∷ "run_benchmark" ∷ "check_system_health"
    ∷ "search_skills" ∷ "list_skills" ∷ [])

abbrev pub safe_git_subcommands : List Bytes
safe_git_subcommands = map codes (
    "status" ∷ "log" ∷ "diff" ∷ "branch" ∷ "show" ∷ "blame" ∷ "ls-files" ∷ "rev-parse" ∷ "tag"
    ∷ "remote" ∷ "describe" ∷ [])

abbrev pub safe_go_subcommands : List Bytes
safe_go_subcommands = map codes ("list" ∷ "help" ∷ "version" ∷ "env" ∷ "vet" ∷ "test" ∷ "tool" ∷ [])

abbrev pub safe_gh_subcommands : List Bytes
safe_gh_subcommands = map codes ("auth" ∷ "issue" ∷ "pr" ∷ "repo" ∷ "run" ∷ "search" ∷ [])

abbrev pub safe_az_subcommands : List Bytes
safe_az_subcommands = map codes ("account" ∷ "devops" ∷ "pipelines" ∷ "repos" ∷ "boards" ∷ [])

-- `Policy`, with what the questions read.
pub record Policy : Type 0 where
  pub allowed : List Bytes
  pub allowed_prefixes : List Bytes
  pub auto_approvable : List Bytes
  pub safe_git : List Bytes
  pub safe_go : List Bytes
  pub safe_gh : List Bytes
  pub safe_az : List Bytes

abbrev pub default_policy : Policy
default_policy = record {
  allowed = allowed_commands;
  allowed_prefixes = codes "mcp_" ∷ [];
  auto_approvable = auto_approvable_commands;
  safe_git = safe_git_subcommands;
  safe_go = safe_go_subcommands;
  safe_gh = safe_gh_subcommands;
  safe_az = safe_az_subcommands;
}

-- The entry of a map.
unfoldable pub has_name : List Bytes → Bytes → Bool
has_name [] name = false
has_name (n ∷ ns) name = let rest = has_name ns name in if bytes_eq n name then true else rest

unfoldable pub has_some_prefix : List Bytes → Bytes → Bool
has_some_prefix [] name = false
has_some_prefix (p ∷ ps) name =
    let rest = has_some_prefix ps name in if has_prefix name p then true else rest

-- `IsCommandAllowed`, `IsToolAllowed` and `isAutoApprovable`.
abbrev pub is_command_allowed : Policy → Bytes → Bool
is_command_allowed policy cmd = has_name policy.allowed cmd

abbrev pub is_tool_allowed : Policy → Bytes → Bool
is_tool_allowed policy name =
    if has_name policy.allowed name then true else has_some_prefix policy.allowed_prefixes name

abbrev pub is_auto_approvable : Policy → Bytes → Bool
is_auto_approvable policy cmd = has_name policy.auto_approvable cmd

-- `SafetyService.IsCommandSafe`.
abbrev pub is_command_safe : Policy → Bytes → Bool
is_command_safe policy cmd =
    if is_command_allowed policy cmd then is_auto_approvable policy cmd else false

-- `HasForbiddenOperators`.
abbrev pub operators : List Bytes
operators = map codes (
    "&&" ∷ "||" ∷ ";" ∷ "|" ∷ ">" ∷ ">>" ∷ "<" ∷ "&" ∷ "2>" ∷ "&>" ∷ "|&" ∷ "1>" ∷ "1>>" ∷ "2>>"
    ∷ [])

unfoldable pub has_forbidden_operators : List Bytes → Bool
has_forbidden_operators [] = false
has_forbidden_operators (p ∷ ps) =
    let rest = has_forbidden_operators ps in if has_name operators p then true else rest

-- `strings.ContainsAny`.
unfoldable pub contains_any : Bytes → Bytes → Bool
contains_any token [] = false
contains_any token (c ∷ cs) =
    let rest = contains_any token cs in if contains token (c ∷ []) then true else rest

abbrev pub has_unsafe_interpolation : Bytes → Bool
has_unsafe_interpolation part = contains_any part (codes "$`")

abbrev pub has_forbidden_chars_in_command : Bytes → Bool
has_forbidden_chars_in_command cmd = contains_any cmd (codes ";&|><" ++ 10 ∷ 13 ∷ [])
