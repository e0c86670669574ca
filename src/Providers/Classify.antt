-- ===== src/Providers/Classify.antt =====
-- internal/infrastructure/llm/llmerr/errors.go, internal/domain/llm/gateway.go and llmerror.go: an error
-- of a provider and its class. What gRPC, HTTP and net errors answer about themselves are fields of the
-- error; the regular expressions and the JSON parser are arguments.
pub mod Reasons
pub mod Sorted
use tell_me_go.Base.{
  ℕ, Bool, true, false, not, ◌&&◌, ◌||◌, List, [], ◌∷◌, Option, none, some, Bytes, codes, bytes_eq,
  is_nil, is_none, any, ltb, leb, ◌==◌, if◌then◌else◌,
}
use tell_me_go.Errors.{
  Sentinel, transient, rate_limit, auth, terminal, quota_exhausted, content_filter, budget_exceeded,
  max_turns_reached, context_limit_exceeded, canceled, deadline_exceeded, conn_reset, conn_refused,
  Error, wraps, is, tag,
}

-- The codes of gRPC that are told apart.
pub data GrpcCode : Type 0 where
  unauthenticated resource_exhausted unavailable deadline aborted grpc_canceled permission_denied
        invalid_argument other_code :
      GrpcCode

-- A raw error: the sentinels of its chain, and what its types answer. `api_body` is the body of an
-- `APIError` in the chain.
pub record Failure : Type 0 where
  pub chain : List Sentinel
  pub grpc : Option GrpcCode
  pub status : Option ℕ
  pub api_body : Option Bytes
  pub has_timed_out : Bool
  pub text : Bytes

pub record Matchers : Type 0 where
  pub is_auth_text : Bytes → Bool
  pub is_rate_limit_text : Bytes → Bool
  pub is_transient_text : Bytes → Bool
  pub parse_error : Bytes → Option (Bytes × Bytes)

-- `IsTransient`, `IsTerminal` and `IsAuth`.
abbrev pub is_transient : Error → Bool
is_transient e = is e transient || is e rate_limit

abbrev pub is_terminal : Error → Bool
is_terminal e =
    is e terminal
    || (is e budget_exceeded
        || (is e max_turns_reached || (is e context_limit_exceeded || is e content_filter)))

abbrev pub is_auth : Error → Bool
is_auth e = is e auth

abbrev pub has : Failure → Sentinel → Bool
has f s = is (wraps f.chain) s

-- `fmt.Errorf("%w: %w", sentinel, err)`.
abbrev pub wrapped : Sentinel → Failure → Error
wrapped s f = wraps (s ∷ f.chain)

-- `classifyDomain`.
unfoldable pub is_domain : Failure → Bool
is_domain f =
    has f auth
    || (has f transient
        || (has f terminal
            || (has f rate_limit || (has f quota_exhausted || has f content_filter))))

abbrev pub classify_domain : Failure → Option Error
classify_domain f = if is_domain f then some (wraps f.chain) else none

-- `classifyGRPC`.
unfoldable pub classify_code : Failure → Option GrpcCode → Option Error
classify_code f none = none
classify_code f (some unauthenticated) = some (wrapped auth f)
classify_code f (some resource_exhausted) = some (wrapped rate_limit f)
classify_code f (some unavailable) = some (wrapped transient f)
classify_code f (some deadline) = some (wrapped transient f)
classify_code f (some aborted) = some (wrapped transient f)
classify_code f (some grpc_canceled) = some (wrapped transient f)
classify_code f (some permission_denied) = some (wrapped terminal f)
classify_code f (some invalid_argument) = some (wrapped terminal f)
classify_code f (some other_code) = none

-- `httpStatusToDomain`.
unfoldable pub http_status_to_domain : ℕ → Option Sentinel
http_status_to_domain status =
    if status == 401
    then some auth
    else if status == 402
    then some quota_exhausted
    else if status == 429
    then some rate_limit
    else if status == 499 || status == 408
    then some transient
    else if leb 500 status
    then some transient
    else if leb 400 status && ltb status 500
    then some terminal
    else none

-- `parseProviderError`.
abbrev pub parse_provider_error : Matchers → Bytes → Option (Bytes × Bytes)
parse_provider_error m body = if is_nil body then none else m.parse_error body

-- `isTerminalQuotaError` on what was parsed.
abbrev pub is_quota_type : Option (Bytes × Bytes) → Bool
is_quota_type none = false
is_quota_type (some (typ, msg)) =
    bytes_eq typ (codes "exceeded_current_quota_error") || bytes_eq typ (codes "insufficient_quota")

-- `isContentFilterError`: the message.
abbrev pub filter_message : Option (Bytes × Bytes) → Bytes
filter_message none = []
filter_message (some (typ, msg)) = if bytes_eq typ (codes "content_filter") then msg else []

-- The two overrides of `classifyHTTP`.
unfoldable pub overridden : Matchers → Option Bytes → Sentinel → Sentinel
overridden m none s = s
overridden m (some body) s =
    if tag s == tag rate_limit && is_quota_type (parse_provider_error m body)
    then quota_exhausted
    else if tag s == tag terminal && not (is_nil (filter_message (parse_provider_error m body)))
    then content_filter
    else s

-- `classifyHTTP`.
abbrev pub classify_domain_status : Matchers → Failure → Option Sentinel → Option Error
classify_domain_status m f none = none
classify_domain_status m f (some s) = some (wrapped (overridden m f.api_body s) f)

abbrev pub classify_status : Matchers → Failure → Option ℕ → Option Error
classify_status m f none = none
classify_status m f (some status) = classify_domain_status m f (http_status_to_domain status)

-- `classifyStandard`.
unfoldable pub classify_standard : Failure → Option Error
classify_standard f =
    if has f conn_reset || has f conn_refused
    then some (wrapped transient f)
    else if has f deadline_exceeded
    then some (wrapped transient f)
    else if has f canceled
    then some (wraps f.chain)
    else if f.has_timed_out
    then some (wrapped transient f)
    else none

-- `classifyString`.
unfoldable pub classify_string : Matchers → Failure → Option Error
classify_string m f =
    if m.is_auth_text f.text
    then some (wrapped auth f)
    else if m.is_rate_limit_text f.text
    then some (wrapped rate_limit f)
    else if m.is_transient_text f.text
    then some (wrapped transient f)
    else none

-- The first classifier that answers.
abbrev pub or_else : Option Error → Option Error → Option Error
or_else none next = next
or_else (some e) next = some e

abbrev pub or_terminal : Failure → Option Error → Error
or_terminal f none = wrapped terminal f
or_terminal f (some e) = e

-- `Classify`.
unfoldable pub classify : Matchers → Failure → Error
classify m f = or_terminal f (
    or_else (classify_domain f) (
      or_else (classify_code f f.grpc) (
        or_else (classify_status m f f.status)
          (or_else (classify_standard f) (classify_string m f)))))

-- `LLMError`.
pub data LlmError : Type 0 where
  rate_limited context_overflow auth_failure server_error timeout : LlmError

-- `ClassifyLLMError` with `classifySentinel` and `isTimeoutError`; `has_timed_out` is what a
-- `Timeout()` in the chain answers.
unfoldable pub classify_llm_error : Error → Bool → LlmError
classify_llm_error e has_timed_out =
    if is e rate_limit
    then rate_limited
    else if is e auth || is e content_filter
    then auth_failure
    else if is e context_limit_exceeded || is e budget_exceeded
    then context_overflow
    else if is e deadline_exceeded || has_timed_out
    then timeout
    else server_error
