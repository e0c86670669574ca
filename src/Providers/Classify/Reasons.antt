-- ===== src/Providers/Classify/Reasons.antt =====
-- The reasons for the class of an error: what its code, its status, the network and its text say.
use tell_me_go.Base.{
  ℕ, ◌≤◌, ◌<◌, true, false, ◌||◌, ◌≡◌, ◌≢◌, ◌⊎◌, [], ◌∷◌, Option, none, some, Bytes, is_nil, All,
}
use tell_me_go.Errors.{
  Sentinel, transient, rate_limit, auth, terminal, quota_exhausted, content_filter, canceled,
  conn_reset, conn_refused, deadline_exceeded, Error, wraps,
}
use tell_me_go.Providers.Classify.{
  Failure, Matchers, GrpcCode, has, is_domain, is_quota_type, filter_message, parse_provider_error,
  unauthenticated, resource_exhausted, unavailable, deadline, aborted, grpc_canceled,
  permission_denied, invalid_argument,
}

-- What a code of gRPC means: who asks is unknown, too much was asked for, it may work later, or it never
-- will.
pub data CodeSays : GrpcCode → Sentinel → Type 0 where
  who_is_it : CodeSays unauthenticated auth
  too_much : CodeSays resource_exhausted rate_limit
  not_now : CodeSays unavailable transient
  too_late : CodeSays deadline transient
  given_up : CodeSays aborted transient
  called_off : CodeSays grpc_canceled transient
  not_allowed : CodeSays permission_denied terminal
  not_understood : CodeSays invalid_argument terminal

-- What a status of HTTP means.
pub data StatusSays (n : ℕ) : Sentinel → Type 0 where
  unauthorized : n ≡ 401 → StatusSays n auth
  payment_required : n ≡ 402 → StatusSays n quota_exhausted
  too_many_requests : n ≡ 429 → StatusSays n rate_limit
  timed_out : (n ≡ 499) ⊎ (n ≡ 408) → StatusSays n transient
  server_failed : 500 ≤ n → StatusSays n transient
  refused :
      400 ≤ n
      → n < 500
      → All (λ k. n ≢ k) (401 ∷ 402 ∷ 429 ∷ 499 ∷ 408 ∷ [])
      → StatusSays n terminal

abbrev pub CodeIsSilent : Option GrpcCode → Type 0
CodeIsSilent none = Unit
CodeIsSilent (some c) = (s : Sentinel) → ¬ (CodeSays c s)

abbrev pub StatusIsSilent : Option ℕ → Type 0
StatusIsSilent none = Unit
StatusIsSilent (some n) = (s : Sentinel) → ¬ (StatusSays n s)

-- Why a status gives a class. The body of a response can say that a rate limit is a quota that is used up,
-- and that a refusal is that of a content filter.
pub data StatusReason (m : Matchers) (f : Failure) : Sentinel → Type 0 where
  plain_status : {s : Sentinel} (n : ℕ) → f.status ≡ some n → StatusSays n s → StatusReason m f s
  no_quota_left :
      (body : Bytes)
      → f.status ≡ some 429
      → f.api_body ≡ some body
      → is_quota_type (parse_provider_error m body) ≡ true
      → StatusReason m f quota_exhausted
  filtered :
      (n : ℕ) (body : Bytes)
      → f.status ≡ some n
      → StatusSays n terminal
      → f.api_body ≡ some body
      → is_nil (filter_message (parse_provider_error m body)) ≡ false
      → StatusReason m f content_filter

-- A connection that was cut off, and a call that took too long.
pub data IsInterrupted (f : Failure) : Type 0 where
  cut_off : (has f conn_reset || has f conn_refused) ≡ true → IsInterrupted f
  past_deadline : has f deadline_exceeded ≡ true → IsInterrupted f
  network_timeout : has f canceled ≡ false → f.has_timed_out ≡ true → IsInterrupted f

abbrev pub NetworkIsSilent : Failure → Type 0
NetworkIsSilent f =
    ((has f conn_reset || has f conn_refused) ≡ false)
    × (has f deadline_exceeded ≡ false)
    × (has f canceled ≡ false)
    × (f.has_timed_out ≡ false)

-- What the text of an error says, the first of the three expressions that matches.
pub data TextSays (m : Matchers) (f : Failure) : Sentinel → Type 0 where
  auth_text : m.is_auth_text f.text ≡ true → TextSays m f auth
  rate_limit_text :
      m.is_auth_text f.text ≡ false → m.is_rate_limit_text f.text ≡ true → TextSays m f rate_limit
  transient_text :
      m.is_auth_text f.text ≡ false
      → m.is_rate_limit_text f.text ≡ false
      → m.is_transient_text f.text ≡ true
      → TextSays m f transient
  no_text :
      m.is_auth_text f.text ≡ false
      → m.is_rate_limit_text f.text ≡ false
      → m.is_transient_text f.text ≡ false
      → TextSays m f terminal

-- The error as it was, or with one class put in front: that of the first of its code, its status, the
-- network and its text that has something to say.
pub data IsSorted (m : Matchers) (f : Failure) : Error → Type 0 where
  has_class : is_domain f ≡ true → IsSorted m f (wraps f.chain)
  by_code :
      {s : Sentinel} (c : GrpcCode)
      → is_domain f ≡ false
      → f.grpc ≡ some c
      → CodeSays c s
      → IsSorted m f (wraps (s ∷ f.chain))
  by_status :
      {s : Sentinel}
      → is_domain f ≡ false
      → CodeIsSilent f.grpc
      → StatusReason m f s
      → IsSorted m f (wraps (s ∷ f.chain))
  interrupted :
      is_domain f ≡ false
      → CodeIsSilent f.grpc
      → StatusIsSilent f.status
      → IsInterrupted f
      → IsSorted m f (wraps (transient ∷ f.chain))
  was_canceled :
      is_domain f ≡ false
      → CodeIsSilent f.grpc
      → StatusIsSilent f.status
      → has f canceled ≡ true
      → IsSorted m f (wraps f.chain)
  by_text :
      {s : Sentinel}
      → is_domain f ≡ false
      → CodeIsSilent f.grpc
      → StatusIsSilent f.status
      → NetworkIsSilent f
      → TextSays m f s
      → IsSorted m f (wraps (s ∷ f.chain))
