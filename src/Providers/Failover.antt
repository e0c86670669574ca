-- ===== src/Providers/Failover.antt =====
-- internal/infrastructure/llm/failover.go: `failoverGateway`, which asks the providers one after the other.
-- A client and the context are arguments, on a state that stands for everything outside.
pub mod Exhausted
pub mod Outcome
use tell_me_go.Base.{
  Bool, true, false, not, ◌||◌, List, [], ◌∷◌, ◌++◌, Option, none, some, Bytes, if◌then◌else◌,
}
use tell_me_go.Errors.{
  Error, wraps, nil_dereference, Result, ok, err, is, quota_exhausted, terminal,
}
use tell_me_go.Providers.Classify.{is_transient}

-- `Metrics`: the provider, and all other figures.
pub record Metrics (M : Type 0) : Type 0 where
  pub provider : Bytes
  pub figures : M

-- What a client answers: the content and the metrics, which may be nil.
abbrev pub Answer : Type 0 → Type 0 → Type 0
Answer C M = Result (C × Option (Metrics M))

-- `namedClient`, with `Generate` on its request.
pub record NamedClient (S C M : Type 0) : Type 0 where
  pub name : Bytes
  pub call : S → S × Answer C M

-- An error behind which the next provider is tried.
abbrev pub is_passed : Error → Bool
is_passed e = is e quota_exhausted || is_transient e

-- The error behind the last provider: `%w: %w` of the last error and of `ErrTerminal`.
unfoldable pub exhausted : Option Error → Error
exhausted none = wraps (terminal ∷ [])
exhausted (some (wraps chain)) = wraps (chain ++ terminal ∷ [])
exhausted (some nil_dereference) = nil_dereference

-- `metrics.Provider = nc.Name`, where there are metrics.
abbrev pub with_provider : {M : Type 0} → Bytes → Option (Metrics M) → Option (Metrics M)
with_provider name none = none
with_provider name (some metrics) = some (record metrics { provider = name })

module _ {S C M : Type 0} (ctx_err : S → Option Error) where
  -- What is made of the answer of a provider, with the way on to the next.
  unfoldable pub routed :
      Bytes → (Option Error → S → S × Answer C M) → S × Answer C M → S × Answer C M
  routed name next (s, ok (content, metrics)) = (s, ok (content, with_provider name metrics))
  routed name next (s, err e) =
      if is e quota_exhausted
      then next (some e) s
      else if not (is_transient e)
      then (s, err e)
      else next (some e) s

  unfoldable pub unless_done : Option Error → S → S × Answer C M → S × Answer C M
  unless_done none s r = r
  unless_done (some e) s r = (s, err e)

  -- The loop of `Generate`.
  unfoldable pub generate_from : List (NamedClient S C M) → Option Error → S → S × Answer C M
  generate_from [] last s = (s, err (exhausted last))
  generate_from (c ∷ cs) last s =
      unless_done (ctx_err s) s (routed c.name (λ e s'. generate_from cs e s') (c.call s))

  unfoldable pub generate : List (NamedClient S C M) → S → S × Answer C M
  generate clients s = generate_from clients none s
