-- ===== src/Providers/Resilient.antt =====
-- internal/infrastructure/llm/resilient_client.go: `resilientClient`, which sends a request, refreshes the
-- authentication once and classifies the error. The provider's client is an argument: what its calls do
-- to its state. Telemetry is left out.
pub mod Answered
use tell_me_go.Base.{
  ℕ, zero, suc, ◌+◌, Bool, true, false, ◌&&◌, ◌||◌, Option, none, some, ◌==◌, if◌then◌else◌,
}
use tell_me_go.Errors.{Error, Result, ok, err, is, auth}
use tell_me_go.Providers.Classify.{Failure, Matchers, classify, is_transient}

pub data Reply (A : Type 0) : Type 0 where
  replied : A → Reply A
  failed : Failure → Reply A

-- The calls of a provider's client: a refresh answers whether it succeeded.
pub record Client (S A : Type 0) : Type 0 where
  pub send_chat : S → S × Reply A
  pub refresh_auth : S → S × Bool
  pub reset_connections : S → S

module _ {S A : Type 0} (m : Matchers) (client : Client S A) where
  -- `handleConnectionReset`.
  abbrev pub handle_connection_reset : Error → ℕ → S → S
  handle_connection_reset e attempt s =
      if is_transient e || attempt == 1 then client.reset_connections s else s

  -- `handleAuthRetry`.
  abbrev pub handle_auth_retry : Error → ℕ → S → S × Bool
  handle_auth_retry e attempt s =
      if is e auth && attempt == 0 then client.refresh_auth s else (s, false)

  -- Behind an attempt: the next one, or the end of the loop with the error.
  unfoldable pub retried :
      Error → ℕ → (S → S × Result (Option A)) → S × Bool → S × Result (Option A)
  retried e attempt next (s, true) = next s
  retried e attempt next (s, false) = (handle_connection_reset e attempt s, err e)

  unfoldable pub after_send : ℕ → (S → S × Result (Option A)) → S × Reply A → S × Result (Option A)
  after_send attempt next (s, replied a) = (s, ok (some a))
  after_send attempt next (s, failed f) =
      retried (classify m f) attempt next (handle_auth_retry (classify m f) attempt s)

  -- The loop of `Generate`, with the attempts that are left; behind the last one it answers no content
  -- and no error.
  unfoldable pub attempts : ℕ → ℕ → S → S × Result (Option A)
  attempts zero attempt s = (s, ok none)
  attempts (suc left) attempt s =
      after_send attempt (λ s'. attempts left (attempt + 1) s') (client.send_chat s)

  unfoldable pub generate : S → S × Result (Option A)
  generate s = attempts 2 0 s
