-- ===== src/Examples/Failovers.antt =====
-- Providers that fail and providers that answer, and the theorems at them. The state counts the calls.
use tell_me_go.Base.{
  ℕ, zero, suc, ◌+◌, true, false, ◌≡◌, refl, [], ◌∷◌, Option, none, some, Bytes, codes,
}
use tell_me_go.Errors.{Error, ok, err, wraps, is, rate_limit, terminal}
use tell_me_go.Providers.Classify.{Failure, Matchers}
use tell_me_go.Providers.Resilient
use tell_me_go.Providers.Resilient.{Client, Reply, replied, failed}
use tell_me_go.Providers.Resilient.Answered.{IsAnswer, generate-IsAnswer}
use tell_me_go.Providers.Failover
use tell_me_go.Providers.Failover.{Metrics, Answer, NamedClient, is_passed}
use tell_me_go.Providers.Failover.Outcome.{Passed, here, over, Outcome, generate-Outcome}
use tell_me_go.Providers.Failover.Exhausted.{generate_exhausted}

abbrev matchers : Matchers
matchers = record {
  is_auth_text = λ text. false;
  is_rate_limit_text = λ text. false;
  is_transient_text = λ text. false;
  parse_error = λ body. some (codes "insufficient_quota", []);
}

-- Status 429 with a body that says that the account is empty.
abbrev no_funds : Failure
no_funds = record {
  chain = [];
  grpc = none;
  status = some 429;
  api_body = some (codes "{}");
  has_timed_out = false;
  text = [];
}

abbrev unauthorized : Failure
unauthorized = record no_funds { status = some 401 }

abbrev second_time : ℕ → ℕ × Reply Bytes
second_time zero = (1, failed unauthorized)
second_time (suc n) = (n + 2, replied (codes "hello"))

abbrev client : Client ℕ Bytes
client = record {
  send_chat = second_time;
  refresh_auth = λ s. (s + 1, true);
  reset_connections = λ s. s;
}

generate-IsAnswer_example : IsAnswer matchers client (Resilient.generate matchers client 0)
generate-IsAnswer_example = generate-IsAnswer matchers client 0

abbrev live : ℕ → Option Error
live s = none

abbrev limited : NamedClient ℕ Bytes Bytes
limited = record { name = codes "first"; call = λ s. (s + 1, err (wraps (rate_limit ∷ []))) }

abbrev answering : NamedClient ℕ Bytes Bytes
answering = record {
  name = codes "second";
  call = λ s. (s + 1, ok (codes "hello", some (record { provider = []; figures = [] })));
}

generate-Outcome_example :
    Outcome live
      (limited ∷ answering ∷ [])
      0
      none
      (Failover.generate live (limited ∷ answering ∷ []) 0)
generate-Outcome_example = generate-Outcome live (limited ∷ answering ∷ []) 0

two_limited-Passed :
    Passed live (limited ∷ limited ∷ []) 0 none [] 2 (some (wraps (rate_limit ∷ [])))
two_limited-Passed =
    over limited (limited ∷ []) 0 1 none (wraps (rate_limit ∷ [])) [] 2
      (some (wraps (rate_limit ∷ []))) refl refl refl
      (over limited [] 1 2 (some (wraps (rate_limit ∷ []))) (wraps (rate_limit ∷ [])) [] 2
        (some (wraps (rate_limit ∷ []))) refl refl refl
        (here [] 2 (some (wraps (rate_limit ∷ [])))))

generate_exhausted_example :
    (e : Error) × (Failover.generate live (limited ∷ limited ∷ []) 0 ≡ (2, err e))
    × (is e terminal ≡ true)
    × (is_passed e ≡ true)
generate_exhausted_example =
    generate_exhausted live limited (limited ∷ []) 0 2 (some (wraps (rate_limit ∷ [])))
      two_limited-Passed
