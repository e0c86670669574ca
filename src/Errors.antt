-- ===== src/Errors.antt =====
-- Go errors. An error is the chain of sentinels that `errors.Is` walks (internal/domain/llm,
-- internal/agent/session/context); `fmt.Errorf` with `%w` prepends to it, without `%w` it starts an
-- empty one. Message texts are left out. A nil dereference is an error value of its own.
use tell_me_go.Base.{
  ℕ, Bool, true, false, ◌≡◌, refl, ◌⊎◌, inl, inr, List, [], Option, none, some, ◌∷◌, any, ◌==◌, ◌%◌,
  if◌then◌else◌,
}

pub data Sentinel : Type 0 where
  invalid_payload terminal transient rate_limit auth quota_exhausted content_filter : Sentinel
  context_limit_exceeded budget_exceeded canceled deadline_exceeded : Sentinel
  conn_reset conn_refused bus_not_initialized : Sentinel
  history_not_found max_turns_reached empty_response logic_violation : Sentinel

abbrev pub tag : Sentinel → ℕ
tag invalid_payload = 0
tag terminal = 1
tag transient = 2
tag rate_limit = 3
tag auth = 4
tag quota_exhausted = 5
tag content_filter = 6
tag context_limit_exceeded = 7
tag budget_exceeded = 8
tag canceled = 9
tag deadline_exceeded = 10
tag conn_reset = 11
tag conn_refused = 12
tag bus_not_initialized = 13
tag history_not_found = 14
tag max_turns_reached = 15
tag empty_response = 16
tag logic_violation = 17

pub data Error : Type 0 where
  wraps : List Sentinel → Error
  nil_dereference : Error

-- `errors.Is`.
abbrev pub is : Error → Sentinel → Bool
is (wraps chain) s = any (λ t. tag t == tag s) chain
is nil_dereference s = false

pub data Result {ℓ} (A : Type ℓ) : Type ℓ where
  ok : A → Result A
  err : Error → Result A

-- A call whose error is returned at once, and a call that answers an error only.
infixl 5 ◌>>=◌ ◌>>◌
abbrev pub ◌>>=◌ {κ ℓ} : {A : Type κ} → {B : Type ℓ} → Result A → (A → Result B) → Result B
err e >>= next = err e
ok a >>= next = next a

abbrev pub ◌>>◌ {ℓ} : {A : Type ℓ} → Result (Unit {0}) → Result A → Result A
step >> rest = step >>= λ u. rest

-- `%w` of one sentinel, or of none.
abbrev pub fails {ℓ} : {A : Type ℓ} → Sentinel → Result A
fails s = err (wraps (s ∷ []))

abbrev pub fails_plain {ℓ} : {A : Type ℓ} → Result A
fails_plain = err (wraps [])

pub Result-cases {ℓ} :
    {A : Type ℓ} (r : Result A) → ((e : Error) × (r ≡ err e)) ⊎ ((a : A) × (r ≡ ok a))
Result-cases (err e) = inl (e, refl)
Result-cases (ok a) = inr (a, refl)

-- Where a chain succeeds, so do its first step and what follows it.
pub >>=-eq-ok {ℓ κ} :
    {A : Type ℓ} {B : Type κ} {out : B} (step : Result A) (next : A → Result B)
    → (step >>= next) ≡ ok out
    → (a : A) × (step ≡ ok a) × (next a ≡ ok out)
>>=-eq-ok (err e) next h = cc
>>=-eq-ok (ok a) next h = (a, refl, h)

-- A context: what `ctx.Err()` answers during the call, `none` while it is live. A loop that polls at
-- every hundredth index fails there.
abbrev pub Ctx : Type 0
Ctx = Option Error

abbrev pub poll : Ctx → Result (Unit {0})
poll none = ok tt
poll (some e) = err e

abbrev pub poll_at : Ctx → ℕ → Result (Unit {0})
poll_at ctx i = if i % 100 == 0 then poll ctx else ok tt

pub ok_of_ne_err {ℓ} :
    {A : Type ℓ} (m : Result A) → ((e : Error) → ¬ (m ≡ err e)) → (a : A) × (m ≡ ok a)
ok_of_ne_err (ok a) h = (a, refl)
ok_of_ne_err (err e) h = absurd (h e refl)

pub ok-injective {ℓ} : {A : Type ℓ} {a b : A} → ok a ≡ ok b → a ≡ b
ok-injective h = cc h

-- A test whose other branch fails.
pub then_of_ok {ℓ} :
    {A : Type ℓ} {a : A} (b : Bool) (m : Result A)
    → (if b then m else fails_plain) ≡ ok a
    → (b ≡ true) × (m ≡ ok a)
then_of_ok true m h = (refl, h)
then_of_ok false m h = cc h

pub else_of_ok {ℓ} :
    {A : Type ℓ} {a : A} (b : Bool) (m : Result A)
    → (if b then fails_plain else m) ≡ ok a
    → (b ≡ false) × (m ≡ ok a)
else_of_ok true m h = cc h
else_of_ok false m h = (refl, h)
