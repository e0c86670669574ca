-- ===== src/Providers/Resilient/Answered.antt =====
-- What a request is answered.
use tell_me_go.Base.{
  ℕ, Bool, true, false, ◌&&◌, ◌≡◌, refl, ap, ◌⊎◌, inl, inr, Option, some, ◌==◌, ==_iff,
  if◌then◌else◌,
}
use tell_me_go.Errors.{Error, Result, ok, err, is, auth}
use tell_me_go.Providers.Classify.{Failure, Matchers, classify}
use tell_me_go.Providers.Resilient.{
  Reply, replied, failed, Client, handle_auth_retry, retried, after_send, attempts, generate,
}

module _ {S A : Type 0} (m : Matchers) (client : Client S A) where
  -- The content of a reply to one of the calls of `SendChat`, or a classified error of one of them.
  abbrev pub IsAnswer : S × Result (Option A) → Type 0
  IsAnswer (s', r) =
      ((s : S) × (a : A) × (client.send_chat s ≡ (s', replied a)) × (r ≡ ok (some a)))
      ⊎ ((s : S) × (f : Failure) × ((client.send_chat s).1 ≡ failed f) × (r ≡ err (classify m f)))

  refreshed_only :
      (b first : Bool) (r : S × Bool) (s : S) {s' : S}
      → (if b && first then r else (s, false)) ≡ (s', true)
      → first ≡ true
  refreshed_only true true r s h = refl
  refreshed_only true false r s h = cc (ap (λ p. p.1) h)
  refreshed_only false first r s h = cc (ap (λ p. p.1) h)

  retried-IsAnswer :
      (attempt : ℕ) (next : S → S × Result (Option A)) (s : S) (f : Failure) (r : S × Bool)
      → (client.send_chat s).1 ≡ failed f
      → ((s' : S) → r ≡ (s', true) → IsAnswer (next s'))
      → IsAnswer (retried m client (classify m f) attempt next r)
  unfolding retried
  retried-IsAnswer attempt next s f (s', true) k each = each s' refl
  retried-IsAnswer attempt next s f (s', false) k each = inr (s, f, k, refl)

  refreshed_first :
      (attempt : ℕ) (e : Error) (s s' : S)
      → handle_auth_retry m client e attempt s ≡ (s', true)
      → attempt ≡ 0
  refreshed_first attempt e s s' h =
      (==_iff attempt 0).0 (refreshed_only (is e auth) (attempt == 0) (client.refresh_auth s) s h)

  after_send-IsAnswer :
      (attempt : ℕ) (next : S → S × Result (Option A)) (s : S) (r : S × Reply A)
      → client.send_chat s ≡ r
      → (attempt ≡ 0 → (s' : S) → IsAnswer (next s'))
      → IsAnswer (after_send m client attempt next r)
  unfolding after_send
  after_send-IsAnswer attempt next s (s', replied a) k each = inl (s, a, k, refl)
  after_send-IsAnswer attempt next s (s', failed f) k each =
      retried-IsAnswer attempt next s f (handle_auth_retry m client (classify m f) attempt s')
        (ap (λ p. p.1) k) (λ s'' h. each (refreshed_first attempt (classify m f) s' s'' h) s'')

  -- A request ends: it is answered the content of a call of `SendChat`, in the state that the call left, or
  -- the classified error of one, and never neither; the loop of two attempts is enough.
  pub generate-IsAnswer : (s : S) → IsAnswer (generate m client s)
  unfolding generate attempts
  generate-IsAnswer s =
      after_send-IsAnswer 0 _ s (client.send_chat s) refl
        (λ e s'. after_send-IsAnswer 1 _ s' (client.send_chat s') refl (λ k s''. cc k))
