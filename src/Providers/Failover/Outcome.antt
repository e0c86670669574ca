-- ===== src/Providers/Failover/Outcome.antt =====
-- How a request over several providers ends.
use tell_me_go.Base.{
  true, false, ◌≡◌, refl, inl, inr, List, [], ◌∷◌, Option, none, some, Bool-cases,
}
use tell_me_go.Errors.{Error, ok, err, is, quota_exhausted}
use tell_me_go.Providers.Classify.{is_transient}
use tell_me_go.Providers.Failover.{
  Metrics, Answer, NamedClient, is_passed, exhausted, with_provider, routed, unless_done,
  generate_from, generate,
}

module _ {S C M : Type 0} (ctx_err : S → Option Error) where
  -- Providers that are passed over, from a list, a state and a last error to others: each was asked in a
  -- live context and failed with an exhausted quota, a rate limit or a transient error.
  pub data Passed
      : List (NamedClient S C M)
        → S
        → Option Error
        → List (NamedClient S C M)
        → S
        → Option Error
        → Type 0 where
    here :
        (cs : List (NamedClient S C M)) (s : S) (last : Option Error) → Passed cs s last cs s last
    over :
        (c : NamedClient S C M) (cs : List (NamedClient S C M)) (s s1 : S) (last : Option Error)
        (e : Error) (rest : List (NamedClient S C M)) (s2 : S) (last2 : Option Error)
        → ctx_err s ≡ none
        → c.call s ≡ (s1, err e)
        → is_passed e ≡ true
        → Passed cs s1 (some e) rest s2 last2
        → Passed (c ∷ cs) s last rest s2 last2

  -- The end of the request at the providers that are left.
  pub data Ends : List (NamedClient S C M) → S → Option Error → S × Answer C M → Type 0 where
    answered :
        (c : NamedClient S C M) (cs : List (NamedClient S C M)) (s s1 : S) (last : Option Error)
        (content : C) (metrics : Option (Metrics M))
        → ctx_err s ≡ none
        → c.call s ≡ (s1, ok (content, metrics))
        → Ends (c ∷ cs) s last (s1, ok (content, with_provider c.name metrics))
    aborted :
        (c : NamedClient S C M) (cs : List (NamedClient S C M)) (s s1 : S) (last : Option Error)
        (e : Error)
        → ctx_err s ≡ none
        → c.call s ≡ (s1, err e)
        → is_passed e ≡ false
        → Ends (c ∷ cs) s last (s1, err e)
    done :
        (c : NamedClient S C M) (cs : List (NamedClient S C M)) (s : S) (last : Option Error)
        (e : Error)
        → ctx_err s ≡ some e
        → Ends (c ∷ cs) s last (s, err e)
    used_up : (s : S) (last : Option Error) → Ends [] s last (s, err (exhausted last))

  abbrev pub Outcome : List (NamedClient S C M) → S → Option Error → S × Answer C M → Type 0
  Outcome cs s last out =
      (rest : List (NamedClient S C M)) × (s' : S) × (last' : Option Error) × Passed cs s last rest
        s' last'
      × Ends rest s' last' out

  Outcome-over :
      (c : NamedClient S C M) (cs : List (NamedClient S C M)) (s s1 : S) (last : Option Error)
      (e : Error) {out : S × Answer C M}
      → ctx_err s ≡ none
      → c.call s ≡ (s1, err e)
      → is_passed e ≡ true
      → Outcome cs s1 (some e) out
      → Outcome (c ∷ cs) s last out
  Outcome-over c cs s s1 last e live called passed (rest, s', last', path, end) =
      (rest, s', last', over c cs s s1 last e rest s' last' live called passed path, end)

  Outcome-routed :
      (c : NamedClient S C M) (cs : List (NamedClient S C M)) (s : S) (last : Option Error)
      (r : S × Answer C M)
      → ctx_err s ≡ none
      → c.call s ≡ r
      → ((s' : S) (e : Error) → Outcome cs s' (some e) (generate_from ctx_err cs (some e) s'))
      → Outcome (c ∷ cs) s last (routed ctx_err c.name (λ e s'. generate_from ctx_err cs e s') r)
  unfolding routed
  Outcome-routed c cs s last (s1, ok (content, metrics)) live called each =
      (c ∷ cs, s, last, here (c ∷ cs) s last, answered c cs s s1 last content metrics live called)
  Outcome-routed c cs s last (s1, err e) live called each =
      elim (Bool-cases (is e quota_exhausted)) [
        | inl quota ↦
            rw quota (Outcome-over c cs s s1 last e live called (rw quota refl) (each s1 e))
        | inr funded ↦ elim (Bool-cases (is_transient e)) [
          | inl retry ↦
              rw (funded, retry)
                (Outcome-over c cs s s1 last e live called (rw (funded, retry) refl) (each s1 e))
          | inr final ↦
              rw (funded, final)
                (
                  c ∷ cs,
                  s,
                  last,
                  here (c ∷ cs) s last,
                  aborted c cs s s1 last e live called (rw (funded, final) refl),
                )
        ]
      ]

  Outcome-unless_done :
      (c : NamedClient S C M) (cs : List (NamedClient S C M)) (s : S) (last : Option Error)
      (o : Option Error) (r : S × Answer C M)
      → ctx_err s ≡ o
      → (ctx_err s ≡ none → Outcome (c ∷ cs) s last r)
      → Outcome (c ∷ cs) s last (unless_done {S = S} {C = C} {M = M} ctx_err o s r)
  unfolding unless_done
  Outcome-unless_done c cs s last none r k live = live k
  Outcome-unless_done c cs s last (some e) r k live =
      (c ∷ cs, s, last, here (c ∷ cs) s last, done c cs s last e k)

  generate_from-Outcome :
      (cs : List (NamedClient S C M)) (last : Option Error) (s : S)
      → Outcome cs s last (generate_from ctx_err cs last s)
  unfolding generate_from
  generate_from-Outcome [] last s = ([], s, last, here [] s last, used_up s last)
  generate_from-Outcome (c ∷ cs) last s =
      Outcome-unless_done c cs s last (ctx_err s) _ refl (λ live.
        Outcome-routed c cs s last (c.call s) live refl
          (λ s' e. generate_from-Outcome cs (some e) s'))

  -- A request over several providers ends in one of four ways, behind providers that were passed over for
  -- an exhausted quota, a rate limit or a transient error: with the answer of the first other provider and
  -- that provider's name, with its error, with the error of a context that is done, or, where no provider
  -- is left, with the last error made terminal.
  pub generate-Outcome :
      (clients : List (NamedClient S C M)) (s : S)
      → Outcome clients s none (generate ctx_err clients s)
  unfolding generate
  generate-Outcome clients s = generate_from-Outcome clients none s
