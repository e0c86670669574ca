-- ===== src/Providers/Failover/Exhausted.antt =====
-- The error behind the last provider.
use tell_me_go.Base.{
  Bool, true, false, ◌||◌, ◌≡◌, refl, ap, ◌∙◌, List, [], ◌∷◌, ◌++◌, Option, none, some, ◌==◌,
  Bool-cases, inl, inr,
}
use tell_me_go.Errors.{
  Error, wraps, nil_dereference, err, is, quota_exhausted, transient, rate_limit, terminal,
  Sentinel, tag,
}
use tell_me_go.Providers.Failover.{
  NamedClient, is_passed, exhausted, routed, unless_done, generate_from, generate,
}
use tell_me_go.Providers.Failover.Outcome.{Passed, here, over}

either-or : (a b c : Bool) → (a || b) ≡ true → (b ≡ true → c ≡ true) → (a || c) ≡ true
either-or true b c h k = refl
either-or false b c h k = k h

or-true : (a b : Bool) → b ≡ true → (a || b) ≡ true
or-true true b h = refl
or-true false b h = h

is-last :
    (chain : List Sentinel) (s t : Sentinel)
    → is (wraps chain) s ≡ true
    → is (wraps (chain ++ t ∷ [])) s ≡ true
is-last [] s t h = cc h
is-last (x ∷ chain) s t h = either-or (tag x == tag s) _ _ h (is-last chain s t)

is-terminal : (chain : List Sentinel) → is (wraps (chain ++ terminal ∷ [])) terminal ≡ true
is-terminal [] = refl
is-terminal (x ∷ chain) = or-true (tag x == tag terminal) _ (is-terminal chain)

or_of_each :
    (a b c a' b' c' : Bool)
    → (a ≡ true → a' ≡ true)
    → (b ≡ true → b' ≡ true)
    → (c ≡ true → c' ≡ true)
    → (a || (b || c)) ≡ true
    → (a' || (b' || c')) ≡ true
or_of_each true b c a' b' c' f g k h = rw (f refl) refl
or_of_each false true c a' b' c' f g k h = rw (g refl) (or-true a' true refl)
or_of_each false false c a' b' c' f g k h =
    rw (k h) (or-true a' (b' || true) (or-true b' true refl))

exhausted_lem :
    (e : Error)
    → is_passed e ≡ true
    → (is (exhausted (some e)) terminal ≡ true) × (is_passed (exhausted (some e)) ≡ true)
unfolding exhausted
exhausted_lem nil_dereference h = cc h
exhausted_lem (wraps chain) h = (
  is-terminal chain,
  or_of_each (is (wraps chain) quota_exhausted) (is (wraps chain) transient)
      (is (wraps chain) rate_limit) _ _ _ (is-last chain quota_exhausted terminal)
      (is-last chain transient terminal) (is-last chain rate_limit terminal) h,
)

abbrev IsPassedLast : Option Error → Type 0
IsPassedLast last = (e : Error) × (last ≡ some e) × (is_passed e ≡ true)

module _ {S C M : Type 0} (ctx_err : S → Option Error) where
  routed-passed :
      (c : NamedClient S C M) (cs : List (NamedClient S C M)) (s1 : S) (e : Error)
      → is_passed e ≡ true
      → routed ctx_err c.name (λ e s'. generate_from ctx_err cs e s') (s1, err e)
        ≡ generate_from ctx_err cs (some e) s1
  unfolding routed
  routed-passed c cs s1 e h = elim (Bool-cases (is e quota_exhausted)) [
    | inl quota ↦ rw quota refl
    | inr funded ↦ rw (funded, rw funded at h) refl
  ]

  -- Passed providers have no part in what is answered.
  Passed-generate_from :
      (cs : List (NamedClient S C M)) (s : S) (last : Option Error)
      (rest : List (NamedClient S C M)) (s' : S) (last' : Option Error)
      → Passed ctx_err cs s last rest s' last'
      → generate_from ctx_err cs last s ≡ generate_from ctx_err rest last' s'
  unfolding generate_from unless_done
  Passed-generate_from _ _ _ _ _ _ (here cs s last) = refl
  Passed-generate_from _ _ _ _ _ _ (over c cs s s1 last e rest s2 last2 live called passed path) =
      rw (live, called)
        (routed-passed c cs s1 e passed ∙ Passed-generate_from cs s1 (some e) rest s2 last2 path)

  Passed-IsPassedLast :
      (cs : List (NamedClient S C M)) (s : S) (last : Option Error)
      (rest : List (NamedClient S C M)) (s' : S) (last' : Option Error)
      → Passed ctx_err cs s last rest s' last'
      → IsPassedLast last
      → IsPassedLast last'
  Passed-IsPassedLast _ _ _ _ _ _ (here cs s last) h = h
  Passed-IsPassedLast _ _ _ _ _ _ (over c cs s s1 last e rest s2 last2 live called passed path) h =
      Passed-IsPassedLast cs s1 (some e) rest s2 last2 path (e, refl, passed)

  Passed-last :
      (c : NamedClient S C M) (cs : List (NamedClient S C M)) (s s' : S) (last : Option Error)
      → Passed ctx_err (c ∷ cs) s none [] s' last
      → IsPassedLast last
  Passed-last c cs s s' last (over _ _ _ s1 _ e _ _ _ live called passed path) =
      Passed-IsPassedLast cs s1 (some e) [] s' last path (e, refl, passed)

  -- Where every provider is passed over, the error is marked as terminal, and is still one behind which a
  -- provider is passed over: an exhausted quota, a rate limit or a transient error.
  pub generate_exhausted :
      (c : NamedClient S C M) (cs : List (NamedClient S C M)) (s s' : S) (last : Option Error)
      → Passed ctx_err (c ∷ cs) s none [] s' last
      → (e : Error) × (generate ctx_err (c ∷ cs) s ≡ (s', err e))
        × (is e terminal ≡ true)
        × (is_passed e ≡ true)
  unfolding generate generate_from
  generate_exhausted c cs s s' last path =
      let (e, is_last, passed) = Passed-last c cs s s' last path in
      let (final, kept) = exhausted_lem e passed in
      (
        exhausted (some e),
        Passed-generate_from (c ∷ cs) s none [] s' last path
            ∙ ap (λ x. (s', err (exhausted x))) is_last,
        final,
        kept,
      )
