-- ===== src/Context/Manager/Finalize.antt =====
-- What a summarization may replace.
use tell_me_go.Base.{
  ℕ, zero, suc, ◌+◌, ◌-◌, ◌≤◌, Bool, true, false, not, ◌||◌, ◌≡◌, refl, sym, ap, ◌∙◌, List, [], ◌∷◌,
  Option, none, some, Bytes, bytes_eq, bool_eq, bytes_eq_iff, take, drop, length, ltb, arith,
  if◌then◌else◌,
}
use tell_me_go.Errors.{Error, Result, ok, err, fails, terminal, Ctx, poll_at, >>=-eq-ok}
use tell_me_go.Llm.{Fields}
use tell_me_go.Llm.Clone.{equal_content}
use tell_me_go.Context.{Message}
use tell_me_go.Context.Summary.Inserted.{IsInserted, apply_summary-IsInserted}
use tell_me_go.Context.Manager.{
  Store, Manager, validate_subset, replace_behind, replaced_with, replace_archived, replace_unless,
  summarized_history, finalize_summarization,
}
use tell_me_go.Context.Manager.Versions.{no_error}

all_equal :
    (a b : Bool) (r : Result Bool)
    → (if not a || not b then ok false else r) ≡ ok true
    → (a ≡ true) × (b ≡ true) × (r ≡ ok true)
all_equal true true r h = (refl, refl, h)
all_equal true false r h = ground arith
all_equal false b r h = ground arith

bool_eq-true : (a b : Bool) → bool_eq a b ≡ true → a ≡ b
bool_eq-true true b h = sym h
bool_eq-true false true h = cc
bool_eq-true false false h = refl

passed :
    (b : Bool) (r : Result (Unit {0})) {u : Unit {0}}
    → (if b then r else fails terminal) ≡ ok u
    → (b ≡ true) × (r ≡ ok u)
passed true r h = (refl, h)
passed false r h = ground arith

module _ {S : Type 0} (store : Store S) (deep_equal : Option Fields → Option Fields → Bool) where
  -- Message by message the same ID and pin, and equal contents.
  abbrev pub SameAs : List Message → List Message → Type 0
  SameAs [] current = Unit
  SameAs (some m ∷ ms) (some n ∷ ns) =
      (n.id ≡ m.id)
      × (n.pinned ≡ m.pinned)
      × (equal_content deep_equal n m ≡ ok true)
      × SameAs ms ns
  SameAs _ _ = ⊥

  validate_subset-SameAs :
      (ctx : Ctx) (i : ℕ) (subset current : List Message) {u : Unit {0}}
      → validate_subset store deep_equal ctx i subset current ≡ ok u
      → SameAs subset current
  unfolding validate_subset
  validate_subset-SameAs ctx i [] current h = tt
  validate_subset-SameAs ctx i (none ∷ subset) current h = ground arith
  validate_subset-SameAs ctx i (some m ∷ subset) [] h = ground arith
  validate_subset-SameAs ctx i (some m ∷ subset) (none ∷ current) h = ground arith
  validate_subset-SameAs ctx i (some m ∷ subset) (some n ∷ current) h =
      let (u, a, h1) = >>=-eq-ok (poll_at ctx i) _ h in
      let (same, p, h2) =
        >>=-eq-ok
          (if not (bytes_eq n.id m.id) || not (bool_eq n.pinned m.pinned)
            then ok false
            else equal_content deep_equal n m)
          _ h1 in
      let (t, rest) =
        passed same (validate_subset store deep_equal ctx (i + 1) subset current) h2 in
      let (ids, pins, equal) =
        all_equal (bytes_eq n.id m.id) (bool_eq n.pinned m.pinned) _ (p ∙ ap ok t) in
      (
        (bytes_eq_iff n.id m.id).0 ids,
        bool_eq-true n.pinned m.pinned pins,
        equal,
        validate_subset-SameAs ctx (i + 1) subset current rest,
      )

  with-stored :
      (m : Manager S) (r : S × Option Error) {m' : Manager S}
      → replaced_with store deep_equal m r ≡ (m', none)
      → m'.history ≡ r.0
  with-stored m (s, none) k = sym (ap (λ p. p.0.history) k)
  with-stored m (s, some e) k = absurd (no_error (ap (λ p. p.1) k))

  behind-stored :
      (ctx : Ctx) (m : Manager S) (updated : List Message) (r : S × Option Error) {m' : Manager S}
      → replace_behind store deep_equal ctx m updated r ≡ (m', none)
      → m'.history ≡ (store.set_contents ctx (some updated) r.0).0
  behind-stored ctx m updated (s, none) k =
      with-stored m (store.set_contents ctx (some updated) s) k
  behind-stored ctx m updated (s, some e) k = absurd (no_error (ap (λ p. p.1) k))

  unless-stored :
      (ctx : Ctx) (m : Manager S) (subset : List Message) (r : Result (List Message))
      {m' : Manager S}
      → replace_unless store deep_equal ctx m subset r ≡ (m', none)
      → (updated : List Message) × (r ≡ ok updated)
        × (m'.history
            ≡ (store.set_contents ctx (some updated) (store.archive ctx subset m.history).0).0)
  unfolding replace_unless replace_archived
  unless-stored ctx m subset (err e) k = absurd (no_error (ap (λ p. p.1) k))
  unless-stored ctx m subset (ok updated) k =
      (updated, refl, behind-stored ctx m updated (store.archive ctx subset m.history) k)

  SameAs-take :
      (n : ℕ) (subset current : List Message)
      → length subset ≡ n
      → SameAs subset current
      → SameAs subset (take n current) × (length (take n current) ≡ n)
  SameAs-take zero [] current e h = (tt, refl)
  SameAs-take zero (m ∷ ms) current e h = absurd (ground (arith, e))
  SameAs-take (suc n) [] current e h = absurd (ground (arith, e))
  SameAs-take (suc n) (some m ∷ ms) (some x ∷ xs) e (ids, pins, equal, h) =
      let (rest, size) = SameAs-take n ms xs (omega (arith, e)) h in
      ((ids, pins, equal, rest), omega (arith, size))
  SameAs-take (suc n) (some m ∷ ms) [] e h = absurd h
  SameAs-take (suc n) (some m ∷ ms) (none ∷ xs) e h = absurd h
  SameAs-take (suc n) (none ∷ ms) current e h = absurd h

  -- A summarization that succeeds replaces what it has summarized and nothing else, where as many messages
  -- were summarized as its range has: the messages of the range in the current history are those that were
  -- summarized, one by one with the same IDs, pins and contents; and the parts of what is stored behind the
  -- archive are all parts in front of the range, the summary, the acknowledgement, and all parts behind the
  -- range, in this order.
  pub finalize_summarization-SameAs :
      (ctx : Ctx) (id1 id2 : Bytes) (subset : List Message) (start stop : ℕ) (summary : Bytes)
      (m : Manager S) {m' : Manager S}
      → length subset ≡ stop - start
      → finalize_summarization store deep_equal ctx id1 id2 subset start stop summary m ≡ (m', none)
      → (current : List Message) × (store.window ctx 0 none m.history ≡ ok current)
        × (stop ≤ length current)
        × SameAs subset (take (stop - start) (drop start current))
        × (length (take (stop - start) (drop start current)) ≡ stop - start)
        × (updated : List Message) × IsInserted summary
            (take start current)
            (drop stop current)
            updated
        × (m'.history
            ≡ (store.set_contents ctx (some updated) (store.archive ctx subset m.history).0).0)
  unfolding finalize_summarization summarized_history
  finalize_summarization-SameAs ctx id1 id2 subset start stop summary m size k =
      let (updated, e, stored) = unless-stored ctx m subset _ k in
      let (current, a, e1) = >>=-eq-ok (store.window ctx 0 none m.history) _ e in
      let (u, b, e2) =
        >>=-eq-ok (if ltb (length current) stop then fails terminal else ok tt) _ e1 in
      let (v, c, e3) =
        >>=-eq-ok (validate_subset store deep_equal ctx 0 subset (drop start current)) _ e2 in
      let (same, whole) =
        SameAs-take (stop - start) subset (drop start current) size
          (validate_subset-SameAs ctx 0 subset (drop start current) c) in
      (
        current,
        a,
        ground (arith, b),
        same,
        whole,
        updated,
        apply_summary-IsInserted id1 id2 current start stop summary e3,
        stored,
      )
