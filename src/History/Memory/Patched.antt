-- ===== src/History/Memory/Patched.antt =====
-- What a patch of the file makes of the message it changes.
use tell_me_go.Base.{
  ℕ, zero, suc, Bool, ◌≡◌, refl, ap, subst, List, [], ◌∷◌, ◌++◌, append-nil, Option, none, some,
  arith,
}
use tell_me_go.Errors.{ok, >>=-eq-ok, ok-injective}
use tell_me_go.Llm.{Part, Content}
use tell_me_go.Llm.Clone.{clone_parts}
use tell_me_go.Llm.Clone.Copies.{clone_parts_lem}
use tell_me_go.Llm.Validate.{drop_nil}
use tell_me_go.Context.{Message}
use tell_me_go.History.Lines.{
  Codec, present_parts, patched, apply_patch, json_parts, prepare_part, prepare_parts,
}
use tell_me_go.History.Lines.Replay.{stored, stored_all}
use tell_me_go.History.Turns.{message_at}
use tell_me_go.History.Memory.{update_at}

drop_nil-append : (ps qs : List (Option Part)) → drop_nil (ps ++ qs) ≡ drop_nil ps ++ drop_nil qs
unfolding drop_nil
drop_nil-append [] qs = refl
drop_nil-append (none ∷ ps) qs = drop_nil-append ps qs
drop_nil-append (some p ∷ ps) qs = ap (◌∷◌ (some p)) (drop_nil-append ps qs)

present_parts-drop_nil : (ps : List (Option Part)) → drop_nil ps ≡ present_parts ps
unfolding drop_nil present_parts
present_parts-drop_nil [] = refl
present_parts-drop_nil (none ∷ ps) = present_parts-drop_nil ps
present_parts-drop_nil (some p ∷ ps) = ap (◌∷◌ (some p)) (present_parts-drop_nil ps)

-- Updates of one message in the list.
pub message_at-update_at :
    (ms : List Message) (i j : ℕ) (g : Content → Content) {c : Content}
    → message_at ms j ≡ ok c
    → (d : Content) × (message_at (update_at i g ms) j ≡ ok d)
unfolding message_at update_at
message_at-update_at [] i j g h = ground arith
message_at-update_at (none ∷ ms) zero zero g h = ground arith
message_at-update_at (none ∷ ms) (suc i) zero g h = ground arith
message_at-update_at (none ∷ ms) zero (suc j) g {c} h = (c, h)
message_at-update_at (none ∷ ms) (suc i) (suc j) g h = message_at-update_at ms i j g h
message_at-update_at (some m ∷ ms) zero zero g h = (g m, refl)
message_at-update_at (some m ∷ ms) (suc i) zero g h = (m, refl)
message_at-update_at (some m ∷ ms) zero (suc j) g {c} h = (c, h)
message_at-update_at (some m ∷ ms) (suc i) (suc j) g h = message_at-update_at ms i j g h

at_suc :
    (m : Message) (ms : List Message) (i : ℕ) {c : Content}
    → message_at (m ∷ ms) (suc i) ≡ ok c
    → message_at ms i ≡ ok c
unfolding message_at
at_suc none ms i h = h
at_suc (some m) ms i h = h

module _ (codec : Codec) where
  json_parts-append :
      (ps qs : List (Option Part))
      → json_parts codec (ps ++ qs) ≡ json_parts codec ps ++ json_parts codec qs
  unfolding json_parts
  json_parts-append [] qs = refl
  json_parts-append (none ∷ ps) qs = ap (◌∷◌ none) (json_parts-append ps qs)
  json_parts-append (some p ∷ ps) qs = rw (json_parts-append ps qs) refl

  prepare_parts-append :
      (ps qs : List (Option Part)) {xs ys : List (Option Part)}
      → prepare_parts codec ps ≡ ok xs
      → prepare_parts codec qs ≡ ok ys
      → prepare_parts codec (ps ++ qs) ≡ ok (xs ++ ys)
  unfolding prepare_parts
  prepare_parts-append [] qs {xs} {ys} h k =
      subst (λ x. prepare_parts codec qs ≡ ok (x ++ ys)) (ok-injective h) k
  prepare_parts-append (none ∷ ps) qs {xs} {ys} h k =
      let (rest, e, f) = >>=-eq-ok (prepare_parts codec ps) _ h in
      rw (prepare_parts-append ps qs e k) (ap (λ x. ok (x ++ ys)) (ok-injective f))
  prepare_parts-append (some p ∷ ps) qs {xs} {ys} h k =
      let (prepared, e, f) = >>=-eq-ok (prepare_part codec p p.inline_data) _ h in
      let (rest, g, l) = >>=-eq-ok (prepare_parts codec ps) _ f in
      rw (e, prepare_parts-append ps qs g k) (ap (λ x. ok (x ++ ys)) (ok-injective l))

  -- Where every message is changed as its stored form is patched, the list is.
  pub update_at-apply_patch :
      (g : Content → Content) (pinned : Option Bool) (parts : List (Option Part))
      → ((c v : Content)
          → stored codec (some c) ≡ ok v
          → stored codec (some (g c)) ≡ ok (patched pinned parts v))
      → (ms : List Message) (i : ℕ) {c : Content} {vs : List Content} → message_at ms i ≡ ok c
      → stored_all codec ms ≡ ok vs
      → stored_all codec (update_at i g ms) ≡ ok (apply_patch i pinned parts vs)
  unfolding message_at update_at stored_all apply_patch
  update_at-apply_patch g pinned parts each [] i m h = ground arith
  update_at-apply_patch g pinned parts each (none ∷ ms) zero m h = ground arith
  update_at-apply_patch g pinned parts each (some c ∷ ms) zero m h =
      let (v, e, f) = >>=-eq-ok (stored codec (some c)) _ h in
      let (vs, k, l) = >>=-eq-ok (stored_all codec ms) _ f in
      rw (each c v e, k) (ap (λ x. ok (apply_patch zero pinned parts x)) (ok-injective l))
  update_at-apply_patch g pinned parts each (m ∷ ms) (suc i) found h =
      let (v, e, f) = >>=-eq-ok (stored codec m) _ h in
      let (vs, k, l) = >>=-eq-ok (stored_all codec ms) _ f in
      rw (e, update_at-apply_patch g pinned parts each ms i (at_suc m ms i found) k)
        (ap (λ x. ok (apply_patch (suc i) pinned parts x)) (ok-injective l))

  pub with_parts-patched :
      (ps qs : List (Option Part))
      → prepare_parts codec ps ≡ ok qs
      → (c v : Content) → stored codec (some c) ≡ ok v
      → stored codec (some (record c { parts = c.parts ++ clone_parts ps }))
        ≡ ok (patched none (json_parts codec qs) v)
  unfolding stored
  with_parts-patched ps qs p c v h =
      let (xs, e, f) = >>=-eq-ok (prepare_parts codec c.parts) _ h in
      rw
        (
          clone_parts_lem ps,
          prepare_parts-append c.parts ps e p,
          json_parts-append xs qs,
          drop_nil-append (json_parts codec xs) (json_parts codec qs),
          present_parts-drop_nil (json_parts codec qs),
        )
        (ap (λ x. ok (patched none (json_parts codec qs) x)) (ok-injective f))

  pub pinned_as-patched :
      (b : Bool) (c v : Content)
      → stored codec (some c) ≡ ok v
      → stored codec (some (record c { pinned = b })) ≡ ok (patched (some b) [] v)
  unfolding stored present_parts
  pinned_as-patched b c v h =
      let (xs, e, f) = >>=-eq-ok (prepare_parts codec c.parts) _ h in
      rw e (
        ap ok (
          rw (append-nil v.parts)
            (ap {A = Content} {B = Content} (λ x. record x { pinned = b }) (ok-injective f))))

  -- Adding a message at the end.
  pub stored_all-concat :
      (ms : List Message) (m : Message) {vs : List Content} {v : Content}
      → stored_all codec ms ≡ ok vs
      → stored codec m ≡ ok v
      → stored_all codec (ms ++ m ∷ []) ≡ ok (vs ++ v ∷ [])
  unfolding stored_all
  stored_all-concat [] m {vs} {v} h k = rw k (ap (λ x. ok (x ++ v ∷ [])) (ok-injective h))
  stored_all-concat (n ∷ ms) m {vs} {v} h k =
      let (w, e, f) = >>=-eq-ok (stored codec n) _ h in
      let (ws, g, l) = >>=-eq-ok (stored_all codec ms) _ f in
      rw (e, stored_all-concat ms m g k) (ap (λ x. ok (x ++ v ∷ [])) (ok-injective l))
