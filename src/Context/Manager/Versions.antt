-- ===== src/Context/Manager/Versions.antt =====
-- What the versions tell of the changes in between.
use tell_me_go.Base.{
  ℕ, ◌<◌, Bool, true, false, not, ◌≡◌, refl, sym, ap, subst, ◌∙◌, ◌⊎◌, inl, inr, List, [], ◌∷◌,
  Option, none, some, Slice, Bytes, bytes_eq, ◌-◌, is_nil, ltb, ◌==◌, arith, if◌then◌else◌,
}
use tell_me_go.Errors.{Error, wraps, Result, ok, err, transient, Ctx, poll, >>=-eq-ok, ok-injective}
use tell_me_go.Llm.{Fields, Content, user, has_role}
use tell_me_go.Context.{Message}
use tell_me_go.Context.Manager.{
  Store, Manager, changed, load_history, persist_prepared, add_to, add_content, set_pipeline,
  reconfigure, NewLimits, replace_archived, replaced_with, replace_behind, replace_unless,
  after_reconfigure, present, summarized_history, finalize_summarization, Change, adding,
  persisting, finalizing, setting_pipeline, reconfiguring, run, run_all, validate_boundaries,
}

pub no_error : {e : Error} → ¬ (some e ≡ none)
no_error h = cc h

module _ {S : Type 0} (store : Store S) (deep_equal : Option Fields → Option Fields → Bool) where
  -- A change leaves the manager as it is, or gives it a newer version.
  abbrev Newer : Manager S → Manager S → Type 0
  Newer m m' = (m ≡ m') ⊎ (m.version < m'.version)

  either :
      (m : Manager S) (b : Bool) (r r' : Manager S × Option Error)
      → Newer m r.0
      → Newer m r'.0
      → Newer m (if b then r else r').0
  either m true r r' h h' = h
  either m false r r' h h' = h'

  trans : (a b c : Manager S) → Newer a b → Newer b c → Newer a c
  trans a b c (inl e) h = subst (λ x. Newer x c) (sym e) h
  trans a b c (inr l) (inl e) = subst (Newer a) e (inr l)
  trans a b c (inr l) (inr k) = inr (omega (arith, l, k))

  reconfigure-Newer :
      (l : NewLimits) (m : Manager S) (r : Result (Manager S))
      → reconfigure store l m ≡ r
      → Newer m (after_reconfigure store deep_equal m r)
  unfolding reconfigure
  reconfigure-Newer l m (err e) h = inl refl
  reconfigure-Newer l m (ok m') h =
      let (a, p, h1) = >>=-eq-ok (present l.new_history_tokens) _ h in
      let (b, q, h2) = >>=-eq-ok (present l.new_tool_turns) _ h1 in
      let (c, r, h3) = >>=-eq-ok (present l.new_history_turns) _ h2 in
      subst (Newer m) (ok-injective h3) (inr (omega arith))

  add_to-Newer :
      (ctx : Ctx) (content : Content) (m : Manager S) (last : Result (List Message))
      → Newer m (add_to store ctx content m last).0
  unfolding add_to
  add_to-Newer ctx content m (err e) = inl refl
  add_to-Newer ctx content m (ok []) = inr (omega arith)
  add_to-Newer ctx content m (ok (none ∷ ms)) = inl refl
  add_to-Newer ctx content m (ok (some l ∷ ms)) =
      either m (bytes_eq l.role content.role) _ _ (inr (omega arith)) (inr (omega arith))

  add_content-Newer :
      (ctx : Ctx) (new_id : Bytes) (content : Content) (m : Manager S)
      → Newer m (add_content store ctx new_id content m).0
  unfolding add_content
  add_content-Newer (some e) new_id content m = inl refl
  add_content-Newer none new_id content m =
      let named = record content { id = if is_nil content.id then new_id else content.id } in
      let total = store.total m.history in
      either m (ltb 0 total) _ _
        (add_to-Newer none named m (store.window none (total - 1) none m.history))
        (either m (not (has_role content user)) _ _ (inl refl) (inr (omega arith)))

  with-Newer :
      (m : Manager S) (r : S × Option Error) → Newer m (replaced_with store deep_equal m r).0
  with-Newer m (s, none) = inr (omega arith)
  with-Newer m (s, some e) = inr (omega arith)

  behind-Newer :
      (ctx : Ctx) (m : Manager S) (updated : List Message) (r : S × Option Error)
      → Newer m (replace_behind store deep_equal ctx m updated r).0
  behind-Newer ctx m updated (s, none) = with-Newer m (store.set_contents ctx (some updated) s)
  behind-Newer ctx m updated (s, some e) = inr (omega arith)

  finalize-Newer :
      (ctx : Ctx) (m : Manager S) (subset : List Message) (r : Result (List Message))
      → Newer m (replace_unless store deep_equal ctx m subset r).0
  unfolding replace_archived replace_unless
  finalize-Newer ctx m subset (err e) = inl refl
  finalize-Newer ctx m subset (ok updated) =
      behind-Newer ctx m updated (store.archive ctx subset m.history)

  run-Newer : (c : Change store deep_equal) (m : Manager S) → Newer m (run store deep_equal c m)
  unfolding run persist_prepared finalize_summarization set_pipeline reconfigure
  run-Newer (adding ctx new_id content) m = add_content-Newer ctx new_id content m
  run-Newer (persisting ctx snapshot h) m =
      either m (m.version == snapshot) _ _ (inr (omega arith)) (inl refl)
  run-Newer (finalizing ctx id1 id2 subset start stop summary) m =
      finalize-Newer ctx m subset
        (summarized_history store deep_equal ctx id1 id2 subset start stop summary m)
  run-Newer (setting_pipeline p) m = inr (omega arith)
  run-Newer (reconfiguring l) m = reconfigure-Newer l m (reconfigure store l m) refl

  run_all-Newer :
      (cs : List (Change store deep_equal)) (m : Manager S)
      → Newer m (run_all store deep_equal cs m)
  unfolding run_all
  run_all-Newer [] m = inl refl
  run_all-Newer (c ∷ cs) m =
      trans m (run store deep_equal c m) _ (run-Newer c m)
        (run_all-Newer cs (run store deep_equal c m))

  load_history-version :
      (ctx : Ctx) (m : Manager S) {snapshot : ℕ} {h : List Message}
      → load_history store ctx m ≡ ok (snapshot, h)
      → m.version ≡ snapshot
  unfolding load_history
  load_history-version ctx m e =
      let (u, a, e1) = >>=-eq-ok (poll ctx) _ e in
      let (history, b, e2) = >>=-eq-ok (store.window ctx 0 none m.history) _ e1 in
      let (v, c, e3) = >>=-eq-ok (validate_boundaries history) _ e2 in
      ap (λ p. p.0) (ok-injective e3)

  persisted-at :
      (ctx : Ctx) (snapshot : ℕ) (h : Slice Message) (m : Manager S) (b : Bool) {m' : Manager S}
      → (m.version == snapshot) ≡ b
      → (if b
          then changed store m (store.set_contents ctx h m.history)
          else (m, some (wraps (transient ∷ []))))
        ≡ (m', none)
      → (m.version ≡ snapshot) × (m'.history ≡ (store.set_contents ctx h m.history).0)
  persisted-at ctx snapshot h m true e k = (ground (arith, e), sym (ap (λ p. p.0.history) k))
  persisted-at ctx snapshot h m false e k = absurd (no_error (ap (λ p. p.1) k))

  -- A preparation overwrites nothing that the manager did since it was loaded: where storing it succeeds
  -- after any calls of the manager's methods, those calls changed nothing, and what is stored replaces the
  -- history that was loaded. Changes that others make of the store itself are not among these calls.
  pub persist_prepared-fresh :
      (cs : List (Change store deep_equal)) (ctx ctx' : Ctx) (m : Manager S) {m' : Manager S}
      {snapshot : ℕ} {loaded : List Message} (h : Slice Message)
      → load_history store ctx m ≡ ok (snapshot, loaded)
      → persist_prepared store ctx' snapshot h (run_all store deep_equal cs m) ≡ (m', none)
      → (run_all store deep_equal cs m ≡ m) × (m'.history ≡ (store.set_contents ctx' h m.history).0)
  unfolding persist_prepared
  persist_prepared-fresh cs ctx ctx' m {m'} {snapshot} h load done =
      let now = run_all store deep_equal cs m in
      let (same, stored) = persisted-at ctx' snapshot h now (now.version == snapshot) refl done in
      elim (run_all-Newer cs m) [
        | inl e ↦ (sym e, stored ∙ ap (λ x. (store.set_contents ctx' h x.history).0) (sym e))
        | inr l ↦ absurd (omega (arith, l, same, load_history-version ctx m load))
      ]
