-- ===== src/Context/Pruner/Select.antt =====
-- The history behind the pruner.
use tell_me_go.Base.{
  ℕ, suc, ◌+◌, ◌-◌, ◌≤◌, ◌<◌, Bool, true, false, ◌≡◌, refl, sym, ap, ◌∙◌, subst, List, [], ◌∷◌,
  ◌++◌, none, some, Slice, items, items-append_slice, append_assoc, map-append, append-nil, concat,
  length, ltb, arith, Bool-cases, inl, inr, if◌then◌else◌, map, is_nil, is_nil-eq,
}
use tell_me_go.Errors.{ok, Ctx, poll_at, >>=-eq-ok, ok-injective}
use tell_me_go.Context.{Message, Turn, Request}
use tell_me_go.Context.Turns.{group_loop, group_turns}
use tell_me_go.Context.Turns.Partition.{group_turns-concat}
use tell_me_go.Context.Events.{Bus, publish_or_fail, system_message}
use tell_me_go.Context.Pruner.{
  Rebuilt, nothing_rebuilt, reconstruct_loop, reconstruct, unmarked, pruned, prune, apply_policies,
  KeptByPolicy,
}
use tell_me_go.Context.Pruner.Marks.{flags, standard, apply_policies-flags}

abbrev pub select : List Bool → List Turn → List Turn
select [] ts = []
select (k ∷ ks) [] = []
select (k ∷ ks) (t ∷ ts) = if k then t ∷ select ks ts else select ks ts

-- The turns that the standard policies keep.
abbrev pub survivors : ℕ → List Turn → List Turn
survivors max_turns ts = select (flags (length ts - max_turns) 0 ts) ts

-- The rebuilt history is the selected turns, and the counts are theirs.
record Selects (acc : Rebuilt) (ks : List Bool) (ts : List Turn) (out : Rebuilt) : Type 0 where
  history : items out.history ≡ items acc.history ++ map some (concat (select ks ts))
  kept : out.kept_count ≡ acc.kept_count + length (select ks ts)
  total : out.kept_count + out.pruned_count ≡ acc.kept_count + acc.pruned_count + length ks

reconstruct_loop-Selects :
    (ctx : Ctx) (i : ℕ) (ks : List Bool) (ts : List Turn) (acc : Rebuilt) {out : Rebuilt}
    → reconstruct_loop ctx i ks ts acc ≡ ok out
    → Selects acc ks ts out
unfolding reconstruct_loop
reconstruct_loop-Selects ctx i [] ts acc h = subst (Selects acc [] ts) (ok-injective h) (record {
  history = sym (append-nil (items acc.history));
  kept = omega arith;
  total = omega arith;
})
reconstruct_loop-Selects ctx i (k ∷ ks) [] acc h = cc
reconstruct_loop-Selects ctx i (true ∷ ks) (t ∷ ts) acc h =
    let (u, e, f) = >>=-eq-ok (poll_at ctx i) _ h in
    let s = reconstruct_loop-Selects ctx (i + 1) ks ts _ f in
    record {
      history =
          s.history
          ∙ ap (λ x. x ++ map some (concat (select ks ts)))
              (items-append_slice acc.history (map some t))
          ∙ simp (map-append, append_assoc);
      kept = omega (arith, s.kept);
      total = omega (arith, s.total);
    }
reconstruct_loop-Selects ctx i (false ∷ ks) (t ∷ ts) acc h =
    let (u, e, f) = >>=-eq-ok (poll_at ctx i) _ h in
    let s = reconstruct_loop-Selects ctx (i + 1) ks ts _ f in
    record { history = s.history; kept = s.kept; total = omega (arith, s.total) }

length-flags : (start i : ℕ) (ts : List Turn) → length (flags start i ts) ≡ length ts
length-flags start i [] = refl
length-flags start i (t ∷ ts) = ap suc (length-flags start (i + 1) ts)

length-select-le : (ks : List Bool) (ts : List Turn) → length (select ks ts) ≤ length ts
length-select-le [] ts = omega arith
length-select-le (k ∷ ks) [] = omega arith
length-select-le (true ∷ ks) (t ∷ ts) = omega (arith, length-select-le ks ts)
length-select-le (false ∷ ks) (t ∷ ts) = omega (arith, length-select-le ks ts)

select_all :
    (ks : List Bool) (ts : List Turn) → length (select ks ts) ≡ length ts → select ks ts ≡ ts
select_all [] [] h = refl
select_all [] (t ∷ ts) h = absurd (omega (arith, h))
select_all (k ∷ ks) [] h = refl
select_all (true ∷ ks) (t ∷ ts) h = ap (◌∷◌ t) (select_all ks ts (omega (arith, h)))
select_all (false ∷ ks) (t ∷ ts) h = absurd (omega (arith, h, length-select-le ks ts))

-- What pruning does: the history is the surviving turns, in order, and the turns removed are counted.
pub record PrunedTo (max_turns : ℕ) (turns : List Turn) (req out : Request) : Type 0 where
  pub history : items out.history ≡ map some (concat (survivors max_turns turns))
  pub counted :
      out.metadata.pruned_turns + length (survivors max_turns turns)
      ≡ req.metadata.pruned_turns + length turns

pruned-PrunedTo :
    (max_turns : ℕ) (turns : List Turn) (req : Request) (kept : KeptByPolicy) (r : Rebuilt)
    → map some (concat turns) ≡ items req.history
    → Selects nothing_rebuilt (flags (length turns - max_turns) 0 turns) turns r
    → PrunedTo max_turns turns req (pruned req kept r)
pruned-PrunedTo max_turns turns req kept r same s =
    let total = length-flags (length turns - max_turns) 0 turns in
    elim (Bool-cases (ltb 0 r.pruned_count)) [
      | inl e ↦
          rw e (record { history = s.history; counted = omega (arith, s.kept, s.total, total) })
      | inr e ↦
          let nothing : r.pruned_count ≡ 0 = ground arith in
          let all : length (survivors max_turns turns) ≡ length turns =
            omega (arith, s.kept, s.total, total) in
          let every = select_all (flags (length turns - max_turns) 0 turns) turns all in
          rw e (record {
            history = sym same ∙ ap (λ ts. map some (concat ts)) (sym every);
            counted = omega (arith, all);
          })
    ]

module _ (ctx : Ctx) (bus : Bus) (max_turns : ℕ) where
  body-PrunedTo :
      (req : Request) {turns : List Turn} {out : Request}
      → 0 < max_turns
      → group_turns ctx req.history ≡ ok turns
      → is_nil (items req.history) ≡ false
      → prune ctx bus (standard max_turns) req ≡ ok out
      → PrunedTo max_turns turns req out
  unfolding prune reconstruct
  body-PrunedTo req {turns} {out} pos g n h =
      let (ts, g', h1) = >>=-eq-ok (group_turns ctx req.history) _ (rw n at h) in
      let same : ts ≡ turns = ok-injective (sym g' ∙ g) in
      let (marked, e, h2) =
        >>=-eq-ok
          (apply_policies ctx (standard max_turns) ts (unmarked ts) req.metadata.kept_by_policy) _
          h1 in
      let (r, f, h3) = >>=-eq-ok (reconstruct ctx ts marked.0) _ h2 in
      let (u, p, h4) =
        >>=-eq-ok (if ltb 0 r.pruned_count then publish_or_fail bus system_message else ok tt) _
          h3 in
      let fl = apply_policies-flags ctx max_turns ts req.metadata.kept_by_policy pos e in
      let s =
        subst (λ ks. Selects nothing_rebuilt ks ts r) fl
          (reconstruct_loop-Selects ctx 0 marked.0 ts _ f) in
      subst (λ ts'. PrunedTo max_turns ts' req out) same
        (subst (PrunedTo max_turns ts req) (ok-injective h4)
          (pruned-PrunedTo max_turns ts req marked.1 r (group_turns-concat ctx req.history g') s))

  empty-PrunedTo :
      (req : Request) (history : Slice Message) {turns : List Turn} {out : Request}
      → req.history ≡ history
      → items history ≡ []
      → group_turns ctx history ≡ ok turns
      → prune ctx bus (standard max_turns) req ≡ ok out
      → PrunedTo max_turns turns req out
  unfolding prune group_turns group_loop
  empty-PrunedTo req none e z g h = cc
  empty-PrunedTo req (some (m ∷ ms)) e z g h = cc
  empty-PrunedTo req (some []) {turns} e z g h =
      let none_grouped : [] ≡ turns = ok-injective g in
      let empty : is_nil (items req.history) ≡ true = ap (λ s. is_nil (items s)) e in
      subst (PrunedTo max_turns turns req) (ok-injective (rw empty at h)) (
        subst (λ ts. PrunedTo max_turns ts req req) none_grouped
          (record { history = ap items e; counted = refl }))

  -- Where pruning with a window of `max_turns` succeeds, the history is the messages of the surviving
  -- turns, in order: the last `max_turns` turns and every turn that is pinned or holds a tool call, a
  -- tool response or data. The turns that are gone are added to the count of pruned turns.
  pub prune-PrunedTo :
      (req : Request) {turns : List Turn} {out : Request}
      → 0 < max_turns
      → group_turns ctx req.history ≡ ok turns
      → prune ctx bus (standard max_turns) req ≡ ok out
      → PrunedTo max_turns turns req out
  prune-PrunedTo req pos g h = elim (Bool-cases (is_nil (items req.history))) [
    | inl e ↦ empty-PrunedTo req req.history refl (is_nil-eq _ e) g h
    | inr e ↦ body-PrunedTo req pos g e h
  ]
