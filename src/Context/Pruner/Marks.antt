-- ===== src/Context/Pruner/Marks.antt =====
-- The flags that the policies of the standard pipeline set.
use tell_me_go.Base.{
  ℕ, ◌+◌, ◌-◌, ◌<◌, Bool, false, ◌||◌, ◌≡◌, refl, sym, ap, ◌∙◌, List, [], ◌∷◌, Option, none, some,
  any, length, leb, ltb, ◌==◌, arith, if◌then◌else◌,
}
use tell_me_go.Errors.{Result, ok, Ctx, poll_at, >>=-eq-ok, ok-injective}
use tell_me_go.Llm.{Part}
use tell_me_go.Context.{Turn}
use tell_me_go.Context.Pruner.{
  Policy, mark_window, mark_sliding, mark_where, is_important_part, has_important_parts,
  is_turn_important, is_turn_pinned, sliding_window, importance, pinning, KeptByPolicy,
  apply_policies, unmarked,
}

-- A part that holds a function call, a function response or data.
abbrev pub any_important : List (Option Part) → Bool
any_important [] = false
any_important (none ∷ ps) = any_important ps
any_important (some p ∷ ps) = is_important_part p || any_important ps

abbrev pub is_important : Turn → Bool
is_important = any (λ m. any_important m.parts)

-- A turn survives if it stands at `start` or behind it, is pinned, or is important.
abbrev pub flags : ℕ → ℕ → List Turn → List Bool
flags start i [] = []
flags start i (t ∷ ts) =
    (is_important t || is_turn_pinned t || leb start i) ∷ flags start (i + 1) ts

has_important_parts-any :
    (ps : List (Option Part)) {b : Bool} → has_important_parts ps ≡ ok b → b ≡ any_important ps
unfolding has_important_parts
has_important_parts-any [] h = ground arith
has_important_parts-any (none ∷ ps) h = cc
has_important_parts-any (some p ∷ ps) {b} h = ground (arith, has_important_parts-any ps {b = b})

is_turn_important-is_important :
    (t : Turn) {b : Bool} → is_turn_important t ≡ ok b → b ≡ is_important t
unfolding is_turn_important
is_turn_important-is_important [] h = ground arith
is_turn_important-is_important (m ∷ ms) {b} h =
    let (c, e, f) = >>=-eq-ok (has_important_parts m.parts) _ h in
    ground (arith, has_important_parts-any m.parts e, is_turn_important-is_important ms {b = b})

abbrev or_window : ℕ → ℕ → List Bool → List Bool
or_window start i [] = []
or_window start i (k ∷ ks) = (leb start i || k) ∷ or_window start (i + 1) ks

abbrev or_where : (Turn → Bool) → List Turn → List Bool → List Bool
or_where p [] ks = ks
or_where p (t ∷ ts) [] = []
or_where p (t ∷ ts) (k ∷ ks) = (p t || k) ∷ or_where p ts ks

mark_window-or_window :
    (ctx : Ctx) (start i : ℕ) (ks : List Bool) {out : ℕ × List Bool}
    → mark_window ctx start i ks ≡ ok out
    → out.1 ≡ or_window start i ks
unfolding mark_window
mark_window-or_window ctx start i [] h = ground arith
mark_window-or_window ctx start i (k ∷ ks) h =
    let (u, e, f) = >>=-eq-ok (if ltb i start then ok tt else poll_at ctx i) _ h in
    let (r, g, j) = >>=-eq-ok (mark_window ctx start (i + 1) ks) _ f in
    ground (arith, ok-injective j, mark_window-or_window ctx start (i + 1) ks g)

mark_where-or_where :
    (test : Turn → Result Bool) (p : Turn → Bool)
    → ((t : Turn) (b : Bool) → test t ≡ ok b → b ≡ p t)
    → (ctx : Ctx) (i : ℕ) (ts : List Turn) (ks : List Bool) {out : ℕ × List Bool}
    → mark_where test ctx i ts ks ≡ ok out
    → out.1 ≡ or_where p ts ks
unfolding mark_where
mark_where-or_where test p same ctx i [] ks h = ground arith
mark_where-or_where test p same ctx i (t ∷ ts) [] h = cc
mark_where-or_where test p same ctx i (t ∷ ts) (k ∷ ks) h =
    let (u, e, f) = >>=-eq-ok (poll_at ctx i) _ h in
    let (b, g, j) = >>=-eq-ok (test t) _ f in
    let (r, l, m) = >>=-eq-ok (mark_where test ctx (i + 1) ts ks) _ j in
    ground (arith, same t b g, ok-injective m, mark_where-or_where test p same ctx (i + 1) ts ks l)

or_all-flags :
    (start i : ℕ) (ts : List Turn)
    → or_where is_important ts (or_where is_turn_pinned ts (or_window start i (unmarked ts)))
      ≡ flags start i ts
or_all-flags start i [] = refl
or_all-flags start i (t ∷ ts) = ground (arith, or_all-flags start (i + 1) ts)

-- `BuildStandardPipeline`: the three policies.
abbrev pub standard : ℕ → List Policy
standard max_turns = sliding_window max_turns ∷ pinning ∷ importance ∷ []

mark_sliding-or_window :
    (max_turns : ℕ) (ctx : Ctx) (ts : List Turn) (ks : List Bool) {out : ℕ × List Bool}
    → 0 < max_turns
    → mark_sliding max_turns ctx ts ks ≡ ok out
    → out.1 ≡ or_window (length ts - max_turns) 0 ks
unfolding mark_sliding
mark_sliding-or_window max_turns ctx ts ks {out} pos h =
    let z : (max_turns == 0) ≡ false = ground arith in
    mark_window-or_window ctx (length ts - max_turns) 0 ks (rw z at h)

pub apply_policies-flags :
    (ctx : Ctx) (max_turns : ℕ) (ts : List Turn) (kept : KeptByPolicy)
    {out : List Bool × KeptByPolicy}
    → 0 < max_turns
    → apply_policies ctx (standard max_turns) ts (unmarked ts) kept ≡ ok out
    → out.0 ≡ flags (length ts - max_turns) 0 ts
unfolding apply_policies sliding_window pinning importance
apply_policies-flags ctx max_turns ts kept pos h =
    let (a, e, f) = >>=-eq-ok (mark_sliding max_turns ctx ts (unmarked ts)) _ h in
    let (b, g, j) = >>=-eq-ok (mark_where (λ t. ok (is_turn_pinned t)) ctx 0 ts a.1) _ f in
    let (c, l, m) = >>=-eq-ok (mark_where is_turn_important ctx 0 ts b.1) _ j in
    let window = mark_sliding-or_window max_turns ctx ts (unmarked ts) pos e in
    let pinned =
      mark_where-or_where (λ t. ok (is_turn_pinned t)) is_turn_pinned
        (λ t x y. sym (ok-injective y)) ctx 0 ts a.1 g in
    let important =
      mark_where-or_where is_turn_important is_important
        (λ t x y. is_turn_important-is_important t y) ctx 0 ts b.1 l in
    ap (λ o. o.0) (sym (ok-injective m))
    ∙ important
    ∙ ap (or_where is_important ts) (pinned ∙ ap (or_where is_turn_pinned ts) window)
    ∙ or_all-flags (length ts - max_turns) 0 ts
