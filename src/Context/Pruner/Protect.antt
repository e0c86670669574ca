-- ===== src/Context/Pruner/Protect.antt =====
-- What no pruning removes.
use tell_me_go.Base.{
  ℕ, zero, suc, ◌<◌, items, ◌+◌, ◌-◌, ◌≤◌, Bool, false, ◌||◌, ◌≡◌, refl, sym, ap, ◌∙◌, List, [],
  ◌∷◌, ◌++◌, Option, none, some, append_assoc, concat, length, take, drop, leb, arith, Bool-cases,
  inl, inr, if◌then◌else◌, map,
}
use tell_me_go.Errors.{ok, Ctx}
use tell_me_go.Llm.{Part, Content, FunctionCall}
use tell_me_go.Llm.Parts.Merge.{calls_of}
use tell_me_go.Context.{Turn, Request}
use tell_me_go.Context.Turns.{group_turns}
use tell_me_go.Context.Events.{Bus}
use tell_me_go.Context.Pruner.{prune, is_turn_pinned}
use tell_me_go.Context.Pruner.Marks.{any_important, is_important, flags, standard}
use tell_me_go.Context.Pruner.Select.{select, survivors, prune-PrunedTo}

-- The pinned messages, in order.
abbrev pub pinned_of : List Content → List Content
pinned_of [] = []
pinned_of (m ∷ ms) = if m.pinned then m ∷ pinned_of ms else pinned_of ms

-- The tool calls of all messages, in order.
abbrev pub tool_calls : List Content → List FunctionCall
tool_calls [] = []
tool_calls (m ∷ ms) = calls_of m.parts ++ tool_calls ms

pinned_of-append : (xs ys : List Content) → pinned_of (xs ++ ys) ≡ pinned_of xs ++ pinned_of ys
pinned_of-append [] ys = refl
pinned_of-append (m ∷ ms) ys = ground (arith, pinned_of-append ms ys)

tool_calls-append : (xs ys : List Content) → tool_calls (xs ++ ys) ≡ tool_calls xs ++ tool_calls ys
tool_calls-append [] ys = refl
tool_calls-append (m ∷ ms) ys =
    rw (tool_calls-append ms ys)
      (sym (append_assoc (calls_of m.parts) (tool_calls ms) (tool_calls ys)))

pinned_of_unpinned : (t : Turn) → is_turn_pinned t ≡ false → pinned_of t ≡ []
pinned_of_unpinned [] h = refl
pinned_of_unpinned (m ∷ ms) h = ground (arith, pinned_of_unpinned ms)

calls_of_unimportant : (ps : List (Option Part)) → any_important ps ≡ false → calls_of ps ≡ []
calls_of_unimportant [] h = refl
calls_of_unimportant (none ∷ ps) h = calls_of_unimportant ps h
calls_of_unimportant (some p ∷ ps) h = ground (arith, calls_of_unimportant ps)

tool_calls_unimportant : (t : Turn) → is_important t ≡ false → tool_calls t ≡ []
tool_calls_unimportant [] h = refl
tool_calls_unimportant (m ∷ ms) h =
    ground (arith, calls_of_unimportant m.parts, tool_calls_unimportant ms)

-- Whatever the turns that fail the flag do not have is kept by the selection.
module _ {ℓ} {A : Type ℓ} (view : List Content → List A)
    (view-append : (xs ys : List Content) → view (xs ++ ys) ≡ view xs ++ view ys)
    (view_dropped : (t : Turn) (b : Bool)
      → (is_important t || is_turn_pinned t || b) ≡ false
      → view t ≡ []) where
  select-view :
      (start i : ℕ) (ts : List Turn)
      → view (concat (select (flags start i ts) ts)) ≡ view (concat ts)
  select-view start i [] = refl
  select-view start i (t ∷ ts) =
      elim (Bool-cases (is_important t || is_turn_pinned t || leb start i)) [
        | inl e ↦ rw e (
            view-append t _
            ∙ ap (◌++◌ (view t)) (select-view start (i + 1) ts)
            ∙ sym (view-append t (concat ts)))
        | inr e ↦ rw e (
            select-view start (i + 1) ts
            ∙ ap (λ x. x ++ view (concat ts)) (sym (view_dropped t (leb start i) e))
            ∙ sym (view-append t (concat ts)))
      ]

pinned_dropped :
    (t : Turn) (b : Bool) → (is_important t || is_turn_pinned t || b) ≡ false → pinned_of t ≡ []
pinned_dropped t b h = pinned_of_unpinned t (ground arith)

calls_dropped :
    (t : Turn) (b : Bool) → (is_important t || is_turn_pinned t || b) ≡ false → tool_calls t ≡ []
calls_dropped t b h = tool_calls_unimportant t (ground arith)

-- Behind `start` nothing is dropped.
select_behind : (start i : ℕ) (ts : List Turn) → start ≤ i → select (flags start i ts) ts ≡ ts
select_behind start i [] h = refl
select_behind start i (t ∷ ts) h = ground (arith, select_behind start (i + 1) ts)

-- Some of the turns, each of them whole, in their order.
pub data IsSelection : List Turn → List Turn → Type 0 where
  nothing : IsSelection [] []
  keeping :
      (t : Turn) {kept turns : List Turn}
      → IsSelection kept turns
      → IsSelection (t ∷ kept) (t ∷ turns)
  dropping :
      (t : Turn) {kept turns : List Turn} → IsSelection kept turns → IsSelection kept (t ∷ turns)

select-suffix :
    (start d i : ℕ) (ts : List Turn)
    → start ≡ i + d
    → (front : List Turn) × IsSelection front (take d ts)
      × (select (flags start i ts) ts ≡ front ++ drop d ts)
select-suffix start zero i ts h = ([], nothing, select_behind start i ts (omega arith))
select-suffix start (suc d) i [] h = ([], nothing, refl)
select-suffix start (suc d) i (t ∷ ts) h =
    let (front, some_of, e) = select-suffix start d (i + 1) ts (omega arith) in
    elim (Bool-cases (is_important t || is_turn_pinned t || leb start i)) [
      | inl b ↦ (t ∷ front, keeping t some_of, rw b (ap (◌∷◌ t) e))
      | inr b ↦ (front, dropping t some_of, rw b e)
    ]

survivors_protected :
    (max_turns : ℕ) (turns : List Turn)
    → (pinned_of (concat (survivors max_turns turns)) ≡ pinned_of (concat turns))
      × (tool_calls (concat (survivors max_turns turns)) ≡ tool_calls (concat turns))
      × (front : List Turn) × IsSelection front (take (length turns - max_turns) turns)
      × (survivors max_turns turns ≡ front ++ drop (length turns - max_turns) turns)
survivors_protected max_turns turns =
    let start = length turns - max_turns in
    let (front, some_of, e) = select-suffix start start 0 turns (omega arith) in
    (
      select-view pinned_of pinned_of-append pinned_dropped start 0 turns,
      select-view tool_calls tool_calls-append calls_dropped start 0 turns,
      front,
      some_of,
      e,
    )

-- Pruning with a positive window drops whole turns only: what is left are some of the turns in front of
-- the last `max_turns` ones, each of them whole and in their order, and behind them those last ones. Every
-- pinned message and every tool call of the history is kept, each in its order.
pub prune-protected :
    (ctx : Ctx) (bus : Bus) (max_turns : ℕ) (req : Request) {turns : List Turn} {out : Request}
    → 0 < max_turns
    → group_turns ctx req.history ≡ ok turns
    → prune ctx bus (standard max_turns) req ≡ ok out
    → (kept : List Turn) × (items out.history ≡ map some (concat kept))
      × (pinned_of (concat kept) ≡ pinned_of (concat turns))
      × (tool_calls (concat kept) ≡ tool_calls (concat turns))
      × (front : List Turn) × IsSelection front (take (length turns - max_turns) turns)
      × (kept ≡ front ++ drop (length turns - max_turns) turns)
prune-protected ctx bus max_turns req {turns} pos g h =
    let (pinned, calls, front, some_of, ends) = survivors_protected max_turns turns in
    let survived = prune-PrunedTo ctx bus max_turns req pos g h in
    (survivors max_turns turns, survived.history, pinned, calls, front, some_of, ends)
