-- ===== src/Context/Summary/Covered.antt =====
-- The messages that a summary replaces.
use tell_me_go.Base.{
  ℕ, ◌+◌, ◌≤◌, ◌<◌, false, ◌≡◌, refl, sym, ap, ◌∙◌, subst, List, [], ◌∷◌, ◌++◌, none, some, Slice,
  items, map, concat, All, All-append, length, length-append, take, drop, ltb, arith, Bool-cases,
  inl, inr,
}
use tell_me_go.Errors.{ok, Ctx, >>=-eq-ok, ok-injective}
use tell_me_go.Llm.{Content}
use tell_me_go.Context.{Message, Turn}
use tell_me_go.Context.Turns.{group_turns}
use tell_me_go.Context.Turns.Partition.{group_turns-concat}
use tell_me_go.Context.Pruner.{is_turn_pinned}
use tell_me_go.Context.Summary.{
  contiguous_unpinned, Block, locate_candidate_block, count_messages, Range, target_turns, range_of,
  find_summarizable_range,
}
use tell_me_go.Context.Summary.Located.{Candidates, IsBlock, locate_candidate_block-IsBlock}

module _ {ℓ} {A : Type ℓ} where
  take-append_self : (xs ys : List A) → take (length xs) (xs ++ ys) ≡ xs
  take-append_self [] ys = refl
  take-append_self (x ∷ xs) ys = ap (◌∷◌ x) (take-append_self xs ys)

  drop-append_self : (xs ys : List A) → drop (length xs) (xs ++ ys) ≡ ys
  drop-append_self [] ys = refl
  drop-append_self (x ∷ xs) ys = drop-append_self xs ys

count_messages-concat : (ts : List Turn) → count_messages ts ≡ length (concat ts)
unfolding count_messages
count_messages-concat [] = refl
count_messages-concat (t ∷ ts) =
    omega (arith, length-append t (concat ts), count_messages-concat ts)

abbrev pub Unpinned : List Content → Type 0
Unpinned = All (λ m. m.pinned ≡ false)

-- The range `[start, stop)` is that of the messages of `block`: a run of `num_turns` whole turns, at
-- least two, none of whose messages is pinned.
pub record Covers (turns : List Turn) (r : Range) : Type 0 where
  pub before : List Turn
  pub block : List Turn
  pub after : List Turn
  pub splits : turns ≡ before ++ (block ++ after)
  pub start_is : r.start ≡ length (concat before)
  pub stop_is : r.stop ≡ length (concat before) + length (concat block)
  pub num_is : r.num_turns ≡ length block
  pub unpinned : Unpinned (concat block)
  pub viable : 2 ≤ r.num_turns

Unpinned-turn : (t : Turn) → is_turn_pinned t ≡ false → Unpinned t
Unpinned-turn [] h = tt
Unpinned-turn (m ∷ ms) h = (ground arith, Unpinned-turn ms (ground arith))

Unpinned-turns : (ts : List Turn) → Candidates contiguous_unpinned ts → Unpinned (concat ts)
Unpinned-turns [] h = tt
Unpinned-turns (t ∷ ts) h =
    All-append _ t (concat ts) (Unpinned-turn t (ground (arith, h.0))) (Unpinned-turns ts h.1)

block-Covers :
    (turns : List Turn) (s n high : ℕ)
    → 2 ≤ n
    → IsBlock contiguous_unpinned turns s n high
    → Covers turns (record {
      start = count_messages (take s turns);
      stop = count_messages (take s turns) + count_messages (take n (drop s turns));
      num_turns = n;
    })
block-Covers turns s n high viable b =
    let taken : take s turns ≡ b.before =
      subst (λ k. take k turns ≡ b.before) b.at
        (ap (take (length b.before)) b.splits ∙ take-append_self b.before _) in
    let dropped : drop s turns ≡ b.block ++ b.after =
      subst (λ k. drop k turns ≡ b.block ++ b.after) b.at
        (ap (drop (length b.before)) b.splits ∙ drop-append_self b.before _) in
    let inner : take n (drop s turns) ≡ b.block =
      subst (λ k. take k (drop s turns) ≡ b.block) b.size
        (ap (take (length b.block)) dropped ∙ take-append_self b.block b.after) in
    let front = ap count_messages taken ∙ count_messages-concat b.before in
    let size = ap count_messages inner ∙ count_messages-concat b.block in
    record {
      before = b.before;
      block = b.block;
      after = b.after;
      splits = b.splits;
      start_is = front;
      stop_is = omega (arith, front, size);
      num_is = sym b.size;
      unpinned = Unpinned-turns b.block b.candidates;
      viable = viable;
    }

range-Covers :
    (ctx : Ctx) (turns : List Turn) (target : ℕ) (b : Block) {r : Range}
    → 0 < target
    → locate_candidate_block ctx turns target contiguous_unpinned ≡ b
    → range_of turns contiguous_unpinned b ≡ ok r
    → Covers turns r
range-Covers ctx turns target (none, n) pos e h = cc
range-Covers ctx turns target (some s, n) pos e h = elim (Bool-cases (ltb n 2)) [
  | inl few ↦ absurd (ground (arith, few, h))
  | inr enough ↦ subst (Covers turns) (ok-injective (rw enough at h)) (
      block-Covers turns s n target (ground arith)
        (locate_candidate_block-IsBlock contiguous_unpinned ctx turns target pos e))
]

-- The range that is summarized is a run of whole turns of the history, as many as it says and at least
-- two, without a pinned message, and its ends are indices of messages into the history, whose messages
-- are those of the turns one after the other.
pub find_summarizable_range-Covers :
    (ctx : Ctx) (history : Slice Message) {r : Range}
    → find_summarizable_range ctx contiguous_unpinned history ≡ ok r
    → (turns : List Turn) × (group_turns ctx history ≡ ok turns)
      × (map some (concat turns) ≡ items history)
      × Covers turns r
unfolding find_summarizable_range
find_summarizable_range-Covers ctx history h =
    let (turns, g, f) = >>=-eq-ok (group_turns ctx history) _ h in
    (
      turns,
      g,
      group_turns-concat ctx history g,
      range-Covers ctx turns (target_turns turns contiguous_unpinned) _ (ground arith) refl f,
    )
