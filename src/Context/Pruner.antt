-- ===== src/Context/Pruner.antt =====
-- internal/agent/session/context/pruner.go: the pruning policies and `HistoryPruner`. A policy is its
-- name and its method `MarkTurns`, which returns the count and the changed flags; a limit of turns
-- that is negative behaves as 0.
pub mod Marks
pub mod Select
pub mod Protect
use tell_me_go.Base.{
  ℕ, ◌+◌, ◌-◌, Bool, true, false, not, ◌||◌, Bytes, codes, bytes_eq, List, [], ◌∷◌, ◌++◌, Option,
  none, some, Slice, items, append_slice, map, any, length, is_nil, is_none, ltb, ◌==◌,
  if◌then◌else◌,
}
use tell_me_go.Errors.{Result, ok, err, nil_dereference, Ctx, poll_at, ◌>>=◌, ◌>>◌}
use tell_me_go.Llm.{Part, Content}
use tell_me_go.Context.{Message, Turn, Request}
use tell_me_go.Context.Turns.{group_turns}
use tell_me_go.Context.Events.{Bus, system_message, publish_or_fail}

pub record Policy : Type 0 where
  pub name : Bytes
  pub mark_turns : Ctx → List Turn → List Bool → Result (ℕ × List Bool)

-- `SlidingWindowPolicy`: the loop sets the flags from `start` on.
unfoldable pub mark_window : Ctx → ℕ → ℕ → List Bool → Result (ℕ × List Bool)
mark_window ctx start i [] = ok (0, [])
mark_window ctx start i (k ∷ ks) = do
  (if ltb i start then ok tt else poll_at ctx i)
  (count, rest) ← mark_window ctx start (i + 1) ks
  ok (if ltb i start then (count, k ∷ rest) else (count + 1, true ∷ rest))

unfoldable pub mark_sliding : ℕ → Ctx → List Turn → List Bool → Result (ℕ × List Bool)
mark_sliding max_turns ctx turns keep =
    if max_turns == 0 then ok (0, keep) else mark_window ctx (length turns - max_turns) 0 keep

-- The loop that `importanceRankPolicy` and `pinningPolicy` share. A flag that is missing would be an
-- index out of range.
unfoldable pub mark_where :
    (Turn → Result Bool) → Ctx → ℕ → List Turn → List Bool → Result (ℕ × List Bool)
mark_where test ctx i [] keep = ok (0, keep)
mark_where test ctx i (t ∷ ts) [] = err nil_dereference
mark_where test ctx i (t ∷ ts) (k ∷ ks) = do
  poll_at ctx i
  hit ← test t
  (count, rest) ← mark_where test ctx (i + 1) ts ks
  ok (if hit then (count + 1, true ∷ rest) else (count, k ∷ rest))

abbrev pub is_important_part : Part → Bool
is_important_part p =
    not (is_none p.function_call)
    || not (is_none p.function_response)
    || not (is_none p.inline_data)

unfoldable pub has_important_parts : List (Option Part) → Result Bool
has_important_parts [] = ok false
has_important_parts (none ∷ ps) = err nil_dereference
has_important_parts (some p ∷ ps) =
    let rest = has_important_parts ps in if is_important_part p then ok true else rest

unfoldable pub is_turn_important : Turn → Result Bool
is_turn_important [] = ok false
is_turn_important (m ∷ ms) = do
  important ← has_important_parts m.parts
  let rest = is_turn_important ms
  if important then ok true else rest

abbrev pub is_turn_pinned : Turn → Bool
is_turn_pinned = any (λ m. m.pinned)

unfoldable pub sliding_window : ℕ → Policy
sliding_window max_turns = record {
  name = codes "SlidingWindow";
  mark_turns = mark_sliding max_turns;
}

unfoldable pub importance : Policy
importance = record {
  name = codes "Importance";
  mark_turns = λ ctx turns keep. mark_where is_turn_important ctx 0 turns keep;
}

unfoldable pub pinning : Policy
pinning = record {
  name = codes "Pinning";
  mark_turns = λ ctx turns keep. mark_where (λ t. ok (is_turn_pinned t)) ctx 0 turns keep;
}

abbrev pub KeptByPolicy : Type 0
KeptByPolicy = List (Bytes × ℕ)

-- `keptByPolicy[name] = count`.
set_kept : Bytes → ℕ → KeptByPolicy → KeptByPolicy
set_kept name count [] = (name, count) ∷ []
set_kept name count ((n, c) ∷ rest) =
    if bytes_eq n name then (name, count) ∷ rest else (n, c) ∷ set_kept name count rest

-- `applyPruningPolicies` for a composite policy: each policy in turn, on the same flags.
unfoldable pub apply_policies :
    Ctx → List Policy → List Turn → List Bool → KeptByPolicy → Result (List Bool × KeptByPolicy)
unfolding set_kept
apply_policies ctx [] turns keep kept = ok (keep, kept)
apply_policies ctx (p ∷ ps) turns keep kept = do
  (count, marked) ← p.mark_turns ctx turns keep
  apply_policies ctx ps turns marked (set_kept p.name count kept)

-- What `reconstructHistory` builds.
pub record Rebuilt : Type 0 where
  pub history : Slice Message
  pub pruned_count : ℕ
  pub kept_count : ℕ

abbrev pub nothing_rebuilt : Rebuilt
nothing_rebuilt = record { history = none; pruned_count = 0; kept_count = 0 }

unfoldable pub reconstruct_loop : Ctx → ℕ → List Bool → List Turn → Rebuilt → Result Rebuilt
reconstruct_loop ctx i [] turns acc = ok acc
reconstruct_loop ctx i (k ∷ ks) [] acc = err nil_dereference
reconstruct_loop ctx i (k ∷ ks) (t ∷ ts) acc = do
  poll_at ctx i
  reconstruct_loop ctx (i + 1) ks ts (
      if k
      then record acc {
        history = append_slice acc.history (map some t);
        kept_count = acc.kept_count + 1;
      }
      else record acc { pruned_count = acc.pruned_count + 1 })

unfoldable pub reconstruct : Ctx → List Turn → List Bool → Result Rebuilt
reconstruct ctx turns keep = reconstruct_loop ctx 0 keep turns nothing_rebuilt

abbrev pub unmarked : List Turn → List Bool
unmarked = map (λ t. false)

abbrev pub pruned : Request → KeptByPolicy → Rebuilt → Request
pruned req kept r =
    let marked = record req { metadata = record req.metadata { kept_by_policy = kept } } in
    if ltb 0 r.pruned_count
    then record marked {
      history = r.history;
      metadata = record marked.metadata {
        pruned_turns = req.metadata.pruned_turns + r.pruned_count;
        total_turns_kept = req.metadata.total_turns_kept + r.kept_count;
      };
    }
    else marked

-- `HistoryPruner.Transform`. `reportPruning` publishes one event.
unfoldable pub prune : Ctx → Bus → List Policy → Request → Result Request
prune ctx bus policies req = if is_nil (items req.history) then ok req else do
  turns ← group_turns ctx req.history
  (keep, kept) ← apply_policies ctx policies turns (unmarked turns) req.metadata.kept_by_policy
  rebuilt ← reconstruct ctx turns keep
  (if ltb 0 rebuilt.pruned_count then publish_or_fail bus system_message else ok tt)
  ok (pruned req kept rebuilt)
