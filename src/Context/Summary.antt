-- ===== src/Context/Summary.antt =====
-- internal/agent/session/context/candidate_selector.go and gatekeeper.go: which stretch of the
-- history is summarized, and how the summary takes its place. A start index of -1 is `none`. The two
-- random IDs of the inserted messages are arguments.
pub mod Located
pub mod Covered
pub mod Roles
pub mod Inserted
use tell_me_go.Base.{
  ℕ, ◌+◌, ◌-◌, ◌/◌, Bool, true, false, not, Bytes, codes, List, [], ◌∷◌, ◌++◌, Option, none, some,
  Slice, items, last?, is_none, length, take, drop, ltb, leb, if◌then◌else◌,
}
use tell_me_go.Errors.{Result, ok, err, fails_plain, nil_dereference, Ctx, ◌>>=◌}
use tell_me_go.Llm.{Content, user, model, has_role, text_part}
use tell_me_go.Llm.Clone.{clone_content}
use tell_me_go.Context.{Message, Turn}
use tell_me_go.Context.Turns.{group_turns}
use tell_me_go.Context.Pruner.{is_turn_pinned}

-- `candidateSelector`, and `contiguousUnpinnedSelector`.
pub record Selector : Type 0 where
  pub is_candidate : Turn → Bool
  pub min_viable_block : ℕ

abbrev pub contiguous_unpinned : Selector
contiguous_unpinned = record { is_candidate = λ t. not (is_turn_pinned t); min_viable_block = 2 }

abbrev pub Block : Type 0
Block = Option ℕ × ℕ

-- The loop of `locateCandidateBlock`, which asks the context at every turn.
unfoldable pub locate_loop : Ctx → ℕ → Selector → ℕ → List Turn → Option ℕ → ℕ → Block
locate_loop ctx target sel i [] start num = (start, num)
locate_loop (some e) target sel i (t ∷ ts) start num = (none, 0)
locate_loop none target sel i (t ∷ ts) start num =
    let first = if is_none start then some i else start in
    let reset = locate_loop none target sel (i + 1) ts none 0 in
    let more = locate_loop none target sel (i + 1) ts first (num + 1) in
    if not (sel.is_candidate t)
    then (if leb sel.min_viable_block num then (start, num) else reset)
    else if leb target (num + 1)
    then (first, num + 1)
    else more

unfoldable pub locate_candidate_block : Ctx → List Turn → ℕ → Selector → Block
locate_candidate_block ctx turns target sel = locate_loop ctx target sel 0 turns none 0

unfoldable pub count_messages : List Turn → ℕ
count_messages [] = 0
count_messages (t ∷ ts) = length t + count_messages ts

-- The message range `[start, stop)` and its number of turns.
pub record Range : Type 0 where
  pub start : ℕ
  pub stop : ℕ
  pub num_turns : ℕ

abbrev pub target_turns : List Turn → Selector → ℕ
target_turns turns sel =
    if ltb (length turns / 2) sel.min_viable_block then sel.min_viable_block else length turns / 2

abbrev pub range_of : List Turn → Selector → Block → Result Range
range_of turns sel (none, num) = fails_plain
range_of turns sel (some start, num) =
    if ltb num sel.min_viable_block
    then fails_plain
    else ok (record {
      start = count_messages (take start turns);
      stop = count_messages (take start turns) + count_messages (take num (drop start turns));
      num_turns = num;
    })

-- `findSummarizableRange`.
unfoldable pub find_summarizable_range : Ctx → Selector → Slice Message → Result Range
find_summarizable_range ctx sel history = do
  turns ← group_turns ctx history
  range_of turns sel (locate_candidate_block ctx turns (target_turns turns sel) sel)

abbrev pub summary_head : Bytes
summary_head = codes "system auto-summary (context limit reached):\n\n"

abbrev pub acknowledgement : Bytes
acknowledgement = codes "understood: context compressed"

abbrev pub new_message : Bytes → Bytes → Bytes → Content
new_message role id text = record {
  role = role;
  id = id;
  parts = some (text_part text) ∷ [];
  token_count = 0;
  pinned = false;
  transient_parts = [];
}

-- `xs[:len(xs)-1]`.
abbrev pub drop_last {ℓ} : {A : Type ℓ} → List A → List A
drop_last [] = []
drop_last (x ∷ []) = []
drop_last (x ∷ (y ∷ ys)) = x ∷ drop_last (y ∷ ys)

abbrev pub with_suffix : Content → Bytes → Content
with_suffix m text =
    let cloned = clone_content m in
    record cloned { parts = cloned.parts ++ (some (text_part text) ∷ []) }

abbrev pub with_prefix : Content → Bytes → Content
with_prefix m text =
    let cloned = clone_content m in record cloned { parts = some (text_part text) ∷ cloned.parts }

-- A user message with the summary behind its text, and a model message with the acknowledgement in
-- front of it.
abbrev pub summary_joined : Content → Bytes → Content
summary_joined m text = with_suffix m (codes "\n\n" ++ text)

abbrev pub acknowledged : Content → Content
acknowledged m = with_prefix m (acknowledgement ++ codes "\n\n")

abbrev pub sum_model : Bytes → Content
sum_model id = new_message model id acknowledgement

-- The first seam: behind a user message the summary becomes part of it, so that roles alternate.
unfoldable pub open_summary :
    List Message → Option Message → Bytes → Bytes → Bytes → Result (List Message)
open_summary updated none id1 id2 text =
    ok (updated ++ (some (new_message user id1 text) ∷ some (sum_model id2) ∷ []))
open_summary updated (some none) id1 id2 text = err nil_dereference
open_summary updated (some (some last)) id1 id2 text = ok (
    if has_role last user
    then drop_last updated ++ (some (summary_joined last text) ∷ some (sum_model id2) ∷ [])
    else updated ++ (some (new_message user id1 text) ∷ some (sum_model id2) ∷ []))

-- The second seam: a model message behind the summary takes the acknowledgement's place.
unfoldable pub close_summary : List Message → List Message → Result (List Message)
close_summary updated [] = ok updated
close_summary updated (none ∷ rest) = err nil_dereference
close_summary updated (some first ∷ rest) = ok (
    if has_role first model
    then drop_last updated ++ (some (acknowledged first) ∷ rest)
    else updated ++ (some first ∷ rest))

-- `applySummaryToHistory`.
unfoldable pub apply_summary : Bytes → Bytes → List Message → ℕ → ℕ → Bytes → Result (List Message)
apply_summary id1 id2 history start stop summary = do
  opened ←
      open_summary (take start history) (last? (take start history)) id1 id2
        (summary_head ++ summary)
  close_summary opened (drop stop history)
