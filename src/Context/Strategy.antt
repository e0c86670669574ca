-- ===== src/Context/Strategy.antt =====
-- internal/agent/session/context/strategy.go: the limits of a session and the warnings they call for.
-- The lock is left out: every method holds it from its first line to its last. A ratio of floats is
-- compared by cross-multiplying, which answers the same below 2^50; the ratio to a limit of 0 is
-- infinite, or not a number, as the products say.
mod Notices
use Notices.*
use tell_me_go.Base.{
  ℕ, zero, suc, ◌+◌, ◌-◌, ◌*◌, ◌/◌, ◌%◌, Bool, List, [], ◌∷◌, ◌++◌, Option, none, some, Bytes,
  is_nil, ltb, leb, ◌==◌, if◌then◌else◌,
}
use tell_me_go.Context.{Message}

-- Estimation goes to the counter. Limits are taken from integers that may be negative: `none` is a
-- negative one.
pub record Strategy : Type 0 where
  pub counter : List Message → ℕ
  pub max_history_tokens : ℕ
  pub max_tool_turns : ℕ
  pub max_history_turns : ℕ
  pub context_window : ℕ

unfoldable pub new_strategy : (List Message → ℕ) → Strategy
new_strategy counter = record {
  counter = counter;
  max_history_tokens = 120000;
  max_tool_turns = 200;
  max_history_turns = 0;
  context_window = 1000000;
}

-- `SetContextWindow`; a negative window is as 0.
unfoldable pub set_context_window : Strategy → ℕ → Strategy
set_context_window s window = if ltb 0 window then record s { context_window = window } else s

abbrev kept_or : ℕ → Option ℕ → ℕ
kept_or old none = old
kept_or old (some n) = n

-- `SetLimits`.
unfoldable pub set_limits : Strategy → Option ℕ → Option ℕ → Option ℕ → Strategy
set_limits s history_tokens tool_turns history_turns = record s {
  max_history_tokens = kept_or s.max_history_tokens history_tokens;
  max_tool_turns = kept_or s.max_tool_turns tool_turns;
  max_history_turns = kept_or s.max_history_turns history_turns;
}

-- `getTurnWarningLocked`.
unfoldable pub turn_warning : Strategy → ℕ → Bytes
turn_warning s turn =
    let remaining = s.max_tool_turns - turn in
    if remaining == 3
    then three_turns_remain
    else if remaining == 2
    then two_turns_remain
    else if remaining == 1
    then one_turn_remains
    else []

-- `getTokenWarningLocked`.
unfoldable pub token_warning : Strategy → ℕ → Bytes
token_warning s tokens =
    if ltb (95 * s.max_history_tokens) (100 * tokens)
    then tokens_at_95
    else if ltb (90 * s.max_history_tokens) (100 * tokens)
    then tokens_at_90
    else []

-- `%d`; a 64-bit integer has at most 20 digits.
unfoldable pub decimal : ℕ → ℕ → Bytes
decimal zero n = []
decimal (suc fuel) n =
    let rest = decimal fuel (n / 10) in (if ltb n 10 then [] else rest) ++ (48 + n % 10) ∷ []

-- `getHistoryTurnWarningLocked`.
unfoldable pub history_turn_warning : Strategy → ℕ → ℕ → Bytes
history_turn_warning s current_turns pruned_turns =
    if s.max_history_turns == 0
    then []
    else if ltb 5 pruned_turns
    then cleanup_before ++ decimal 20 pruned_turns ++ cleanup_after
    else if ltb 0 pruned_turns
    then []
    else if leb s.max_history_turns current_turns
    then []
    else if ltb (95 * s.max_history_turns) (100 * current_turns)
    then turns_at_95
    else if ltb (90 * s.max_history_turns) (100 * current_turns)
    then turns_at_90
    else []

abbrev listed : Bytes → List Bytes
listed w = if is_nil w then [] else w ∷ []

-- `getWarnings`.
unfoldable pub get_warnings : Strategy → ℕ → ℕ → ℕ → ℕ → List Bytes
get_warnings s turn tokens current_turns pruned_turns =
    listed (turn_warning s turn)
    ++ listed (token_warning s tokens)
    ++ listed (history_turn_warning s current_turns pruned_turns)

-- `getCloggedWarning`.
abbrev pub clogged_warning : Bytes
clogged_warning = clogged
