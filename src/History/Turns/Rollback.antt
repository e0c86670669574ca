-- ===== src/History/Turns/Rollback.antt =====
-- What a rollback leaves.
use tell_me_go.Base.{ℕ, ◌+◌, ◌-◌, ◌*◌, ◌/◌, ◌≤◌, ◌<◌, Bool, true, false, ◌≡◌, arith, if◌then◌else◌}
use tell_me_go.History.Turns.{rollback_bounds, remaining_turns, turns_to_rollback}

abbrev pub system_messages : Bool → ℕ
system_messages has_system = if has_system then 1 else 0

-- A rollback leaves the system message and whole turns: what stands behind the system message is two
-- messages for each of the remaining turns that are reported, and where turns are asked for, as many
-- turns are gone as are reported, all of them at most.
pub rollback_bounds_lem :
    (original turns : ℕ) (has_system : Bool)
    → system_messages has_system ≤ original
    → 0 < turns
    → ((rollback_bounds original turns has_system).0 ≤ turns)
      × ((rollback_bounds original turns has_system).1
          ≡ system_messages has_system
            + 2 * remaining_turns (rollback_bounds original turns has_system).1 has_system)
      × ((original - system_messages has_system + 1) / 2
          ≡ (rollback_bounds original turns has_system).0
            + remaining_turns (rollback_bounds original turns has_system).1 has_system)
unfolding rollback_bounds remaining_turns
rollback_bounds_lem original turns true h pos = ground arith
rollback_bounds_lem original turns false h pos = ground arith

-- Retrying: a rollback by the turns that are counted behind a user message leaves just the messages in
-- front of it, where user messages stand at even distances behind the system message.
pub rollback_bounds-turns_to_rollback :
    (total i k : ℕ) (has_system : Bool)
    → i < total
    → i ≡ system_messages has_system + 2 * k
    → (rollback_bounds total (turns_to_rollback total i) has_system).1 ≡ i
unfolding rollback_bounds turns_to_rollback
rollback_bounds-turns_to_rollback total i k true h e = ground arith
rollback_bounds-turns_to_rollback total i k false h e = ground arith
