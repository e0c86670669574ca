-- ===== src/Examples/Histories.antt =====
-- A file that is a list of lines, and the history's theorems at it.
use Backend.{append}
use Backend.{append_all}
use Backend.{and_then}
use Backend.{update_metadata}
use Backend.{save}
use tell_me_go.History.Edit.{insert_at}
use tell_me_go.History.Edit.{text_index}
use tell_me_go.History.Edit.{insert_or_append}
use tell_me_go.History.Edit.{rebuild_text_parts}
use tell_me_go.History.Edit.{insert_thought}
use tell_me_go.History.Lines.{entry_lines}
use tell_me_go.History.Memory.{read_parts}
use tell_me_go.History.Memory.{pin_second}
use tell_me_go.History.Turns.{pair_forward}
use tell_me_go.History.Turns.{has_function_response}
use tell_me_go.History.Memory.{update_at}
use tell_me_go.History.Turns.{pair_backward}
use tell_me_go.History.Turns.{has_function_call}
use tell_me_go.Base.{bytes_eq}
use tell_me_go.History.Memory.{index_of}
use tell_me_go.History.Memory.{updated_parts}
use tell_me_go.History.Memory.{edited}
use tell_me_go.History.Memory.{update_turn_content}
use tell_me_go.History.Memory.{pin_pair}
use tell_me_go.History.Memory.{set_pinned}
use tell_me_go.History.Turns.{message_at}
use tell_me_go.History.Lines.{parts_line}
use tell_me_go.History.Memory.{appended}
use tell_me_go.History.Memory.{append_parts}
use tell_me_go.History.Lines.{prepare_part}
use tell_me_go.Llm.Clone.{clone_content}
use tell_me_go.History.Lines.{prepare_parts}
use tell_me_go.History.Lines.{entry_line}
use tell_me_go.History.Memory.{add_content}
use tell_me_go.Base.{
  ℕ, ◌+◌, ◌*◌, ◌/◌, ◌-◌, ◌≤◌, true, ◌≡◌, refl, sym, ap, ◌⊎◌, List, [], ◌∷◌, ◌++◌, Option, none,
  some, codes, arith,
}
use tell_me_go.Errors.{Error, wraps, ok, ok-injective}
use tell_me_go.Llm.{Part}
use tell_me_go.Examples.Messages.{hello, question, reply, call_part}
use tell_me_go.History.Lines.{Line, Codec}
use tell_me_go.History.Lines.Replay.{stored_all}
use tell_me_go.History.Backend
use tell_me_go.History.Backend.{Target, main, archived, Files}
use tell_me_go.History.Turns.{rollback_bounds, remaining_turns, find_turn_pair}
use tell_me_go.History.Turns.Pairs.{IsTurn, find_turn_pair-IsTurn}
use tell_me_go.History.Turns.Rollback.{rollback_bounds_lem}
use tell_me_go.History.Edit.{others, collect_updated_parts}
use tell_me_go.History.Edit.Kept.{shown, thoughts, collect_updated_parts_lem}
use tell_me_go.History.Memory.{History, Change, adding, appending, pinning, editing, step, run}
use tell_me_go.History.Memory.Durable.{IsLawful, Agrees}
use tell_me_go.History.Memory.Refused.{step_refused}
use tell_me_go.History.Memory.Steps.{run-Agrees, load-run}

abbrev codec : Codec
codec = record { put = λ bytes. ok (codes "asset"); json_args = λ args. args }

abbrev write_list : Target → Line → List Line → List Line × Option Error
write_list main l f = (f ++ l ∷ [], none)
write_list archived l f = (f, none)

abbrev list_files : Files (List Line)
list_files = record {
  lines = λ f. f;
  read = λ f. ok (some f);
  open_file = λ path f. none;
  write = write_list;
  sync = λ path f. none;
  replace = λ ls f. (ls, none);
}

list_files-IsLawful : IsLawful list_files
list_files-IsLawful = record {
  written = λ l f k. sym (ap (λ p. p.0) k);
  apart = λ l f k. sym (ap (λ p. p.0) k);
  replaced = λ ls f k. sym (ap (λ p. p.0) k);
  reads = λ f k. sym (ap (λ o. elim o [ none ↦ f | some ls ↦ ls ]) (ok-injective k));
}

abbrev empty : History (List Line)
empty = record { file = []; contents = [] }

empty-Agrees : Agrees codec list_files list_files-IsLawful empty
unfolding stored_all
empty-Agrees = refl

abbrev changes : List (Change codec list_files)
changes =
    adding none (codes "m1") (some (record question { id = [] }))
    ∷ adding none (codes "m2") (some reply)
    ∷ appending none 1 (some call_part ∷ [])
    ∷ pinning none (codes "m1") true
    ∷ editing none 1 (codes "other") []
    ∷ []

abbrev done : List (Change codec list_files) → History (List Line) → History (List Line)
done [] h = h
done (c ∷ cs) h = done cs (step codec list_files c h).0

changes_run : run codec list_files changes empty ≡ ok (done changes empty)
unfolding run step add_content append append_all and_then entry_line prepare_parts clone_content
    prepare_part append_parts appended Backend.append_parts parts_line message_at set_pinned
    pin_pair index_of update_at bytes_eq find_turn_pair has_function_response pair_forward
    pin_second update_metadata update_turn_content edited updated_parts read_parts save entry_lines
    collect_updated_parts insert_thought rebuild_text_parts insert_or_append text_index others
    insert_at
changes_run = refl

run-Agrees_example : Agrees codec list_files list_files-IsLawful (done changes empty)
run-Agrees_example =
    run-Agrees codec list_files list_files-IsLawful changes empty empty-Agrees changes_run

load-run_example :
    Backend.load codec list_files none (done changes empty).file
    ≡ stored_all codec (done changes empty).contents
load-run_example =
    load-run codec list_files list_files-IsLawful changes empty empty-Agrees changes_run refl

-- The edit of a user's message is refused.
abbrev refused : Change codec list_files
refused = editing none 0 (codes "other") []

refused_run :
    step codec list_files refused (done changes empty)
    ≡ ((step codec list_files refused (done changes empty)).0, some (wraps []))
unfolding step update_turn_content edited updated_parts message_at set_pinned pin_pair index_of
    append_parts add_content append append_all and_then entry_line prepare_parts clone_content
    prepare_part appended Backend.append_parts parts_line update_at bytes_eq find_turn_pair
    has_function_response pair_forward pin_second update_metadata read_parts save entry_lines
    collect_updated_parts insert_thought rebuild_text_parts insert_or_append text_index others
    insert_at
refused_run = refl

step_refused_example :
    (step codec list_files refused (done changes empty)).0.contents ≡ (done changes empty).contents
step_refused_example = step_refused codec list_files refused (done changes empty) refused_run

find_turn_pair_run : find_turn_pair (some question ∷ some reply ∷ []) 1 ≡ ok (0, 1)
unfolding find_turn_pair message_at bytes_eq has_function_call pair_backward
find_turn_pair_run = refl

find_turn_pair-IsTurn_example :
    IsTurn (some question ∷ some reply ∷ []) (0, 1) × (◌≡◌ {A = ℕ} 0 1 ⊎ ◌≡◌ {A = ℕ} 1 1)
find_turn_pair-IsTurn_example =
    find_turn_pair-IsTurn (some question ∷ some reply ∷ []) 1 find_turn_pair_run

rollback_bounds_lem_example :
    ((rollback_bounds 8 2 true).0 ≤ 2)
    × ((rollback_bounds 8 2 true).1 ≡ 1 + 2 * remaining_turns (rollback_bounds 8 2 true).1 true)
    × ((8 - 1 + 1) / 2
        ≡ (rollback_bounds 8 2 true).0 + remaining_turns (rollback_bounds 8 2 true).1 true)
rollback_bounds_lem_example = rollback_bounds_lem 8 2 true (ground arith) (ground arith)

abbrev edited_turn : List Part
edited_turn = hello ∷ call_part ∷ record hello { is_thought = true } ∷ []

collect_updated_parts_lem_example :
    (shown (collect_updated_parts edited_turn (codes "new") (codes "why")) ≡ codes "new")
    × (thoughts (collect_updated_parts edited_turn (codes "new") (codes "why")) ≡ codes "why")
    × (others (collect_updated_parts edited_turn (codes "new") (codes "why")) ≡ others edited_turn)
collect_updated_parts_lem_example =
    collect_updated_parts_lem edited_turn (codes "new") (codes "why")
