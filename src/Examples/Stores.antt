-- ===== src/Examples/Stores.antt =====
-- A store that keeps its history in a list, and the manager's theorems at it.
use tell_me_go.Context.Manager.{replace_archived}
use tell_me_go.Context.Summary.{close_summary}
use tell_me_go.Context.Summary.{open_summary}
use tell_me_go.Llm.Clone.{equal_content}
use tell_me_go.Base.{bytes_eq}
use tell_me_go.Context.Manager.{validate_subset}
use tell_me_go.Context.Manager.{summarized_history}
use tell_me_go.Context.Manager.{replace_unless}
use tell_me_go.Context.Manager.{add_content}
use tell_me_go.Context.Manager.{run}
use tell_me_go.Llm.Validate.{validate_structure}
use tell_me_go.Context.Manager.{validate_boundaries}
use tell_me_go.Base.{
  ℕ, zero, suc, ◌-◌, ◌≡◌, ◌≤◌, refl, true, false, Bool, codes, List, [], ◌∷◌, ◌++◌, Option, none,
  some, items, length, take, drop, arith,
}
use tell_me_go.Errors.{wraps, ok, canceled}
use tell_me_go.Llm.{Fields, Part}
use tell_me_go.Context.{Message}
use tell_me_go.Context.Summary.{apply_summary}
use tell_me_go.Context.Strategy.{new_strategy}
use tell_me_go.Context.Manager.{
  Store, Manager, load_history, persist_prepared, finalize_summarization, Change, adding, run_all,
}
use tell_me_go.Context.Manager.Versions.{persist_prepared-fresh}
use tell_me_go.Context.Summary.Inserted.{IsInserted}
use tell_me_go.Context.Manager.Finalize.{SameAs, finalize_summarization-SameAs}
use tell_me_go.Examples.Messages.{reply, session, two_sessions}

abbrev append_at : ℕ → List (Option Part) → List Message → List Message
append_at i parts [] = []
append_at zero parts (none ∷ ms) = none ∷ ms
append_at zero parts (some m ∷ ms) = some (record m { parts = m.parts ++ parts }) ∷ ms
append_at (suc i) parts (m ∷ ms) = m ∷ append_at i parts ms

abbrev limited : Option ℕ → List Message → List Message
limited none ms = ms
limited (some n) ms = take n ms

abbrev list_store : Store (List Message)
list_store = record {
  total = λ s. length s;
  window = λ ctx start limit s. ok (limited limit (drop start s));
  set_contents = λ ctx h s. (items h, none);
  append_parts = λ ctx i parts s. (append_at i parts s, none);
  add = λ ctx c s. (s ++ some c ∷ [], none);
  archive = λ ctx ms s. (s, none);
}

abbrev same_fields : Option Fields → Option Fields → Bool
same_fields none none = true
same_fields (some a) (some b) = true
same_fields _ _ = false

abbrev manager : Manager (List Message)
manager = record {
  version = 3;
  history = two_sessions;
  strategy = new_strategy (λ ms. length ms);
  factory = none;
  extras = [];
  pipeline = [];
}

-- A message that is refused, since its context is cancelled.
abbrev refused : List (Change list_store same_fields)
refused = adding (some (wraps (canceled ∷ []))) (codes "n") reply ∷ []

abbrev stored : Manager (List Message)
stored = record manager { version = 4; history = session }

loaded_run : load_history list_store none manager ≡ ok (3, two_sessions)
unfolding load_history validate_boundaries validate_structure
loaded_run = refl

stored_run :
    persist_prepared list_store none 3
      (some session)
      (run_all list_store same_fields refused manager)
    ≡ (stored, none)
unfolding persist_prepared run_all run add_content
stored_run = refl

persist_prepared-fresh_example :
    (run_all list_store same_fields refused manager ≡ manager) × (stored.history ≡ session)
persist_prepared-fresh_example =
    persist_prepared-fresh list_store same_fields refused none none manager (some session)
      loaded_run stored_run

abbrev subset : List Message
subset = take 4 two_sessions

abbrev finalized : Manager (List Message)
finalized =
    (finalize_summarization list_store same_fields none (codes "s1") (codes "s2") subset 0 4
      (codes "short") manager).0

finalized_run :
    finalize_summarization list_store same_fields none
      (codes "s1")
      (codes "s2")
      subset
      0
      4
      (codes "short")
      manager
    ≡ (finalized, none)
unfolding finalize_summarization replace_unless summarized_history validate_subset bytes_eq
    equal_content apply_summary open_summary close_summary replace_archived
finalized_run = refl

finalize_summarization-SameAs_example :
    (current : List Message) × (list_store.window none 0 none manager.history ≡ ok current)
    × (4 ≤ length current)
    × SameAs list_store same_fields subset (take (4 - 0) (drop 0 current))
    × (length (take (4 - 0) (drop 0 current)) ≡ 4 - 0)
    × (updated : List Message) × IsInserted
        (codes "short")
        (take 0 current)
        (drop 4 current)
        updated
    × (finalized.history
        ≡ (list_store.set_contents none
            (some updated)
            (list_store.archive none subset manager.history).0).0)
finalize_summarization-SameAs_example =
    finalize_summarization-SameAs list_store same_fields none (codes "s1") (codes "s2") subset 0 4
      (codes "short") manager (omega arith) finalized_run
