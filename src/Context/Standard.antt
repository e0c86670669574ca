-- ===== src/Context/Standard.antt =====
-- internal/agent/session/context/pipeline_factory.go: the pipeline that a session runs.
pub mod Limit
use tell_me_go.Base.{
  ℕ, ◌/◌, Bool, true, false, List, [], ◌∷◌, ◌++◌, Option, none, some, Bytes, ltb, if◌then◌else◌,
}
use tell_me_go.Errors.{Result, Ctx}
use tell_me_go.Context.{Message, Request}
use tell_me_go.Context.Repair.{repair}
use tell_me_go.Context.Clean.{clean_tools, prune_empty_messages, clean_parts}
use tell_me_go.Context.Signatures.{propagate_signatures}
use tell_me_go.Context.Transient.{filter_empty_turns, merge_transients}
use tell_me_go.Context.Events.{Bus}
use tell_me_go.Context.Pruner.{Policy, sliding_window, pinning, importance, prune}
use tell_me_go.Context.Summary.{contiguous_unpinned}
use tell_me_go.Context.Gatekeeper.{Gatekeeper, gatekeep}
use tell_me_go.Context.Strategy.{Strategy}
use tell_me_go.Context.Warnings.{inject_warnings, validate_final}
use tell_me_go.Context.Pipeline.{Transformer, LongSort, new_pipeline}

-- `events.Limits`, as far as the factory reads it.
pub record Limits : Type 0 where
  pub max_history_tokens : ℕ
  pub max_history_turns : ℕ

-- `Factory`: the estimator is the strategy, as its type assertions want. The IDs that new messages
-- will get stand beside it, and what `sort.Slice` makes of more than twelve transformers.
pub record Factory : Type 0 where
  pub strategy : Strategy
  pub summarizer : Option (List Message → Result Bytes)
  pub bus : Bus
  pub precise : Bool
  pub repair_id : Bytes
  pub summary_id1 : Bytes
  pub summary_id2 : Bytes
  pub long_sort : LongSort

-- `windowTurns`: the precise profile halves the window, to at least 2.
unfoldable pub window_turns : Bool → ℕ → ℕ
window_turns precise turns = if precise then (if ltb (turns / 2) 2 then 2 else turns / 2) else turns

unfoldable pub pruning_policies : Factory → Limits → List Policy
pruning_policies f limits =
    sliding_window (window_turns f.precise limits.max_history_turns) ∷ pinning ∷ importance ∷ []

abbrev pub history_pruner : Factory → Limits → Transformer
history_pruner f limits = record {
  priority = 110;
  transform = λ ctx req. prune ctx f.bus (pruning_policies f limits) req;
}

-- `newTokenGatekeeper` with the options that the factory gives.
abbrev pub token_gatekeeper : Factory → Limits → Gatekeeper
token_gatekeeper f limits = record {
  max_tokens = limits.max_history_tokens;
  estimate = f.strategy.counter;
  summarizer = f.summarizer;
  bus = f.bus;
  selector = contiguous_unpinned;
  id1 = f.summary_id1;
  id2 = f.summary_id2;
}

abbrev pub cleaners : List Transformer
cleaners =
    record { priority = 3; transform = λ ctx req. clean_tools req }
    ∷ record { priority = 4; transform = λ ctx req. prune_empty_messages req }
    ∷ record { priority = 5; transform = λ ctx req. clean_parts req }
    ∷ record { priority = 6; transform = λ ctx req. propagate_signatures req }
    ∷ []

abbrev pub pruners : Factory → Limits → Bool → List Transformer
pruners f limits true = history_pruner f limits ∷ []
pruners f limits false = []

abbrev pub limiters : Factory → Limits → List Transformer
limiters f limits =
    record { priority = 80; transform = λ ctx req. gatekeep ctx (token_gatekeeper f limits) req }
    ∷ record { priority = 90; transform = λ ctx req. filter_empty_turns ctx req }
    ∷ record { priority = 100; transform = λ ctx req. inject_warnings f.strategy req }
    ∷ record { priority = 105; transform = λ ctx req. merge_transients req }
    ∷ []

-- The transformers before the last, in the order of the source.
unfoldable pub before_last : Factory → Limits → List Transformer → List Transformer
before_last f limits extras =
    record { priority = 0; transform = λ ctx req. repair f.repair_id req }
    ∷ (extras
        ++ (cleaners ++ (pruners f limits (ltb 0 limits.max_history_turns) ++ limiters f limits)))

-- `finalContextValidator`.
abbrev pub final_validator : Factory → Transformer
final_validator f = record { priority = 110; transform = λ ctx req. validate_final f.strategy req }

-- `BuildStandardPipeline`.
unfoldable pub build_standard_pipeline : Factory → Limits → List Transformer → List Transformer
build_standard_pipeline f limits extras =
    new_pipeline f.long_sort (before_last f limits extras ++ final_validator f ∷ [])
