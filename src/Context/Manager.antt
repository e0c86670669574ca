-- ===== src/Context/Manager.antt =====
-- internal/agent/session/context/manager.go: the manager of a session's history, which every change
-- marks with a new version. Each function is one stretch between taking the lock and giving it back, so
-- an interleaving of calls is a list of them. The version is a Go int that is taken not to wrap around.
-- The history store (internal/domain/ports) is an argument: its state and what its operations do.
pub mod Versions
pub mod Finalize
pub mod Scan
use tell_me_go.Base.{
  ℕ, ◌+◌, ◌-◌, Bool, true, false, not, ◌||◌, List, [], ◌∷◌, Option, none, some, Slice, items,
  length, drop, bytes_eq, bool_eq, is_nil, ltb, ◌==◌, Bytes, if◌then◌else◌,
}
use tell_me_go.Errors.{
  Sentinel, Error, wraps, nil_dereference, Result, ok, err, fails, fails_plain, is, transient,
  terminal, rate_limit, invalid_payload, Ctx, poll, poll_at, ◌>>=◌, ◌>>◌,
}
use tell_me_go.Llm.{Fields, Part, Content, user, has_role}
use tell_me_go.Llm.Clone.{equal_content}
use tell_me_go.Llm.Validate.{validate_structure}
use tell_me_go.Context.{Message}
use tell_me_go.Context.Summary.{apply_summary}
use tell_me_go.Context.Strategy.{Strategy, set_limits, set_context_window}
use tell_me_go.Context.Pipeline.{Transformer}
use tell_me_go.Context.Standard.{Limits, Factory, build_standard_pipeline}

-- `ports.HistoryManager`, as far as the manager calls it. A window's limit of `none` is -1.
pub record Store (S : Type 0) : Type 0 where
  pub total : S → ℕ
  pub window : Ctx → ℕ → Option ℕ → S → Result (List Message)
  pub set_contents : Ctx → Slice Message → S → S × Option Error
  pub append_parts : Ctx → ℕ → List (Option Part) → S → S × Option Error
  pub add : Ctx → Content → S → S × Option Error
  pub archive : Ctx → List Message → S → S × Option Error

-- `Manager`.
pub record Manager (S : Type 0) : Type 0 where
  pub version : ℕ
  pub history : S
  pub strategy : Strategy
  pub factory : Option Factory
  pub extras : List Transformer
  pub pipeline : List Transformer

-- `events.Limits` with `none` for a negative limit.
pub record NewLimits : Type 0 where
  pub new_history_tokens : Option ℕ
  pub new_tool_turns : Option ℕ
  pub new_history_turns : Option ℕ
  pub new_window : ℕ

-- `Limits.Validate`.
abbrev pub present : Option ℕ → Result ℕ
present none = fails_plain
present (some n) = ok n

abbrev pub wrap : Sentinel → Error → Error
wrap s (wraps chain) = wraps (s ∷ chain)
wrap s nil_dereference = nil_dereference

-- The wrapping of an error of the store, transient where it was transient.
abbrev pub categorized : Error → Error
categorized e = wrap (if is e transient || is e rate_limit then transient else terminal) e

-- `validateHistoryBoundaries`.
unfoldable pub validate_boundaries : List Message → Result (Unit {0})
validate_boundaries [] = ok tt
validate_boundaries (none ∷ ms) = fails invalid_payload
validate_boundaries (some m ∷ ms) = elim (validate_structure (some m)) [
  | ok u ↦ validate_boundaries ms
  | err e ↦ err (wrap invalid_payload e)
]

module _ {S : Type 0} (store : Store S) where
  abbrev pub changed : Manager S → S × Option Error → Manager S × Option Error
  changed m (s, e) = (record m { version = m.version + 1; history = s }, e)

  -- `loadHistory`: the version and the history that a preparation starts from.
  unfoldable pub load_history : Ctx → Manager S → Result (ℕ × List Message)
  load_history ctx m = do
    poll ctx
    history ← store.window ctx 0 none m.history
    validate_boundaries history
    ok (m.version, history)

  -- What `executePipeline` does to store a prepared history.
  unfoldable pub persist_prepared : Ctx → ℕ → Slice Message → Manager S → Manager S × Option Error
  persist_prepared ctx snapshot h m =
      if m.version == snapshot
      then changed m (store.set_contents ctx h m.history)
      else (m, some (wraps (transient ∷ [])))

  -- `AddContent` behind the check of the last message: whether the parts go to it.
  unfoldable pub add_to :
      Ctx → Content → Manager S → Result (List Message) → Manager S × Option Error
  add_to ctx content m (err e) = (m, some e)
  add_to ctx content m (ok []) = changed m (store.add ctx content m.history)
  add_to ctx content m (ok (none ∷ ms)) = (m, some nil_dereference)
  add_to ctx content m (ok (some last ∷ ms)) =
      if bytes_eq last.role content.role
      then changed m (store.append_parts ctx (store.total m.history - 1) content.parts m.history)
      else changed m (store.add ctx content m.history)

  -- `AddContent`, with the ID that a message without one gets.
  unfoldable pub add_content : Ctx → Bytes → Content → Manager S → Manager S × Option Error
  add_content (some e) new_id content m = (m, some e)
  add_content none new_id content m =
      let named = record content { id = if is_nil content.id then new_id else content.id } in
      let total = store.total m.history in
      if ltb 0 total
      then add_to none named m (store.window none (total - 1) none m.history)
      else if not (has_role content user)
      then (m, some (wraps []))
      else changed m (store.add none named m.history)

  -- `SetPipeline`.
  unfoldable pub set_pipeline : List Transformer → Manager S → Manager S
  set_pipeline p m = record m { version = m.version + 1; pipeline = p }

  abbrev rebuilt : Manager S → ℕ → ℕ → Option Factory → List Transformer
  rebuilt m tokens turns none = m.pipeline
  rebuilt m tokens turns (some f) =
      build_standard_pipeline f (record { max_history_tokens = tokens; max_history_turns = turns })
        m.extras

  -- The estimator of the factory is the manager's strategy.
  abbrev with_strategy : Strategy → Option Factory → Option Factory
  with_strategy s none = none
  with_strategy s (some f) = some (record f { strategy = s })

  -- `Reconfigure`.
  unfoldable pub reconfigure : NewLimits → Manager S → Result (Manager S)
  reconfigure l m = do
    tokens ← present l.new_history_tokens
    tool_turns ← present l.new_tool_turns
    turns ← present l.new_history_turns
    let s =
        set_context_window (set_limits m.strategy (some tokens) (some tool_turns) (some turns))
          l.new_window
    let f = with_strategy s m.factory
    ok (record m {
      version = m.version + 1;
      strategy = s;
      factory = f;
      pipeline = rebuilt m tokens turns f;
    })

  module _ (deep_equal : Option Fields → Option Fields → Bool) where
    -- `validateSummarizationSubset` on the current messages from the range's start.
    unfoldable pub validate_subset : Ctx → ℕ → List Message → List Message → Result (Unit {0})
    validate_subset ctx i [] current = ok tt
    validate_subset ctx i (none ∷ subset) current = err nil_dereference
    validate_subset ctx i (some expected ∷ subset) [] = err nil_dereference
    validate_subset ctx i (some expected ∷ subset) (none ∷ current) = err nil_dereference
    validate_subset ctx i (some expected ∷ subset) (some curr ∷ current) = do
      poll_at ctx i
      same ←
          (if not (bytes_eq curr.id expected.id) || not (bool_eq curr.pinned expected.pinned)
            then ok false
            else equal_content deep_equal curr expected)
      if same then validate_subset ctx (i + 1) subset current else fails terminal

    -- The end of `finalizeSummarization`: archive, then replace.
    abbrev pub replaced_with : Manager S → S × Option Error → Manager S × Option Error
    replaced_with m (s, none) = (record m { version = m.version + 1; history = s }, none)
    replaced_with m (s, some e) =
        (record m { version = m.version + 1; history = s }, some (categorized e))

    abbrev pub replace_behind :
        Ctx → Manager S → List Message → S × Option Error → Manager S × Option Error
    replace_behind ctx m updated (s, some e) = replaced_with m (s, some e)
    replace_behind ctx m updated (s, none) =
        replaced_with m (store.set_contents ctx (some updated) s)

    unfoldable pub replace_archived :
        Ctx → Manager S → List Message → List Message → Manager S × Option Error
    replace_archived ctx m subset updated =
        replace_behind ctx m updated (store.archive ctx subset m.history)

    -- What `finalizeSummarization` makes of the current history, before it changes anything.
    unfoldable pub summarized_history :
        Ctx → Bytes → Bytes → List Message → ℕ → ℕ → Bytes → Manager S → Result (List Message)
    summarized_history ctx id1 id2 subset start stop summary m = do
      current ← store.window ctx 0 none m.history
      (if ltb (length current) stop then fails terminal else ok tt)
      validate_subset ctx 0 subset (drop start current)
      apply_summary id1 id2 current start stop summary

    unfoldable pub replace_unless :
        Ctx → Manager S → List Message → Result (List Message) → Manager S × Option Error
    replace_unless ctx m subset (err e) = (m, some e)
    replace_unless ctx m subset (ok updated) = replace_archived ctx m subset updated

    -- `finalizeSummarization`.
    unfoldable pub finalize_summarization :
        Ctx → Bytes → Bytes → List Message → ℕ → ℕ → Bytes → Manager S → Manager S × Option Error
    finalize_summarization ctx id1 id2 subset start stop summary m =
        replace_unless ctx m subset (summarized_history ctx id1 id2 subset start stop summary m)

    -- The manager's changes, as they may follow each other while another call is under way.
    pub data Change : Type 0 where
      adding : Ctx → Bytes → Content → Change
      persisting : Ctx → ℕ → Slice Message → Change
      finalizing : Ctx → Bytes → Bytes → List Message → ℕ → ℕ → Bytes → Change
      setting_pipeline : List Transformer → Change
      reconfiguring : NewLimits → Change

    abbrev pub after_reconfigure : Manager S → Result (Manager S) → Manager S
    after_reconfigure m (ok m') = m'
    after_reconfigure m (err e) = m

    unfoldable pub run : Change → Manager S → Manager S
    run (adding ctx new_id content) m = (add_content ctx new_id content m).0
    run (persisting ctx snapshot h) m = (persist_prepared ctx snapshot h m).0
    run (finalizing ctx id1 id2 subset start stop summary) m =
        (finalize_summarization ctx id1 id2 subset start stop summary m).0
    run (setting_pipeline p) m = set_pipeline p m
    run (reconfiguring l) m = after_reconfigure m (reconfigure l m)

    unfoldable pub run_all : List Change → Manager S → Manager S
    run_all [] m = m
    run_all (c ∷ cs) m = run_all cs (run c m)
