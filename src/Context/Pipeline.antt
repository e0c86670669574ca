-- ===== src/Context/Pipeline.antt =====
-- internal/agent/session/context/pipeline.go and pipeline_factory.go: the transformers in the order of
-- their priorities, run in two halves with the history stored between them.
-- `sort.Slice` is insertion sort on at most twelve elements, which is written out; what it makes of more,
-- where it may change the order of equal priorities, is an argument. The standard pipeline has at most eleven
-- transformers besides the extras.
pub mod Order
pub mod Run
use tell_me_go.Base.{
  ℕ, ◌*◌, ◌/◌, Bool, true, false, ◌&&◌, not, List, [], ◌∷◌, ◌++◌, Option, none, some, Slice, Bytes,
  is_none, length, leb, ltb, if◌then◌else◌,
}
use tell_me_go.Errors.{Error, Result, ok, err, Ctx, poll, ◌>>=◌, ◌>>◌}
use tell_me_go.Context.{Message, Request}

-- `ContextTransformer`: its priority, and what it does to the request.
pub record Transformer : Type 0 where
  pub priority : ℕ
  pub transform : Ctx → Request → Result Request

abbrev pub transient_threshold : ℕ
transient_threshold = 100

unfoldable pub insert_by_priority : Transformer → List Transformer → List Transformer
insert_by_priority t [] = t ∷ []
insert_by_priority t (u ∷ us) =
    let rest = insert_by_priority t us in if ltb u.priority t.priority then u ∷ rest else t ∷ u ∷ us

unfoldable pub insertion_sort : List Transformer → List Transformer
insertion_sort [] = []
insertion_sort (t ∷ ts) = insert_by_priority t (insertion_sort ts)

-- What `sort.Slice` makes of more than twelve transformers.
abbrev pub LongSort : Type 0
LongSort = List Transformer → List Transformer

-- `NewContextPipeline`.
unfoldable pub new_pipeline : LongSort → List Transformer → List Transformer
new_pipeline long_sort ts = if leb (length ts) 12 then insertion_sort ts else long_sort ts

-- `partitionTransformers`.
unfoldable pub canonical_of : List Transformer → List Transformer
canonical_of [] = []
canonical_of (t ∷ ts) =
    let rest = canonical_of ts in if ltb t.priority transient_threshold then t ∷ rest else rest

unfoldable pub transient_of : List Transformer → List Transformer
transient_of [] = []
transient_of (t ∷ ts) =
    let rest = transient_of ts in if ltb t.priority transient_threshold then rest else t ∷ rest

-- `executeTransformers`; the context is read before each of them.
unfoldable pub execute : Ctx → List Transformer → Request → Result Request
execute ctx [] req = ok req
execute ctx (t ∷ ts) req = do poll ctx; req' ← t.transform ctx req; execute ctx ts req'

-- A store of the history, where one is given: what storing answers.
abbrev pub Persist : Type 0
Persist = Option (Ctx → Slice Message → Option Error)

abbrev stored_or : Option Error → Result (Unit {0})
stored_or none = ok tt
stored_or (some e) = err e

-- `persistChanges`.
unfoldable pub persist_changes : Ctx → Persist → Request → Result (Unit {0})
persist_changes ctx none req = ok tt
persist_changes ctx (some store) req =
    if req.persist_history then stored_or (store ctx req.history) else ok tt

-- `executeWithPersistence`.
unfoldable pub execute_with_persistence :
    Ctx → List Transformer → Persist → Request → Result Request
execute_with_persistence ctx transformers persist req = do
  req' ← execute ctx (canonical_of transformers) req
  persist_changes ctx persist req'
  execute ctx (transient_of transformers) req'
