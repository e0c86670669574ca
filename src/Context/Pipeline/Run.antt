-- ===== src/Context/Pipeline/Run.antt =====
-- A run of a pipeline.
use tell_me_go.Base.{◌≡◌, refl, sym, ap, subst, ◌∙◌, List, [], ◌∷◌, ◌++◌, none, some}
use tell_me_go.Errors.{Result, ok, err, Ctx, ◌>>=◌, >>=-eq-ok}
use tell_me_go.Context.{Request}
use tell_me_go.Context.Pipeline.{
  Transformer, LongSort, new_pipeline, canonical_of, transient_of, execute, Persist,
  persist_changes, execute_with_persistence,
}
use tell_me_go.Context.Pipeline.Order.{
  IsOrdered, SortsByPriority, new_pipeline-IsOrdered, partition-append,
}

bind_assoc :
    (r : Result Request) (f g h : Request → Result Request)
    → ((q : Request) → f q ≡ (g q >>= h))
    → (r >>= f) ≡ ((r >>= g) >>= h)
bind_assoc (ok q) f g h e = e q
bind_assoc (err x) f g h e = refl

pub execute-append :
    (ctx : Ctx) (ts us : List Transformer) (req : Request)
    → execute ctx (ts ++ us) req ≡ (execute ctx ts req >>= execute ctx us)
unfolding execute
execute-append ctx [] us req = refl
execute-append none (t ∷ ts) us req =
    bind_assoc (t.transform none req) _ _ _ (execute-append none ts us)
execute-append (some e) (t ∷ ts) us req = refl

-- On an ordered pipeline, the halves around the store are the whole run.
pub ordered-run :
    (ctx : Ctx) (ts : List Transformer) (persist : Persist) (req : Request) {out : Request}
    → IsOrdered ts
    → execute_with_persistence ctx ts persist req ≡ ok out
    → execute ctx ts req ≡ ok out
unfolding execute_with_persistence
ordered-run ctx ts persist req {out} ordered h =
    let (mid, e, f) = >>=-eq-ok (execute ctx (canonical_of ts) req) _ h in
    let (u, v, w) = >>=-eq-ok (persist_changes ctx persist mid) _ f in
    subst (λ us. execute ctx us req ≡ ok out) (partition-append ts ordered)
      (execute-append ctx (canonical_of ts) (transient_of ts) req ∙ rw e w)

-- Whether and where the history is stored does not change what a run answers: where a run with a
-- store succeeds, it ends with the request that the pipeline's transformers give one after the other, each
-- run once and in the pipeline's order. That more than twelve transformers are sorted by priority is what
-- is asked of the sorting.
pub execute_with_persistence_ok :
    (ctx : Ctx) (long_sort : LongSort) (ts : List Transformer) (persist : Persist) (req : Request)
    {out : Request}
    → SortsByPriority long_sort
    → execute_with_persistence ctx (new_pipeline long_sort ts) persist req ≡ ok out
    → execute ctx (new_pipeline long_sort ts) req ≡ ok out
execute_with_persistence_ok ctx long_sort ts persist req sorts h =
    ordered-run ctx (new_pipeline long_sort ts) persist req
      (new_pipeline-IsOrdered long_sort ts sorts) h

-- Where no store is asked for, the halves answer what the whole pipeline does, errors included.
execute_with_persistence-none :
    (ctx : Ctx) (long_sort : LongSort) (ts : List Transformer) (req : Request)
    → SortsByPriority long_sort
    → execute_with_persistence ctx (new_pipeline long_sort ts) none req
      ≡ execute ctx (new_pipeline long_sort ts) req
unfolding execute_with_persistence persist_changes
execute_with_persistence-none ctx long_sort ts req sorts =
    let sorted = new_pipeline long_sort ts in
    sym (execute-append ctx (canonical_of sorted) (transient_of sorted) req)
    ∙ ap (λ us. execute ctx us req)
        (partition-append sorted (new_pipeline-IsOrdered long_sort ts sorts))
