-- ===== src/Context/Pipeline/Order.antt =====
-- The order that a pipeline runs in.
use tell_me_go.Base.{
  ℕ, ◌≤◌, ◌≡◌, refl, ap, List, [], ◌∷◌, ◌++◌, All, length, leb, ltb, ltb→lt, ◌==◌, arith,
  Bool-cases, inl, inr, if◌then◌else◌,
}
use tell_me_go.Context.Pipeline.{
  Transformer, insert_by_priority, insertion_sort, LongSort, new_pipeline, canonical_of,
  transient_of,
}

-- Those of one priority, in the order of the list.
unfoldable pub of_priority : ℕ → List Transformer → List Transformer
of_priority p [] = []
of_priority p (t ∷ ts) = let rest = of_priority p ts in if t.priority == p then t ∷ rest else rest

-- No transformer comes before one of a lower priority.
unfoldable pub IsOrdered : List Transformer → Type 0
IsOrdered [] = Unit
IsOrdered (t ∷ ts) = All (λ u. t.priority ≤ u.priority) ts × IsOrdered ts

all_from_insert :
    (p : ℕ) (t : Transformer) (us : List Transformer)
    → p ≤ t.priority
    → All (λ u. p ≤ u.priority) us
    → All (λ u. p ≤ u.priority) (insert_by_priority t us)
unfolding insert_by_priority
all_from_insert p t [] h k = (h, tt)
all_from_insert p t (u ∷ us) h k = elim (Bool-cases (ltb u.priority t.priority)) [
  | inl e ↦ rw e (k.0, all_from_insert p t us h k.1)
  | inr e ↦ rw e (h, k)
]

all_above :
    (p q : ℕ) (us : List Transformer)
    → p ≤ q
    → All (λ u. q ≤ u.priority) us
    → All (λ u. p ≤ u.priority) us
all_above p q [] h k = tt
all_above p q (u ∷ us) h k = (omega (arith, h, k.0), all_above p q us h k.1)

insert-IsOrdered :
    (t : Transformer) (us : List Transformer) → IsOrdered us → IsOrdered (insert_by_priority t us)
unfolding insert_by_priority IsOrdered
insert-IsOrdered t [] h = (tt, tt)
insert-IsOrdered t (u ∷ us) h = elim (Bool-cases (ltb u.priority t.priority)) [
  | inl e ↦ rw e (
    all_from_insert u.priority t us (omega (arith, ltb→lt u.priority t.priority e)) h.0,
    insert-IsOrdered t us h.1,
  )
  | inr e ↦
      let le : t.priority ≤ u.priority = ground (arith, e) in
      rw e ((le, all_above t.priority u.priority us le h.0), h)
]

insert-of_priority :
    (p : ℕ) (t : Transformer) (us : List Transformer)
    → of_priority p (insert_by_priority t us) ≡ of_priority p (t ∷ us)
unfolding insert_by_priority of_priority
insert-of_priority p t [] = refl
insert-of_priority p t (u ∷ us) = elim (Bool-cases (ltb u.priority t.priority)) [
  | inl e ↦ rw e (ground (arith, insert-of_priority p t us, ltb→lt u.priority t.priority e))
  | inr e ↦ rw e refl
]

pub insertion_sort-IsOrdered : (ts : List Transformer) → IsOrdered (insertion_sort ts)
unfolding insertion_sort IsOrdered
insertion_sort-IsOrdered [] = tt
insertion_sort-IsOrdered (t ∷ ts) =
    insert-IsOrdered t (insertion_sort ts) (insertion_sort-IsOrdered ts)

insertion_sort-of_priority :
    (p : ℕ) (ts : List Transformer) → of_priority p (insertion_sort ts) ≡ of_priority p ts
unfolding insertion_sort of_priority
insertion_sort-of_priority p [] = refl
insertion_sort-of_priority p (t ∷ ts) =
    rw (insert-of_priority p t (insertion_sort ts), insertion_sort-of_priority p ts) refl

pub new_pipeline_short :
    (long_sort : LongSort) (ts : List Transformer)
    → length ts ≤ 12
    → new_pipeline long_sort ts ≡ insertion_sort ts
unfolding new_pipeline
new_pipeline_short long_sort ts h = ground (arith, h)

-- Sorting orders by priority, however many there are.
abbrev pub SortsByPriority : LongSort → Type 0
SortsByPriority long_sort = (ts : List Transformer) → IsOrdered (long_sort ts)

pub new_pipeline-IsOrdered :
    (long_sort : LongSort) (ts : List Transformer)
    → SortsByPriority long_sort
    → IsOrdered (new_pipeline long_sort ts)
unfolding new_pipeline
new_pipeline-IsOrdered long_sort ts sorts = elim (Bool-cases (leb (length ts) 12)) [
  | inl e ↦ rw e (insertion_sort-IsOrdered ts)
  | inr e ↦ rw e (sorts ts)
]

-- A pipeline of at most twelve transformers runs in the order of the priorities, and at each priority it
-- runs the transformers that were given with it, all of them and in the order they were given.
pub new_pipeline_lem :
    (p : ℕ) (long_sort : LongSort) (ts : List Transformer)
    → length ts ≤ 12
    → IsOrdered (new_pipeline long_sort ts)
      × (of_priority p (new_pipeline long_sort ts) ≡ of_priority p ts)
new_pipeline_lem p long_sort ts h =
    rw (new_pipeline_short long_sort ts h)
      (insertion_sort-IsOrdered ts, insertion_sort-of_priority p ts)

canonical_of-none :
    (us : List Transformer)
    → All (λ u. 100 ≤ u.priority) us
    → (canonical_of us ≡ []) × (transient_of us ≡ us)
unfolding canonical_of transient_of
canonical_of-none [] h = (refl, refl)
canonical_of-none (u ∷ us) h =
    let r = canonical_of-none us h.1 in
    elim (Bool-cases (ltb u.priority 100)) [
      | inl e ↦ absurd (ground (arith, ltb→lt u.priority 100 e, h.0))
      | inr e ↦ rw e (r.0, ap (◌∷◌ u) r.1)
    ]

-- On an ordered pipeline the two halves are its beginning and its end.
pub partition-append :
    (ts : List Transformer) → IsOrdered ts → canonical_of ts ++ transient_of ts ≡ ts
unfolding canonical_of transient_of IsOrdered
partition-append [] h = refl
partition-append (t ∷ ts) h = elim (Bool-cases (ltb t.priority 100)) [
  | inl e ↦ rw e (ap (◌∷◌ t) (partition-append ts h.1))
  | inr e ↦
      let r = canonical_of-none ts (all_above 100 t.priority ts (ground (arith, e)) h.0) in
      rw (e, r.0, r.1) refl
]
