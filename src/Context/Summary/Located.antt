-- ===== src/Context/Summary/Located.antt =====
-- The stretch of turns that `locateCandidateBlock` finds.
use tell_me_go.Base.{
  ℕ, ◌+◌, ◌≤◌, ◌<◌, true, ◌≡◌, refl, sym, ap, ◌∙◌, subst, List, [], ◌∷◌, ◌++◌, Option, none, some,
  append_assoc, append-nil, All, All-append, length, length-append, is_none, leb, arith, Bool-cases,
  inl, inr, if◌then◌else◌,
}
use tell_me_go.Errors.{Ctx}
use tell_me_go.Context.{Turn}
use tell_me_go.Context.Summary.{Selector, Block, locate_loop, locate_candidate_block}

module _ (sel : Selector) where
  abbrev pub Candidates : List Turn → Type 0
  Candidates = All (λ t. sel.is_candidate t ≡ true)

  -- `turns` splits into what stands before the block, the block, which is all candidates and has
  -- between `low` and `high` turns, and the rest.
  pub record IsBlock (turns : List Turn) (start num high : ℕ) : Type 0 where
    pub before : List Turn
    pub block : List Turn
    pub after : List Turn
    pub splits : turns ≡ before ++ (block ++ after)
    pub at : length before ≡ start
    pub size : length block ≡ num
    pub candidates : Candidates block
    pub bounded : num ≤ high

  -- The state of the loop: the turns read, of which the last `num` are a run of candidates.
  record Run (read : List Turn) (start : Option ℕ) (num high : ℕ) : Type 0 where
    done : List Turn
    run : List Turn
    split : read ≡ done ++ run
    size : length run ≡ num
    candidates : Candidates run
    start_of : (s : ℕ) → start ≡ some s → length done ≡ s
    none_of : start ≡ none → num ≡ 0
    below : num ≤ high

  Run-IsBlock :
      (read ts : List Turn) (s num high : ℕ)
      → Run read (some s) num high
      → IsBlock (read ++ ts) s num high
  Run-IsBlock read ts s num high r = record {
    before = r.done;
    block = r.run;
    after = ts;
    splits = ap (λ x. x ++ ts) r.split ∙ append_assoc r.done r.run ts;
    at = r.start_of s refl;
    size = r.size;
    candidates = r.candidates;
    bounded = omega (arith, r.below);
  }

  Run-reset :
      (read : List Turn) (t : Turn) (start : Option ℕ) (num high : ℕ)
      → Run read start num high
      → Run (read ++ (t ∷ [])) none 0 high
  Run-reset read t start num high r = record {
    done = read ++ (t ∷ []);
    run = [];
    split = sym (append-nil (read ++ (t ∷ [])));
    size = refl;
    candidates = tt;
    start_of = λ s e. cc e;
    none_of = λ e. refl;
    below = omega (arith, r.below);
  }

  abbrev first_of_run : ℕ → Option ℕ → Option ℕ
  first_of_run i start = if is_none start then some i else start

  start-of-Run :
      (read : List Turn) (i : ℕ) (start : Option ℕ) (num high s : ℕ)
      → length read ≡ i
      → (r : Run read start num high) → first_of_run i start ≡ some s
      → length r.done ≡ s
  start-of-Run read i none num high s l r e =
      let z = r.none_of refl in
      omega (arith, l, z, r.size, ap length r.split, length-append r.done r.run, some_eq)
    where
      some_eq : i ≡ s
      some_eq = cc e
  start-of-Run read i (some k) num high s l r e = r.start_of s e

  Run-more :
      (read : List Turn) (t : Turn) (i : ℕ) (start : Option ℕ) (num high : ℕ)
      → length read ≡ i
      → sel.is_candidate t ≡ true
      → num + 1 ≤ high
      → Run read start num high
      → Run (read ++ (t ∷ [])) (first_of_run i start) (num + 1) high
  Run-more read t i start num high l c lt r = record {
    done = r.done;
    run = r.run ++ (t ∷ []);
    split = ap (λ x. x ++ (t ∷ [])) r.split ∙ append_assoc r.done r.run (t ∷ []);
    size = omega (arith, length-append r.run (t ∷ []), r.size);
    candidates = All-append _ r.run (t ∷ []) r.candidates (c, tt);
    start_of = λ s e. start-of-Run read i start num high s l r e;
    none_of = λ e. absurd (never start e);
    below = lt;
  }
    where
      never : (st : Option ℕ) → ¬ (first_of_run i st ≡ none)
      never none e = cc e
      never (some k) e = cc e

  found-IsBlock :
      (read ts : List Turn) (start : Option ℕ) (num high : ℕ) {s n : ℕ}
      → Run read start num high
      → ◌≡◌ {A = Block} (start, num) (some s, n)
      → IsBlock (read ++ ts) s n high
  found-IsBlock read ts start num high {s} {n} r e =
      subst (λ m. IsBlock (read ++ ts) s m high) (ap (λ b. b.1) e)
        (Run-IsBlock read ts s num high (subst (λ o. Run read o num high) (ap (λ b. b.0) e) r))

  locate_loop-IsBlock :
      (ctx : Ctx) (target i : ℕ) (ts read : List Turn) (start : Option ℕ) (num : ℕ) {s n : ℕ}
      → length read ≡ i
      → num < target
      → Run read start num target
      → locate_loop ctx target sel i ts start num ≡ (some s, n)
      → IsBlock (read ++ ts) s n target
  unfolding locate_loop
  locate_loop-IsBlock ctx target i [] read start num l lt r h =
      found-IsBlock read [] start num target r h
  locate_loop-IsBlock (some e) target i (t ∷ ts) read start num l lt r h = cc
  locate_loop-IsBlock none target i (t ∷ ts) read start num {s} {n} l lt r h =
      let on = subst (λ x. IsBlock x s n target) (append_assoc read (t ∷ []) ts) in
      let long : length (read ++ (t ∷ [])) ≡ i + 1 =
        omega (arith, length-append read (t ∷ []), l) in
      let skip =
        locate_loop-IsBlock none target (i + 1) ts (read ++ (t ∷ [])) none 0 {s = s} {n = n} long
          (omega arith) (Run-reset read t start num target r) in
      let step =
        λ (c : sel.is_candidate t ≡ true). Run-more read t i start num target l c (omega arith) r in
      let go = λ (c : sel.is_candidate t ≡ true) (b : num + 1 < target).
        locate_loop-IsBlock none target (i + 1) ts (read ++ (t ∷ [])) (first_of_run i start)
          (num + 1) {s = s} {n = n} long b (step c) in
      elim (Bool-cases (sel.is_candidate t)) [
        | inr c ↦ elim (Bool-cases (leb sel.min_viable_block num)) [
          | inl d ↦ found-IsBlock read (t ∷ ts) start num target r (rw (c, d) at h)
          | inr d ↦ on (skip (rw (c, d) at h))
        ]
        | inl c ↦ elim (Bool-cases (leb target (num + 1))) [
          | inl d ↦ on (
              found-IsBlock (read ++ (t ∷ [])) ts (first_of_run i start) (num + 1) target (step c)
                (rw (c, d) at h))
          | inr d ↦ on (go c (ground arith) (rw (c, d) at h))
        ]
      ]

  -- A block that is found is a contiguous stretch of candidates of the turns, starting at the index
  -- returned, with the number of turns returned and at most as many as asked for.
  pub locate_candidate_block-IsBlock :
      (ctx : Ctx) (turns : List Turn) (target : ℕ) {s n : ℕ}
      → 0 < target
      → locate_candidate_block ctx turns target sel ≡ (some s, n)
      → IsBlock turns s n target
  unfolding locate_candidate_block
  locate_candidate_block-IsBlock ctx turns target pos h =
      locate_loop-IsBlock ctx target 0 turns [] none 0 refl pos
        (record {
          done = [];
          run = [];
          split = refl;
          size = refl;
          candidates = tt;
          start_of = λ s e. cc e;
          none_of = λ e. refl;
          below = omega arith;
        })
        h
