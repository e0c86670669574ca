-- ===== src/Context/Manager/Scan/Blocks.antt =====
-- The blocks that the scan finds.
use tell_me_go.Base.{
  ℕ, ◌+◌, ◌≤◌, Bool, true, false, ◌≡◌, refl, sym, ap, subst, ◌∙◌, List, [], ◌∷◌, ◌++◌, append-nil,
  append_assoc, Option, none, some, length, All, ltb, leb, leb→le, Bool-cases, inl, inr, arith,
  if◌then◌else◌,
}
use tell_me_go.Context.{Turn}
use tell_me_go.Context.Summary.{Selector, count_messages}
use tell_me_go.Context.Manager.Scan.{
  ScanBlock, extended, promoted, Scanned, ready, best_of_all, scan_loop, scan_candidate_blocks,
}
use tell_me_go.Context.Manager.Scan.Longest.{IsLongest, scan-IsLongest}

count_messages-append :
    (xs ys : List Turn) → count_messages (xs ++ ys) ≡ count_messages xs + count_messages ys
unfolding count_messages
count_messages-append [] ys = omega arith
count_messages-append (x ∷ xs) ys = omega (arith, count_messages-append xs ys)

count_messages-one :
    (xs : List Turn) (t : Turn) → count_messages (xs ++ t ∷ []) ≡ count_messages xs + length t
unfolding count_messages
count_messages-one xs t = omega (arith, count_messages-append xs (t ∷ []))

length-one : (xs : List Turn) (t : Turn) → length (xs ++ t ∷ []) ≡ length xs + 1
length-one [] t = refl
length-one (x ∷ xs) t = omega (arith, length-one xs t)

module _ (sel : Selector) where
  abbrev IsCandidate : Turn → Type 0
  IsCandidate t = sel.is_candidate t ≡ true

  All-one :
      (xs : List Turn) (t : Turn)
      → All IsCandidate xs
      → IsCandidate t
      → All IsCandidate (xs ++ t ∷ [])
  All-one [] t all h = (h, tt)
  All-one (x ∷ xs) t (a, all) h = (a, All-one xs t all h)

  -- A block is a run of candidates among the turns, given by the indices of its messages.
  abbrev pub IsRun : List Turn → ScanBlock → Type 0
  IsRun turns b =
      (before : List Turn) × (block : List Turn) × (after : List Turn) × (turns
        ≡ (before ++ block) ++ after)
      × (b.start_msg ≡ count_messages before)
      × (b.end_msg ≡ count_messages (before ++ block))
      × (b.count ≡ length block)
      × All IsCandidate block

  -- What the scan answers is a run.
  abbrev pub IsFound : ℕ → List Turn → Scanned → Type 0
  IsFound num_turns turns (ready b) = IsRun turns b × (num_turns ≤ b.count)
  IsFound num_turns turns (best_of_all none) = Unit
  IsFound num_turns turns (best_of_all (some b)) = IsRun turns b

  abbrev IsOpen : List Turn → ScanBlock → Type 0
  IsOpen done b =
      (before : List Turn) × (block : List Turn) × (done ≡ before ++ block)
      × (b.start_msg ≡ count_messages before)
      × (b.end_msg ≡ count_messages (before ++ block))
      × (b.count ≡ length block)
      × All IsCandidate block

  abbrev IsCurrent : List Turn → Option ScanBlock → Type 0
  IsCurrent done none = Unit
  IsCurrent done (some b) = IsOpen done b

  abbrev IsBest : List Turn → Option ScanBlock → Type 0
  IsBest done none = Unit
  IsBest done (some b) = IsRun done b

  IsOpen-IsRun : (done after : List Turn) (b : ScanBlock) → IsOpen done b → IsRun (done ++ after) b
  IsOpen-IsRun done after b (before, block, e, start, stop, size, all) =
      (before, block, after, ap (λ x. x ++ after) e, start, stop, size, all)

  IsBest-append :
      (done more : List Turn) (o : Option ScanBlock) → IsBest done o → IsBest (done ++ more) o
  IsBest-append done more none h = tt
  IsBest-append done more (some b) (before, block, after, e, start, stop, size, all) = (
    before,
    block,
    after ++ more,
    ap (λ x. x ++ more) e ∙ append_assoc (before ++ block) after more,
    start,
    stop,
    size,
    all,
  )

  IsRun-done : (done : List Turn) (b : ScanBlock) → IsOpen done b → IsRun done b
  IsRun-done done b h = subst (λ x. IsRun x b) (append-nil done) (IsOpen-IsRun done [] b h)

  promoted-IsBest :
      (done : List Turn) (current best : Option ScanBlock)
      → IsCurrent done current
      → IsBest done best
      → IsBest done (promoted current best)
  promoted-IsBest done none best h k = k
  promoted-IsBest done (some b) none h k = IsRun-done done b h
  promoted-IsBest done (some b) (some best) h k = elim (Bool-cases (ltb best.count b.count)) [
    | inl more ↦ rw more (IsRun-done done b h)
    | inr less ↦ rw less k
  ]

  extended-IsOpen :
      (done : List Turn) (t : Turn) (i : ℕ) (current best : Option ScanBlock)
      → i ≡ count_messages done
      → IsCurrent done current
      → IsCandidate t
      → IsOpen
          (done ++ t ∷ [])
          (extended (length t) (record { current = current; best = best; msg_idx = i }))
  extended-IsOpen done t i none best at h is_candidate = (
    done,
    t ∷ [],
    refl,
    at,
    ap (λ x. x + length t) at ∙ sym (count_messages-one done t),
    refl,
    (is_candidate, tt),
  )
  extended-IsOpen done t i (some b) best at (before, block, e, start, stop, size, all)
        is_candidate =
      (
        before,
        block ++ t ∷ [],
        ap (λ x. x ++ t ∷ []) e ∙ append_assoc before block (t ∷ []),
        start,
        ap (λ x. x + length t) at
            ∙ sym (count_messages-one done t)
            ∙ ap (λ x. count_messages (x ++ t ∷ [])) e
            ∙ ap count_messages (append_assoc before block (t ∷ [])),
        ap (λ x. x + 1) size ∙ sym (length-one block t),
        All-one block t all is_candidate,
      )

  best-IsFound :
      (num_turns : ℕ) (turns : List Turn) (o : Option ScanBlock)
      → IsBest turns o
      → IsFound num_turns turns (best_of_all o)
  best-IsFound num_turns turns none h = tt
  best-IsFound num_turns turns (some b) h = h

  if-IsFound :
      (num_turns : ℕ) (turns : List Turn) (b : Bool) (x y : Scanned)
      → (b ≡ true → IsFound num_turns turns x)
      → (b ≡ false → IsFound num_turns turns y)
      → IsFound num_turns turns (if b then x else y)
  if-IsFound num_turns turns true x y h k = h refl
  if-IsFound num_turns turns false x y h k = k refl

  scan_loop-IsFound :
      (num_turns : ℕ) (done ts : List Turn) (current best : Option ScanBlock) (i : ℕ)
      → i ≡ count_messages done
      → IsCurrent done current
      → IsBest done best
      → IsFound num_turns
          (done ++ ts)
          (scan_loop sel num_turns ts (record { current = current; best = best; msg_idx = i }))
  unfolding scan_loop
  scan_loop-IsFound num_turns done [] current best i at open_block best_block =
      best-IsFound num_turns (done ++ []) (promoted current best) (
        IsBest-append done [] (promoted current best)
          (promoted-IsBest done current best open_block best_block))
  scan_loop-IsFound num_turns done (t ∷ ts) current best i at open_block best_block =
      let joined : (x : Scanned)
          → IsFound num_turns ((done ++ t ∷ []) ++ ts) x
          → IsFound num_turns (done ++ t ∷ ts) x =
        λ x h. subst (λ turns. IsFound num_turns turns x) (append_assoc done (t ∷ []) ts) h in
      let b = extended (length t) (record { current = current; best = best; msg_idx = i }) in
      let next = ap (λ x. x + length t) at ∙ sym (count_messages-one done t) in
      if-IsFound num_turns (done ++ t ∷ ts) (sel.is_candidate t) _ _
        (λ c.
          if-IsFound num_turns (done ++ t ∷ ts) (leb num_turns b.count) _ _
            (λ enough. joined (ready b) (
              IsOpen-IsRun (done ++ t ∷ []) ts b
                  (extended-IsOpen done t i current best at open_block c),
              leb→le num_turns b.count enough,
            ))
            (λ few. joined _ (
              scan_loop-IsFound num_turns (done ++ t ∷ []) ts (some b) best (i + length t) next
                (extended-IsOpen done t i current best at open_block c)
                (IsBest-append done (t ∷ []) best best_block))))
        (λ c. joined _ (
          scan_loop-IsFound num_turns (done ++ t ∷ []) ts none (promoted current best)
            (i + length t) next tt
            (IsBest-append done (t ∷ []) (promoted current best)
              (promoted-IsBest done current best open_block best_block))))

  -- The scan for candidates answers a run of candidates among the turns, with the indices of its messages
  -- and the number of its turns. The run has enough turns, or it is said to be the best one, and then it
  -- is a longest run of candidates; without an answer no turn is a candidate.
  pub scan_candidate_blocks-IsScan :
      (num_turns : ℕ) (turns : List Turn)
      → IsFound num_turns turns (scan_candidate_blocks sel num_turns turns)
        × IsLongest sel turns (scan_candidate_blocks sel num_turns turns)
  unfolding scan_candidate_blocks count_messages
  scan_candidate_blocks-IsScan num_turns turns = (
    scan_loop-IsFound num_turns [] turns none none 0 refl tt tt,
    scan-IsLongest sel num_turns turns _ refl,
  )
