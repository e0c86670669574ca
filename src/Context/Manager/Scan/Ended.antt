-- ===== src/Context/Manager/Scan/Ended.antt =====
-- The search ends.
use tell_me_go.Base.{
  ℕ, zero, suc, ◌+◌, ◌*◌, ◌≤◌, ◌<◌, Bool, true, false, ◌≡◌, refl, List, Option, none, some, leb,
  arith,
}
use tell_me_go.Errors.{Result, ok, err, Ctx, >>=-eq-ok}
use tell_me_go.Context.{Message}
use tell_me_go.Context.Turns.{group_turns}
use tell_me_go.Context.Summary.{Selector}
use tell_me_go.Context.Manager.Scan.{
  Checked, found, expand, Scanned, ready, best_of_all, checked_scan, check_window_size,
  scan_candidate_blocks, cap_best_block, after_check, unless_polled, boundary_loop,
  find_summarization_boundary, MessageRange, at_most,
}

-- A window that holds the whole history does not grow.
scan-grows :
    (ctx : Ctx) (sel : Selector) (contents : List Message) (at_end : Bool) (scan : Scanned)
    → checked_scan ctx sel contents at_end scan ≡ ok expand
    → at_end ≡ false
unfolding checked_scan
scan-grows ctx sel contents false scan h = refl
scan-grows ctx sel contents true (ready b) h = cc h
scan-grows ctx sel contents true (best_of_all best) h =
    let (range, e, f) = >>=-eq-ok (cap_best_block ctx contents sel.min_viable_block best) _ h in
    cc f

grows :
    (ctx : Ctx) (sel : Selector) (window : ℕ → Result (List Message)) (size num_turns total : ℕ)
    → check_window_size ctx sel window size num_turns total ≡ ok expand
    → size < total
unfolding check_window_size
grows ctx sel window size num_turns total h =
    let (contents, e, f) = >>=-eq-ok (window size) _ h in
    let (turns, g, k) = >>=-eq-ok (group_turns ctx (some contents)) _ f in
    let short =
      scan-grows ctx sel contents (leb total size) (scan_candidate_blocks sel num_turns turns) k in
    ground arith

after_check-some :
    (next : Unit {0} → Option (Result MessageRange)) (r : Result Checked)
    → (r ≡ ok expand → (range : Result MessageRange) × (next tt ≡ some range))
    → (range : Result MessageRange) × (after_check next r ≡ some range)
unfolding after_check
after_check-some next (err e) more = (err e, refl)
after_check-some next (ok (found range)) more = (ok range, refl)
after_check-some next (ok expand) more = more refl

unless_polled-some :
    (ctx : Ctx) (r : Option (Result MessageRange))
    → (range : Result MessageRange) × (r ≡ some range)
    → (range : Result MessageRange) × (unless_polled ctx r ≡ some range)
unfolding unless_polled
unless_polled-some none r h = h
unless_polled-some (some e) r h = (err e, refl)

next_size :
    (fuel num_turns total size : ℕ)
    → 0 < num_turns
    → total < size + suc fuel
    → size < total
    → total < at_most total (size + num_turns * 2) + fuel
next_size fuel num_turns total size pos enough short = ground arith

boundary_loop-some :
    (fuel : ℕ) (ctx : Ctx) (sel : Selector) (window : ℕ → Result (List Message))
    (num_turns total size : ℕ)
    → 0 < num_turns
    → size ≤ total
    → total < size + fuel
    → (range : Result MessageRange) × (boundary_loop fuel ctx sel window num_turns total size
        ≡ some range)
unfolding boundary_loop
boundary_loop-some zero ctx sel window num_turns total size pos within enough =
    absurd (ground arith)
boundary_loop-some (suc fuel) ctx sel window num_turns total size pos within enough =
    unless_polled-some ctx _ (
      after_check-some _ (check_window_size ctx sel window size num_turns total) (λ h.
        boundary_loop-some fuel ctx sel window num_turns total
          (at_most total (size + num_turns * 2)) pos (ground arith)
          (next_size fuel num_turns total size pos enough
            (grows ctx sel window size num_turns total h))))

-- The search for the range of a summary ends: for a positive number of turns, as many windows as there are
-- messages, and one more, are enough for an answer or an error.
pub find_summarization_boundary_total :
    (ctx : Ctx) (sel : Selector) (window : ℕ → Result (List Message)) (num_turns total : ℕ)
    → 0 < num_turns
    → (range : Result MessageRange) × (find_summarization_boundary
          (total + 1)
          ctx
          sel
          window
          num_turns
          total
        ≡ some range)
unfolding find_summarization_boundary
find_summarization_boundary_total ctx sel window num_turns total pos =
    boundary_loop-some (total + 1) ctx sel window num_turns total (at_most total (num_turns * 4))
      pos (ground arith) (ground arith)
