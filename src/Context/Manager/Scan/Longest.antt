-- ===== src/Context/Manager/Scan/Longest.antt =====
-- The block that the scan falls back on is a longest one.
use tell_me_go.Base.{
  ℕ, ◌+◌, Bool, true, false, ◌≡◌, refl, ap, subst, ◌∙◌, List, [], ◌∷◌, Option, none, some, length,
  ltb, Bool-cases, inl, inr, arith, if◌then◌else◌,
}
use tell_me_go.Context.{Turn}
use tell_me_go.Context.Summary.{Selector}
use tell_me_go.Context.Manager.Scan.{
  ScanBlock, extended, promoted, Scanned, ready, best_of_all, scan_loop,
}

abbrev block_of : Scanned → Option ScanBlock
block_of (ready b) = some b
block_of (best_of_all o) = o

best_of_all-injective : {o o' : Option ScanBlock} → best_of_all o ≡ best_of_all o' → o ≡ o'
best_of_all-injective h = ap block_of h

module _ (sel : Selector) where
  abbrev larger : ℕ → ℕ → ℕ
  larger m n = if ltb m n then n else m

  -- The length of the longest run of candidates, where `n` candidates stand in front.
  unfoldable pub longest_run : ℕ → List Turn → ℕ
  longest_run n [] = n
  longest_run n (t ∷ ts) =
      let more = longest_run (n + 1) ts in
      let rest = longest_run 0 ts in if sel.is_candidate t then more else larger n rest

  abbrev pub turns_of : Option ScanBlock → ℕ
  turns_of none = 0
  turns_of (some b) = b.count

  -- Where no run has enough turns, it is one of the longest.
  abbrev pub IsLongest : List Turn → Scanned → Type 0
  IsLongest turns (ready b) = Unit
  IsLongest turns (best_of_all best) = turns_of best ≡ longest_run 0 turns

  promoted-turns :
      (current best : Option ScanBlock)
      → turns_of (promoted current best) ≡ larger (turns_of best) (turns_of current)
  promoted-turns none best = ground arith
  promoted-turns (some b) none = ground arith
  promoted-turns (some b) (some best) = ground arith

  extended-turns :
      (n i : ℕ) (current best : Option ScanBlock)
      → (extended n (record { current = current; best = best; msg_idx = i })).count
        ≡ turns_of current + 1
  extended-turns n i none best = refl
  extended-turns n i (some b) best = refl

  larger_assoc : (a b c : ℕ) → larger (larger a b) c ≡ larger a (larger b c)
  larger_assoc a b c = ground arith

  unless_ready :
      (b : Bool) (block : ScanBlock) (r : Scanned) (o : Option ScanBlock)
      → (if b then ready block else r) ≡ best_of_all o
      → r ≡ best_of_all o
  unless_ready true block r o h = cc h
  unless_ready false block r o h = h

  scan_loop-turns :
      (num_turns i : ℕ) (ts : List Turn) (current best o : Option ScanBlock)
      → scan_loop sel num_turns ts (record { current = current; best = best; msg_idx = i })
        ≡ best_of_all o
      → turns_of o ≡ larger (turns_of best) (longest_run (turns_of current) ts)
  unfolding scan_loop longest_run
  scan_loop-turns num_turns i [] current best o h =
      subst (λ x. turns_of x ≡ larger (turns_of best) (turns_of current)) (best_of_all-injective h)
        (promoted-turns current best)
  scan_loop-turns num_turns i (t ∷ ts) current best o h = elim (Bool-cases (sel.is_candidate t)) [
    | inl c ↦ rw c (
        subst (λ n. turns_of o ≡ larger (turns_of best) (longest_run n ts))
          (extended-turns (length t) i current best)
          (scan_loop-turns num_turns (i + length t) ts _ best o (unless_ready _ _ _ o (rw c at h))))
    | inr c ↦ rw c (
        scan_loop-turns num_turns (i + length t) ts none (promoted current best) o (rw c at h)
        ∙ ap (λ n. larger n (longest_run 0 ts)) (promoted-turns current best)
        ∙ larger_assoc (turns_of best) (turns_of current) (longest_run 0 ts))
  ]

  zero_larger : (n : ℕ) → larger 0 n ≡ n
  zero_larger n = ground arith

  pub scan-IsLongest :
      (num_turns : ℕ) (turns : List Turn) (r : Scanned)
      → scan_loop sel num_turns turns (record { current = none; best = none; msg_idx = 0 }) ≡ r
      → IsLongest turns r
  scan-IsLongest num_turns turns (ready b) h = tt
  scan-IsLongest num_turns turns (best_of_all o) h =
      scan_loop-turns num_turns 0 turns none none o h ∙ zero_larger (longest_run 0 turns)
