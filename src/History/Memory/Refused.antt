-- ===== src/History/Memory/Refused.antt =====
-- What a change leaves that answers an error.
use tell_me_go.Base.{
  ℕ, Bool, true, false, ◌≡◌, refl, subst, List, Option, none, some, Bytes, length, leb, ◌==◌, ◌&&◌,
  if◌then◌else◌,
}
use tell_me_go.Errors.{Error, Result, ok, err, Ctx}
use tell_me_go.Llm.{Part, Content}
use tell_me_go.Context.{Message}
use tell_me_go.History.Lines.{Codec}
use tell_me_go.History.Backend.{Files}
use tell_me_go.History.Turns.{message_at, rollback_bounds}
use tell_me_go.History.Memory.{
  History, committed, add_content, set_contents, archive, appended, append_parts, pin_second,
  pin_pair, set_pinned, Rolled, cut_at, grown, rolled_back, rollback_to, rollback_turns, edited,
  update_turn_content, Change, adding, setting, archiving, appending, pinning, rolling_back,
  editing, without_counts, step,
}

module _ {F : Type 0} (codec : Codec) (files : Files F) where
  -- An answer that is an error stands beside the memory as it was.
  abbrev pub Kept : History F → History F × Option Error → Type 0
  Kept h (h', none) = Unit
  Kept h (h', some e) = h'.contents ≡ h.contents

  committed-Kept :
      (h : History F) (ms : List Message) (r : F × Option Error)
      → Kept h (committed codec files h ms r)
  committed-Kept h ms (f, some e) = refl
  committed-Kept h ms (f, none) = tt

  add_content-Kept :
      (ctx : Ctx) (id : Bytes) (m : Message) (h : History F)
      → Kept h (add_content codec files ctx id m h)
  unfolding add_content
  add_content-Kept ctx id none h = refl
  add_content-Kept ctx id (some c) h = committed-Kept h _ _

  grown-Kept :
      (i : ℕ) (parts : List (Option Part)) (h : History F) (f : F) (r : Result Content)
      → Kept h (grown codec files i parts h f r)
  grown-Kept i parts h f (err e) = refl
  grown-Kept i parts h f (ok c) = tt

  appended-Kept :
      (i : ℕ) (parts : List (Option Part)) (h : History F) (r : F × Option Error)
      → Kept h (appended codec files i parts h r)
  unfolding appended
  appended-Kept i parts h (f, some e) = refl
  appended-Kept i parts h (f, none) = grown-Kept i parts h f (message_at h.contents i)

  if-Kept :
      (h : History F) (b : Bool) (r r' : History F × Option Error)
      → Kept h r
      → Kept h r'
      → Kept h (if b then r else r')
  if-Kept h true r r' k k' = k
  if-Kept h false r r' k k' = k'

  append_parts-Kept :
      (ctx : Ctx) (i : ℕ) (parts : List (Option Part)) (h : History F)
      → Kept h (append_parts codec files ctx i parts h)
  unfolding append_parts
  append_parts-Kept ctx i parts h =
      if-Kept h (leb (length h.contents) i) _ _ refl (appended-Kept i parts h _)

  second-Kept :
      (ctx : Ctx) (pinned : Bool) (a b : ℕ) (h : History F) (r : F × Option Error)
      → Kept h (pin_second codec files ctx pinned a b h r)
  unfolding pin_second
  second-Kept ctx pinned a b h (f, some e) = refl
  second-Kept ctx pinned a b h (f, none) = committed-Kept h _ _

  pair-Kept :
      (ctx : Ctx) (pinned : Bool) (h : History F) (r : Result (ℕ × ℕ))
      → Kept h (pin_pair codec files ctx pinned h r)
  unfolding pin_pair
  pair-Kept ctx pinned h (err e) = refl
  pair-Kept ctx pinned h (ok (a, b)) = second-Kept ctx pinned a b h _

  cut-Kept :
      (ctx : Ctx) (s : Bool) (removed n : ℕ) (h : History F) (r : F × Option Error)
      → Kept h (without_counts codec files (cut_at codec files ctx s removed n h r))
  unfolding cut_at
  cut-Kept ctx s removed n h (f, some e) = refl
  cut-Kept ctx s removed n h (f, none) = tt

  rollback-Kept :
      (h : History F) (b : Bool) (r r' : History F × Result (Rolled codec files))
      → Kept h (without_counts codec files r)
      → Kept h (without_counts codec files r')
      → Kept h (without_counts codec files (if b then r else r'))
  rollback-Kept h true r r' k k' = k
  rollback-Kept h false r r' k k' = k'

  rolled-Kept :
      (ctx : Ctx) (turns : ℕ) (h : History F) (r : Result Bool)
      → Kept h (without_counts codec files (rolled_back codec files ctx turns h r))
  unfolding rolled_back rollback_to
  rolled-Kept ctx turns h (err e) = refl
  rolled-Kept ctx turns h (ok s) =
      let (removed, n) = rollback_bounds (length h.contents) turns s in
      rollback-Kept h (n == length h.contents && removed == 0) _ _ tt (cut-Kept ctx s removed n h _)

  edited-Kept :
      (ctx : Ctx) (i : ℕ) (h : History F) (r : Result (List Part))
      → Kept h (edited codec files ctx i h r)
  unfolding edited
  edited-Kept ctx i h (err e) = refl
  edited-Kept ctx i h (ok parts) = committed-Kept h _ _

  step-Kept : (c : Change codec files) (h : History F) → Kept h (step codec files c h)
  unfolding step set_contents archive set_pinned rollback_turns update_turn_content
  step-Kept (adding ctx id m) h = add_content-Kept ctx id m h
  step-Kept (setting ctx ms) h = committed-Kept h _ _
  step-Kept (archiving ctx ms) h = committed-Kept h _ _
  step-Kept (appending ctx i parts) h = append_parts-Kept ctx i parts h
  step-Kept (pinning ctx id pinned) h = pair-Kept ctx pinned h _
  step-Kept (rolling_back ctx turns) h = rolled-Kept ctx turns h _
  step-Kept (editing ctx i text thought) h = edited-Kept ctx i h _

  -- A change of the history that answers an error, in its arguments, in the file or on a nil pointer,
  -- leaves the messages in memory as they were.
  pub step_refused :
      (c : Change codec files) (h : History F) {h' : History F} {e : Error}
      → step codec files c h ≡ (h', some e)
      → h'.contents ≡ h.contents
  step_refused c h k = subst (Kept h) k (step-Kept c h)
