-- ===== src/History/Memory/Steps.antt =====
-- What the changes leave in the file, where they answer no error.
use tell_me_go.Base.{
  ℕ, Bool, true, false, ◌≡◌, refl, sym, ap, subst, ◌∙◌, List, [], ◌∷◌, Option, none, some, Bytes,
  take, length, leb, ◌==◌, ◌&&◌, inl, inr, if◌then◌else◌,
}
use tell_me_go.Errors.{Error, Result, ok, err, Ctx, ok-injective, ◌>>=◌}
use tell_me_go.Llm.{Part, Content}
use tell_me_go.Llm.Clone.{clone_parts}
use tell_me_go.Context.{Message}
use tell_me_go.History.Lines.{Line, Codec}
use tell_me_go.History.Lines.Replay.{replay, load_lines-replay, stored_all}
use tell_me_go.History.Backend
use tell_me_go.History.Backend.{Files, main, archived, append_all}
use tell_me_go.History.Turns.{message_at, find_turn_pair, rollback_bounds}
use tell_me_go.History.Turns.Pairs.{find_turn_pair-IsTurn}
use tell_me_go.History.Memory.{
  History, committed, pinned_as, add_content, set_contents, archive, grown, appended, append_parts,
  pin_second, pin_pair, set_pinned, index_of, Rolled, cut_at, rollback_to, rolled_back,
  rollback_turns, edited, update_turn_content, Change, adding, setting, archiving, appending,
  pinning, rolling_back, editing, without_counts, step, run,
}
use tell_me_go.History.Memory.Patched.{message_at-update_at}
use tell_me_go.History.Memory.Durable.{
  IsLawful, on_file, Agrees, append-Agrees, save-Agrees, parts-Agrees, pin-Agrees, opened-none,
  archive_all-lines,
}

module _ {F : Type 0} (codec : Codec) (files : Files F) (lawful : IsLawful files) where
  -- An answer without an error leaves a file that holds what the memory does.
  abbrev pub Fits : History F × Option Error → Type 0
  Fits (h, none) = Agrees codec files lawful h
  Fits (h, some e) = Unit

  committed-Fits :
      (h : History F) (ms : List Message) (r : F × Option Error)
      → ((f' : F) → r ≡ (f', none) → stored_all codec ms ≡ ok (on_file codec files lawful f'))
      → Fits (committed codec files h ms r)
  committed-Fits h ms (f, some e) each = tt
  committed-Fits h ms (f, none) each = each f refl

  add_content-Fits :
      (ctx : Ctx) (id : Bytes) (m : Message) (h : History F)
      → Agrees codec files lawful h
      → Fits (add_content codec files ctx id m h)
  unfolding add_content
  add_content-Fits ctx id none h agrees = tt
  add_content-Fits ctx id (some c) h agrees =
      committed-Fits h _ _
        (λ f' k. append-Agrees codec files lawful ctx _ h.file h.contents agrees k)

  archived-on_file :
      (ctx : Ctx) (ms : List Message) (f : F) {f' : F}
      → Backend.append codec files ctx archived ms f ≡ (f', none)
      → on_file codec files lawful f ≡ on_file codec files lawful f'
  unfolding Backend.append
  archived-on_file ctx [] f k = ap (λ p. on_file codec files lawful p.0) k
  archived-on_file ctx (m ∷ ms) f k =
      ap (λ ls. replay ls [])
        (sym (
          archive_all-lines codec files lawful ctx (m ∷ ms) f (
            opened-none codec files lawful archived
              (λ g. append_all codec files ctx archived (m ∷ ms) g) f (files.open_file archived f)
              k)))

  grown-Fits :
      (ctx : Ctx) (i : ℕ) (parts : List (Option Part)) (h : History F) (f : F) (r : Result Content)
      → Agrees codec files lawful h
      → message_at h.contents i ≡ r
      → Backend.append_parts codec files ctx i (clone_parts parts) h.file ≡ (f, none)
      → Fits (grown codec files i parts h f r)
  grown-Fits ctx i parts h f (err e) agrees found k = tt
  grown-Fits ctx i parts h f (ok c) agrees found k =
      parts-Agrees codec files lawful ctx i parts h.file h.contents agrees found k

  appended-Fits :
      (ctx : Ctx) (i : ℕ) (parts : List (Option Part)) (h : History F) (r : F × Option Error)
      → Agrees codec files lawful h
      → Backend.append_parts codec files ctx i (clone_parts parts) h.file ≡ r
      → Fits (appended codec files i parts h r)
  unfolding appended
  appended-Fits ctx i parts h (f, some e) agrees k = tt
  appended-Fits ctx i parts h (f, none) agrees k =
      grown-Fits ctx i parts h f (message_at h.contents i) agrees refl k

  if-Fits :
      (b : Bool) (r r' : History F × Option Error)
      → (b ≡ true → Fits r)
      → (b ≡ false → Fits r')
      → Fits (if b then r else r')
  if-Fits true r r' k k' = k refl
  if-Fits false r r' k k' = k' refl

  append_parts-Fits :
      (ctx : Ctx) (i : ℕ) (parts : List (Option Part)) (h : History F)
      → Agrees codec files lawful h
      → Fits (append_parts codec files ctx i parts h)
  unfolding append_parts
  append_parts-Fits ctx i parts h agrees =
      if-Fits (leb (length h.contents) i) _ _ (λ k. tt)
        (λ k. appended-Fits ctx i parts h _ agrees refl)

  pin_second-Fits :
      (ctx : Ctx) (pinned : Bool) (a b : ℕ) (h : History F) (r : F × Option Error) {c d : Content}
      → Agrees codec files lawful h
      → message_at h.contents a ≡ ok c
      → message_at h.contents b ≡ ok d
      → Backend.update_metadata codec files ctx a pinned h.file ≡ r
      → Fits (pin_second codec files ctx pinned a b h r)
  unfolding pin_second
  pin_second-Fits ctx pinned a b h (f, some e) agrees first second k = tt
  pin_second-Fits ctx pinned a b h (f, none) agrees first second k =
      let once = pin-Agrees codec files lawful ctx a pinned h.file h.contents agrees first k in
      let (d', found) = message_at-update_at h.contents a b (pinned_as codec files pinned) second in
      committed-Fits h _ _ (λ f' l. pin-Agrees codec files lawful ctx b pinned f _ once found l)

  pin_pair-Fits :
      (ctx : Ctx) (pinned : Bool) (i : ℕ) (h : History F) (r : Result (ℕ × ℕ))
      → Agrees codec files lawful h
      → find_turn_pair h.contents i ≡ r
      → Fits (pin_pair codec files ctx pinned h r)
  unfolding pin_pair
  pin_pair-Fits ctx pinned i h (err e) agrees k = tt
  pin_pair-Fits ctx pinned i h (ok (a, b)) agrees k =
      let ((e, roles), which) = find_turn_pair-IsTurn h.contents i k in
      elim roles [
        | inl ((c, first, r), (d, second, s)) ↦
            pin_second-Fits ctx pinned a b h _ agrees first second refl
        | inr ((c, first, r), (d, second, s)) ↦
            pin_second-Fits ctx pinned a b h _ agrees first second refl
      ]

  set_pinned-Fits :
      (ctx : Ctx) (pinned : Bool) (h : History F) (found : Result ℕ)
      → Agrees codec files lawful h
      → Fits (pin_pair codec files ctx pinned h (found >>= λ i. find_turn_pair h.contents i))
  unfolding pin_pair
  set_pinned-Fits ctx pinned h (err e) agrees = tt
  set_pinned-Fits ctx pinned h (ok i) agrees = pin_pair-Fits ctx pinned i h _ agrees refl

  cut_at-Fits :
      (ctx : Ctx) (s : Bool) (removed n : ℕ) (h : History F) (r : F × Option Error)
      → Backend.save codec files ctx (take n h.contents) h.file ≡ r
      → Fits (without_counts codec files (cut_at codec files ctx s removed n h r))
  unfolding cut_at
  cut_at-Fits ctx s removed n h (f, some e) k = tt
  cut_at-Fits ctx s removed n h (f, none) k =
      save-Agrees codec files lawful ctx (take n h.contents) h.file k

  if_rolled-Fits :
      (b : Bool) (r r' : History F × Result (Rolled codec files))
      → Fits (without_counts codec files r)
      → Fits (without_counts codec files r')
      → Fits (without_counts codec files (if b then r else r'))
  if_rolled-Fits true r r' k k' = k
  if_rolled-Fits false r r' k k' = k'

  rolled_back-Fits :
      (ctx : Ctx) (turns : ℕ) (h : History F) (r : Result Bool)
      → Agrees codec files lawful h
      → Fits (without_counts codec files (rolled_back codec files ctx turns h r))
  unfolding rolled_back rollback_to
  rolled_back-Fits ctx turns h (err e) agrees = tt
  rolled_back-Fits ctx turns h (ok s) agrees =
      let (removed, n) = rollback_bounds (length h.contents) turns s in
      if_rolled-Fits (n == length h.contents && removed == 0) _ _ agrees
        (cut_at-Fits ctx s removed n h _ refl)

  edited-Fits :
      (ctx : Ctx) (i : ℕ) (h : History F) (r : Result (List Part))
      → Fits (edited codec files ctx i h r)
  unfolding edited
  edited-Fits ctx i h (err e) = tt
  edited-Fits ctx i h (ok parts) =
      committed-Fits h _ _ (λ f' k. save-Agrees codec files lawful ctx _ h.file k)

  step-Fits :
      (c : Change codec files) (h : History F)
      → Agrees codec files lawful h
      → Fits (step codec files c h)
  unfolding step set_contents archive set_pinned rollback_turns update_turn_content
  step-Fits (adding ctx id m) h agrees = add_content-Fits ctx id m h agrees
  step-Fits (setting ctx ms) h agrees =
      committed-Fits h _ _ (λ f' k. save-Agrees codec files lawful ctx _ h.file k)
  step-Fits (archiving ctx ms) h agrees =
      committed-Fits h _ _ (λ f' k. agrees ∙ ap ok (archived-on_file ctx ms h.file k))
  step-Fits (appending ctx i parts) h agrees = append_parts-Fits ctx i parts h agrees
  step-Fits (pinning ctx id pinned) h agrees =
      set_pinned-Fits ctx pinned h (index_of id h.contents 0) agrees
  step-Fits (rolling_back ctx turns) h agrees = rolled_back-Fits ctx turns h _ agrees
  step-Fits (editing ctx i text thought) h agrees = edited-Fits ctx i h _

  run_from :
      (cs : List (Change codec files)) (r : History F × Option Error) {h' : History F}
      → Fits r
      → ((h : History F)
          → Agrees codec files lawful h
          → run codec files cs h ≡ ok h'
          → Agrees codec files lawful h')
      → (elim r.1 as (λ x. Result (History F)) [ some e ↦ err e | none ↦ run codec files cs r.0 ])
        ≡ ok h'
      → Agrees codec files lawful h'
  run_from cs (h, some e) fits rest k = cc k
  run_from cs (h, none) fits rest k = rest h fits k

  -- Where the file holds what the memory does, and a sequence of changes answers no error, the file holds
  -- what the memory does behind them too: reading its lines one after the other, patches included, gives
  -- every message of the memory in the form it is stored in.
  pub run-Agrees :
      (cs : List (Change codec files)) (h : History F) {h' : History F}
      → Agrees codec files lawful h
      → run codec files cs h ≡ ok h'
      → Agrees codec files lawful h'
  unfolding run
  run-Agrees [] h agrees k = subst (Agrees codec files lawful) (ok-injective k) agrees
  run-Agrees (c ∷ cs) h agrees k =
      run_from cs (step codec files c h) (step-Fits c h agrees) (λ g. run-Agrees cs g) k

  -- A restart: where the file holds what the memory does and can be read, a live `Load` of the backend
  -- answers each message of the memory in the form it is stored in.
  pub load-run :
      (cs : List (Change codec files)) (h : History F) {h' : History F} {ls : List Line}
      → Agrees codec files lawful h
      → run codec files cs h ≡ ok h'
      → files.read h'.file ≡ ok (some ls)
      → Backend.load codec files none h'.file ≡ stored_all codec h'.contents
  unfolding Backend.load
  load-run cs h {h'} {ls} agrees k readable = rw readable (
      load_lines-replay ls []
      ∙ ap (λ x. ok (replay x [])) (lawful.reads h'.file readable)
      ∙ sym (run-Agrees cs h agrees k))
