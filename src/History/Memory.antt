-- ===== src/History/Memory.antt =====
-- internal/infrastructure/history/history.go: `Manager`, which keeps the messages in memory and writes
-- each change to the file first. Each function is one stretch under the lock. New IDs are an argument.
pub mod Durable
pub mod Patched
pub mod Refused
pub mod Steps
use tell_me_go.Base.{
  ℕ, zero, suc, ◌+◌, ◌-◌, Bool, true, false, List, [], ◌∷◌, ◌++◌, Option, none, some, Slice, items,
  Bytes, bytes_eq, is_nil, length, take, drop, map, ltb, leb, ◌==◌, ◌&&◌, not, if◌then◌else◌,
}
use tell_me_go.Errors.{
  Error, wraps, Result, ok, err, fails, fails_plain, nil_dereference, history_not_found, is, Ctx,
  ◌>>=◌, ◌>>◌,
}
use tell_me_go.Llm.{Part, Content, model, system, has_role}
use tell_me_go.Llm.Clone.{clone_parts, clone_content}
use tell_me_go.Context.{Message}
use tell_me_go.History.Lines.{Codec}
use tell_me_go.History.Backend
use tell_me_go.History.Backend.{Files, main, archived}
use tell_me_go.History.Turns.{find_turn_pair, message_at, rollback_bounds, remaining_turns}
use tell_me_go.History.Edit.{collect_updated_parts}

pub record History (F : Type 0) : Type 0 where
  pub file : F
  pub contents : List Message

-- `clonePersistentContentLocked`.
unfoldable pub persistent : Message → Message
persistent none = none
persistent (some c) = some (record (clone_content c) { transient_parts = [] })

-- `m.Contents[i] = f(m.Contents[i])` on the message behind the pointer; a nil one stays.
unfoldable pub update_at : ℕ → (Content → Content) → List Message → List Message
update_at i f [] = []
update_at zero f (none ∷ ms) = none ∷ ms
update_at zero f (some c ∷ ms) = some (f c) ∷ ms
update_at (suc i) f (m ∷ ms) = m ∷ update_at i f ms

-- The end of a window: `none` is -1.
abbrev pub window_end : ℕ → Option ℕ → ℕ
window_end total none = total
window_end total (some n) = if ltb total n then total else n

-- The first message with an ID, from index `i`.
unfoldable pub index_of : Bytes → List Message → ℕ → Result ℕ
index_of id [] i = fails_plain
index_of id (none ∷ ms) i = err nil_dereference
index_of id (some c ∷ ms) i =
    let rest = index_of id ms (i + 1) in if bytes_eq c.id id then ok i else rest

-- The parts of a turn, each read through its pointer.
unfoldable pub read_parts : List (Option Part) → Result (List Part)
read_parts [] = ok []
read_parts (none ∷ ps) = err nil_dereference
read_parts (some p ∷ ps) = do rest ← read_parts ps; ok (p ∷ rest)

-- Whether the first message is the system's.
unfoldable pub starts_with_system : List Message → Result Bool
starts_with_system [] = ok false
starts_with_system (none ∷ ms) = err nil_dereference
starts_with_system (some c ∷ ms) = ok (has_role c system)

-- The ID of a loaded message that has none.
unfoldable pub backfilled : (ℕ → Bytes) → ℕ → List Content → List Message
backfilled new_id i [] = []
backfilled new_id i (c ∷ cs) =
    some (record c { id = if is_nil c.id then new_id i else c.id }) ∷ backfilled new_id (i + 1) cs

unfoldable pub any_unnamed : List Content → Bool
any_unnamed [] = false
any_unnamed (c ∷ cs) = let rest = any_unnamed cs in if is_nil c.id then true else rest

module _ {F : Type 0} (codec : Codec) (files : Files F) where
  -- A change of the memory that waits for the file: it is made where the file answers no error.
  abbrev pub committed : History F → List Message → F × Option Error → History F × Option Error
  committed h contents (f, some e) = (record h { file = f }, some e)
  committed h contents (f, none) = (record { file = f; contents = contents }, none)

  -- `Load`: missing IDs are made up and saved, whatever that answers.
  unfoldable pub loaded :
      Ctx → (ℕ → Bytes) → History F → Result (List Content) → History F × Option Error
  loaded ctx new_id h (err e) =
      if is e history_not_found then (record h { contents = [] }, none) else (h, some e)
  loaded ctx new_id h (ok contents) =
      let named = backfilled new_id 0 contents in
      if any_unnamed contents
      then (record { file = (Backend.save codec files ctx named h.file).0; contents = named }, none)
      else (record h { contents = named }, none)

  unfoldable pub load : Ctx → (ℕ → Bytes) → History F → History F × Option Error
  load ctx new_id h = loaded ctx new_id h (Backend.load codec files ctx h.file)

  -- `AddContent`.
  unfoldable pub add_content : Ctx → Bytes → Message → History F → History F × Option Error
  add_content ctx new_id none h = (h, some nil_dereference)
  add_content ctx new_id (some c) h =
      let cloned = record (clone_content c) {
        transient_parts = [];
        id = if is_nil c.id then new_id else c.id;
      } in
      committed h (h.contents ++ some cloned ∷ [])
        (Backend.append codec files ctx main (some cloned ∷ []) h.file)

  -- `GetWindow`.
  unfoldable pub get_window : ℕ → Option ℕ → History F → Result (List Message)
  get_window start stop h =
      let total = length h.contents in
      let first = if ltb total start then total else start in
      let last = window_end total stop in
      if ltb last first then fails_plain else ok (take (last - first) (drop first h.contents))

  -- `SetContents`.
  unfoldable pub set_contents : Ctx → Slice Message → History F → History F × Option Error
  set_contents ctx contents h =
      let new_contents = map persistent (items contents) in
      committed h new_contents (Backend.save codec files ctx new_contents h.file)

  -- `Archive`.
  unfoldable pub archive : Ctx → List Message → History F → History F × Option Error
  archive ctx contents h =
      committed h h.contents (Backend.append codec files ctx archived contents h.file)

  -- `AppendParts`: behind the write, the message is read through its pointer.
  abbrev pub with_parts : List (Option Part) → Content → Content
  with_parts parts c = record c { parts = c.parts ++ clone_parts parts }

  abbrev pub grown :
      ℕ → List (Option Part) → History F → F → Result Content → History F × Option Error
  grown i parts h f (err e) = (record h { file = f }, some e)
  grown i parts h f (ok c) =
      (record { file = f; contents = update_at i (with_parts parts) h.contents }, none)

  unfoldable pub appended :
      ℕ → List (Option Part) → History F → F × Option Error → History F × Option Error
  appended i parts h (f, some e) = (record h { file = f }, some e)
  appended i parts h (f, none) = grown i parts h f (message_at h.contents i)

  unfoldable pub append_parts : Ctx → ℕ → List (Option Part) → History F → History F × Option Error
  append_parts ctx i parts h =
      if leb (length h.contents) i
      then (h, some (wraps []))
      else appended i parts h (Backend.append_parts codec files ctx i (clone_parts parts) h.file)

  -- `SetPinned`: two patches, then both messages.
  abbrev pub pinned_as : Bool → Content → Content
  pinned_as pinned c = record c { pinned = pinned }

  unfoldable pub pin_second :
      Ctx → Bool → ℕ → ℕ → History F → F × Option Error → History F × Option Error
  pin_second ctx pinned first second h (f, some e) = (record h { file = f }, some e)
  pin_second ctx pinned first second h (f, none) =
      committed h
        (update_at second (pinned_as pinned) (update_at first (pinned_as pinned) h.contents))
        (Backend.update_metadata codec files ctx second pinned f)

  unfoldable pub pin_pair : Ctx → Bool → History F → Result (ℕ × ℕ) → History F × Option Error
  pin_pair ctx pinned h (err e) = (h, some e)
  pin_pair ctx pinned h (ok (first, second)) =
      pin_second ctx pinned first second h
        (Backend.update_metadata codec files ctx first pinned h.file)

  unfoldable pub set_pinned : Ctx → Bytes → Bool → History F → History F × Option Error
  set_pinned ctx id pinned h =
      pin_pair ctx pinned h (index_of id h.contents 0 >>= λ i. find_turn_pair h.contents i)

  -- `RollbackTurns`: the turns removed, the turns left and the messages left.
  abbrev pub Rolled : Type 0
  Rolled = ℕ × ℕ × ℕ

  unfoldable pub cut_at :
      Ctx → Bool → ℕ → ℕ → History F → F × Option Error → History F × Result Rolled
  cut_at ctx has_system removed n h (f, some e) = (record h { file = f }, err e)
  cut_at ctx has_system removed n h (f, none) = (
    record { file = f; contents = take n h.contents },
    ok (removed, remaining_turns n has_system, n),
  )

  unfoldable pub rollback_to : Ctx → Bool → ℕ × ℕ → History F → History F × Result Rolled
  rollback_to ctx has_system (removed, n) h =
      let total = length h.contents in
      if n == total && removed == 0
      then (h, ok (0, remaining_turns total has_system, total))
      else cut_at ctx has_system removed n h
          (Backend.save codec files ctx (take n h.contents) h.file)

  unfoldable pub rolled_back : Ctx → ℕ → History F → Result Bool → History F × Result Rolled
  rolled_back ctx turns h (err e) = (h, err e)
  rolled_back ctx turns h (ok has_system) =
      rollback_to ctx has_system (rollback_bounds (length h.contents) turns has_system) h

  unfoldable pub rollback_turns : Ctx → ℕ → History F → History F × Result Rolled
  rollback_turns ctx turns h = rolled_back ctx turns h (starts_with_system h.contents)

  -- `UpdateTurnContent`.
  abbrev pub new_parts : List Part → Content → Content
  new_parts parts c = record c { parts = map some parts }

  unfoldable pub edited : Ctx → ℕ → History F → Result (List Part) → History F × Option Error
  edited ctx i h (err e) = (h, some e)
  edited ctx i h (ok parts) =
      let contents = update_at i (new_parts parts) h.contents in
      committed h contents (Backend.save codec files ctx contents h.file)

  unfoldable pub updated_parts : ℕ → Bytes → Bytes → History F → Result (List Part)
  updated_parts i text thought h = do
    c ← message_at h.contents i
    (if has_role c model then ok tt else fails_plain)
    parts ← read_parts c.parts
    ok (collect_updated_parts parts text thought)

  unfoldable pub update_turn_content :
      Ctx → ℕ → Bytes → Bytes → History F → History F × Option Error
  update_turn_content ctx i text thought h = edited ctx i h (updated_parts i text thought h)

  -- The changes of a history.
  pub data Change : Type 0 where
    adding : Ctx → Bytes → Message → Change
    setting : Ctx → Slice Message → Change
    archiving : Ctx → List Message → Change
    appending : Ctx → ℕ → List (Option Part) → Change
    pinning : Ctx → Bytes → Bool → Change
    rolling_back : Ctx → ℕ → Change
    editing : Ctx → ℕ → Bytes → Bytes → Change

  abbrev pub without_counts : History F × Result Rolled → History F × Option Error
  without_counts (h, ok r) = (h, none)
  without_counts (h, err e) = (h, some e)

  unfoldable pub step : Change → History F → History F × Option Error
  step (adding ctx id m) h = add_content ctx id m h
  step (setting ctx ms) h = set_contents ctx ms h
  step (archiving ctx ms) h = archive ctx ms h
  step (appending ctx i parts) h = append_parts ctx i parts h
  step (pinning ctx id pinned) h = set_pinned ctx id pinned h
  step (rolling_back ctx turns) h = without_counts (rollback_turns ctx turns h)
  step (editing ctx i text thought) h = update_turn_content ctx i text thought h

  -- Changes one after the other, as long as none of them answers an error.
  unfoldable pub run : List Change → History F → Result (History F)
  run [] h = ok h
  run (c ∷ cs) h = let (h', e) = step c h in elim e [ some e ↦ err e | none ↦ run cs h' ]
