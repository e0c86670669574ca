-- ===== src/History/Backend.antt =====
-- internal/infrastructure/history/store.go: `jsonlStore`, on a file system (internal/domain/persistence)
-- that is an argument: its state and what its calls do. Opening a file makes its directory. The
-- migration of the older JSON file is left out.
use tell_me_go.Base.{ℕ, Bool, List, [], ◌∷◌, Option, none, some, is_nil, if◌then◌else◌}
use tell_me_go.Errors.{Error, Result, ok, err, fails, history_not_found, Ctx, ◌>>=◌}
use tell_me_go.Llm.{Part, Content}
use tell_me_go.Context.{Message}
use tell_me_go.History.Lines.{Line, patch, Codec, load_lines, entry_line, entry_lines, parts_line}

pub data Target : Type 0 where
  main archived : Target

-- `lines` is what stands in the main file; `read` answers no lines where there is no file.
pub record Files (F : Type 0) : Type 0 where
  pub lines : F → List Line
  pub read : F → Result (Option (List Line))
  pub open_file : Target → F → Option Error
  pub write : Target → Line → F → F × Option Error
  pub sync : Target → F → Option Error
  pub replace : List Line → F → F × Option Error

module _ {F : Type 0} (codec : Codec) (files : Files F) where
  abbrev pub synced : Target → F × Option Error → F × Option Error
  synced path (f, some e) = (f, some e)
  synced path (f, none) = (f, files.sync path f)

  -- `withAppendFile`: an error of the writer comes before one of the sync.
  abbrev pub with_append_file : Target → (F → F × Option Error) → F → F × Option Error
  with_append_file path fn f = elim (files.open_file path f) [
    | some e ↦ (f, some e)
    | none ↦ synced path (fn f)
  ]

  -- Writing a line that may fail to be made, with a live context.
  abbrev pub write_line : Ctx → Target → Result Line → F → F × Option Error
  write_line ctx path (err e) f = (f, some e)
  write_line (some e) path (ok line) f = (f, some e)
  write_line none path (ok line) f = files.write path line f

  -- The rest of a loop, where the write answers no error.
  unfoldable pub and_then : (F → F × Option Error) → F × Option Error → F × Option Error
  and_then next (f, some e) = (f, some e)
  and_then next (f, none) = next f

  -- The loop of `Append` and `Archive`.
  unfoldable pub append_all : Ctx → Target → List Message → F → F × Option Error
  append_all ctx path [] f = (f, none)
  append_all ctx path (m ∷ ms) f =
      and_then (λ g. append_all ctx path ms g) (write_line ctx path (entry_line codec m) f)

  -- `Append` on the main file, `Archive` on the archive.
  unfoldable pub append : Ctx → Target → List Message → F → F × Option Error
  append ctx path ms f =
      if is_nil ms then (f, none) else with_append_file path (λ g. append_all ctx path ms g) f

  -- `AppendParts`.
  unfoldable pub append_parts : Ctx → ℕ → List (Option Part) → F → F × Option Error
  append_parts ctx i parts f =
      with_append_file main (λ g. write_line ctx main (parts_line codec i parts) g) f

  -- `UpdateMetadata`, with a pin.
  unfoldable pub update_metadata : Ctx → ℕ → Bool → F → F × Option Error
  update_metadata ctx i pinned f =
      with_append_file main (λ g. write_line ctx main (ok (patch i (some pinned) [])) g) f

  -- `Save`.
  unfoldable pub save : Ctx → List Message → F → F × Option Error
  save ctx ms f = elim (entry_lines codec ms) [
    | err e ↦ (f, some e)
    | ok lines ↦ files.replace lines f
  ]

  abbrev pub load_read : Ctx → Option (List Line) → Result (List Content)
  load_read ctx none = fails history_not_found
  load_read ctx (some lines) = load_lines ctx lines []

  -- `Load`.
  unfoldable pub load : Ctx → F → Result (List Content)
  load ctx f = do found ← files.read f; load_read ctx found
