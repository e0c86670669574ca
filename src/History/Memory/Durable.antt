-- ===== src/History/Memory/Durable.antt =====
-- The file holds what the memory does.
use tell_me_go.Base.{ℕ, Bool, ◌≡◌, refl, sym, ap, ◌∙◌, List, [], ◌∷◌, ◌++◌, Option, none, some}
use tell_me_go.Errors.{Error, Result, ok, err, Ctx, >>=-eq-ok, ok-injective}
use tell_me_go.Llm.{Part, Content}
use tell_me_go.Llm.Clone.{clone_parts}
use tell_me_go.Llm.Clone.Copies.{clone_parts_lem}
use tell_me_go.Context.{Message}
use tell_me_go.Context.Manager.Versions.{no_error}
use tell_me_go.History.Lines.{
  Line, patch, Codec, json_parts, prepare_parts, entry_line, entry_lines, parts_line,
}
use tell_me_go.History.Lines.Replay.{
  replay, apply_line, replay-append, stored_all, entry_line-stored, entry_lines-stored,
}
use tell_me_go.History.Backend
use tell_me_go.History.Backend.{
  Files, Target, main, archived, synced, with_append_file, write_line, append_all, and_then,
}
use tell_me_go.History.Turns.{message_at}
use tell_me_go.History.Memory.{History, update_at}
use tell_me_go.History.Memory.Patched.{
  update_at-apply_patch, with_parts-patched, pinned_as-patched, stored_all-concat,
}

-- What the file system is relied on for: a line that is written stands at the end of its file, writing
-- one file leaves the other, replacing the main file leaves the given lines, and reading answers them.
pub record IsLawful {F : Type 0} (files : Files F) : Type 0 where
  pub written :
      (l : Line) (f : F) {f' : F}
      → files.write main l f ≡ (f', none)
      → files.lines f' ≡ files.lines f ++ l ∷ []
  pub apart :
      (l : Line) (f : F) {f' : F}
      → files.write archived l f ≡ (f', none)
      → files.lines f' ≡ files.lines f
  pub replaced :
      (ls : List Line) (f : F) {f' : F} → files.replace ls f ≡ (f', none) → files.lines f' ≡ ls
  pub reads : (f : F) {ls : List Line} → files.read f ≡ ok (some ls) → ls ≡ files.lines f

module _ {F : Type 0} (codec : Codec) (files : Files F) (lawful : IsLawful files) where
  -- The messages of the file.
  abbrev pub on_file : F → List Content
  on_file f = replay (files.lines f) []

  -- The file holds what is stored of the memory.
  abbrev pub Agrees : History F → Type 0
  Agrees h = stored_all codec h.contents ≡ ok (on_file h.file)

  synced-none :
      (path : Target) (r : F × Option Error) {f' : F}
      → synced codec files path r ≡ (f', none)
      → r ≡ (f', none)
  synced-none path (f, some e) k = absurd (no_error (ap (λ p. p.1) k))
  synced-none path (f, none) k = ap {A = F × Option Error} (λ p. (p.0, none)) k

  pub opened-none :
      (path : Target) (fn : F → F × Option Error) (f : F) (o : Option Error) {f' : F}
      → (elim o [ some e ↦ (f, some e) | none ↦ synced codec files path (fn f) ]) ≡ (f', none)
      → fn f ≡ (f', none)
  opened-none path fn f (some e) k = absurd (no_error (ap (λ p. p.1) k))
  opened-none path fn f none k = synced-none path (fn f) k

  write_line-main :
      (ctx : Ctx) (r : Result Line) (f : F) {f' : F}
      → write_line codec files ctx main r f ≡ (f', none)
      → (l : Line) × (r ≡ ok l) × (files.lines f' ≡ files.lines f ++ l ∷ [])
  write_line-main ctx (err e) f k = absurd (no_error (ap (λ p. p.1) k))
  write_line-main (some e) (ok l) f k = absurd (no_error (ap (λ p. p.1) k))
  write_line-main none (ok l) f k = (l, refl, lawful.written l f k)

  write_line-archived :
      (ctx : Ctx) (r : Result Line) (f : F) {f' : F}
      → write_line codec files ctx archived r f ≡ (f', none)
      → files.lines f' ≡ files.lines f
  write_line-archived ctx (err e) f k = absurd (no_error (ap (λ p. p.1) k))
  write_line-archived (some e) (ok l) f k = absurd (no_error (ap (λ p. p.1) k))
  write_line-archived none (ok l) f k = lawful.apart l f k

  -- A line that is written is applied to the messages of the file.
  appended_line :
      (ctx : Ctx) (r : Result Line) (f : F) {f' : F}
      → with_append_file codec files main (λ g. write_line codec files ctx main r g) f ≡ (f', none)
      → (l : Line) × (r ≡ ok l) × (on_file f' ≡ apply_line l (on_file f))
  appended_line ctx r f k =
      let (l, e, g) = write_line-main ctx r f (
        opened-none main (λ g. write_line codec files ctx main r g) f (files.open_file main f) k) in
      (l, e, ap (λ ls. replay ls []) g ∙ replay-append (files.lines f) (l ∷ []) [])

  and_then-none :
      (next : F → F × Option Error) (r : F × Option Error) {f' : F}
      → and_then codec files next r ≡ (f', none)
      → (g : F) × (r ≡ (g, none)) × (next g ≡ (f', none))
  unfolding and_then
  and_then-none next (g, some e) k = absurd (no_error (ap (λ p. p.1) k))
  and_then-none next (g, none) k = (g, refl, k)

  pub append-Agrees :
      (ctx : Ctx) (m : Message) (f : F) (ms : List Message) {f' : F}
      → stored_all codec ms ≡ ok (on_file f)
      → Backend.append codec files ctx main (m ∷ []) f ≡ (f', none)
      → stored_all codec (ms ++ m ∷ []) ≡ ok (on_file f')
  unfolding Backend.append append_all
  append-Agrees ctx m f ms h k =
      let (f1, w, last) =
        and_then-none (λ g. (g, none)) (write_line codec files ctx main (entry_line codec m) f)
          (opened-none main (λ g. append_all codec files ctx main (m ∷ []) g) f
            (files.open_file main f) k) in
      let (l, e, g) = write_line-main ctx (entry_line codec m) f (w ∙ last) in
      let (c, is_entry, is_stored) = entry_line-stored codec m e in
      let reads = ap (λ ls. replay ls []) g ∙ replay-append (files.lines f) (l ∷ []) [] in
      stored_all-concat codec ms m h is_stored
      ∙ ap ok (sym (reads ∙ ap (λ x. apply_line x (on_file f)) is_entry))

  saved :
      (f : F) (r : Result (List Line)) {f' : F}
      → (elim r as (λ x. F × Option Error) [
        | err e ↦ (f, some e)
        | ok lines ↦ files.replace lines f
      ])
        ≡ (f', none)
      → (ls : List Line) × (r ≡ ok ls) × (files.lines f' ≡ ls)
  saved f (err e) k = absurd (no_error (ap (λ p. p.1) k))
  saved f (ok ls) k = (ls, refl, lawful.replaced ls f k)

  pub save-Agrees :
      (ctx : Ctx) (ms : List Message) (f : F) {f' : F}
      → Backend.save codec files ctx ms f ≡ (f', none)
      → stored_all codec ms ≡ ok (on_file f')
  unfolding Backend.save
  save-Agrees ctx ms f k =
      let (ls, e, g) = saved f (entry_lines codec ms) k in
      let (vs, all, reads) = entry_lines-stored codec ms [] e in
      all ∙ ap ok (sym (ap (λ x. replay x []) g ∙ reads))

  pub archive_all-lines :
      (ctx : Ctx) (ms : List Message) (f : F) {f' : F}
      → append_all codec files ctx archived ms f ≡ (f', none)
      → files.lines f' ≡ files.lines f
  unfolding append_all
  archive_all-lines ctx [] f k = ap (λ p. files.lines p.0) (sym k)
  archive_all-lines ctx (m ∷ ms) f k =
      let (g, w, rest) =
        and_then-none (λ g. append_all codec files ctx archived ms g)
          (write_line codec files ctx archived (entry_line codec m) f) k in
      archive_all-lines ctx ms g rest ∙ write_line-archived ctx (entry_line codec m) f w

  pub parts-Agrees :
      (ctx : Ctx) (i : ℕ) (parts : List (Option Part)) (f : F) (ms : List Message) {c : Content}
      {f' : F}
      → stored_all codec ms ≡ ok (on_file f)
      → message_at ms i ≡ ok c
      → Backend.append_parts codec files ctx i (clone_parts parts) f ≡ (f', none)
      → stored_all codec (update_at i (λ c. record c { parts = c.parts ++ clone_parts parts }) ms)
        ≡ ok (on_file f')
  unfolding Backend.append_parts parts_line
  parts-Agrees ctx i parts f ms h found k =
      let (l, e, g) = appended_line ctx (parts_line codec i (clone_parts parts)) f k in
      let (qs, p, q) = >>=-eq-ok (prepare_parts codec (clone_parts (clone_parts parts))) _ e in
      let p' : prepare_parts codec parts ≡ ok qs =
        ap (prepare_parts codec)
          (sym (ap clone_parts (clone_parts_lem parts) ∙ clone_parts_lem parts))
        ∙ p in
      update_at-apply_patch codec _ none (json_parts codec qs)
        (with_parts-patched codec parts qs p') ms i found h
      ∙ ap ok (sym (g ∙ ap (λ x. apply_line x (on_file f)) (sym (ok-injective q))))

  pub pin-Agrees :
      (ctx : Ctx) (i : ℕ) (b : Bool) (f : F) (ms : List Message) {c : Content} {f' : F}
      → stored_all codec ms ≡ ok (on_file f)
      → message_at ms i ≡ ok c
      → Backend.update_metadata codec files ctx i b f ≡ (f', none)
      → stored_all codec (update_at i (λ c. record c { pinned = b }) ms) ≡ ok (on_file f')
  unfolding Backend.update_metadata
  pin-Agrees ctx i b f ms h found k =
      let (l, e, g) = appended_line ctx (ok (patch i (some b) [])) f k in
      update_at-apply_patch codec _ (some b) [] (pinned_as-patched codec b) ms i found h
      ∙ ap ok (sym (g ∙ ap (λ x. apply_line x (on_file f)) (sym (ok-injective e))))
