-- ===== src/History/Lines/Replay.antt =====
-- What reading the lines makes of them.
use tell_me_go.Base.{
  ◌≡◌, refl, sym, ap, subst, ◌∙◌, List, [], ◌∷◌, ◌++◌, append-nil, append_assoc, none, some,
}
use tell_me_go.Errors.{Result, ok, ◌>>=◌, >>=-eq-ok, ok-injective}
use tell_me_go.Llm.{Content}
use tell_me_go.Llm.Clone.{clone_content}
use tell_me_go.Llm.Clone.Copies.{clone_content_lem}
use tell_me_go.Llm.Validate.{validate, drop_nil}
use tell_me_go.Context.{Message}
use tell_me_go.History.Lines.{
  Line, entry, patch, Codec, zero_content, apply_patch, load_lines, json_parts, json_content,
  prepare_parts, entry_line, entry_lines,
}

-- The messages that lines stand for, without the context.
abbrev pub apply_line : Line → List Content → List Content
apply_line (entry c) cs = cs ++ validate c ∷ []
apply_line (patch i pinned parts) cs = apply_patch i pinned parts cs

abbrev pub replay : List Line → List Content → List Content
replay [] cs = cs
replay (l ∷ ls) cs = replay ls (apply_line l cs)

-- A live context reads every line.
pub load_lines-replay :
    (ls : List Line) (cs : List Content) → load_lines none ls cs ≡ ok (replay ls cs)
unfolding load_lines
load_lines-replay [] cs = refl
load_lines-replay (entry c ∷ ls) cs = load_lines-replay ls _
load_lines-replay (patch i pinned parts ∷ ls) cs = load_lines-replay ls _

pub replay-append :
    (ls ms : List Line) (cs : List Content) → replay (ls ++ ms) cs ≡ replay ms (replay ls cs)
replay-append [] ms cs = refl
replay-append (l ∷ ls) ms cs = replay-append ls ms (apply_line l cs)

module _ (codec : Codec) where
  -- What a message is read back as.
  unfoldable pub stored : Message → Result Content
  stored none = ok zero_content
  stored (some c) = do
    parts ← prepare_parts codec c.parts
    ok (record c { parts = drop_nil (json_parts codec parts); transient_parts = [] })

  unfoldable pub stored_all : List Message → Result (List Content)
  stored_all [] = ok []
  stored_all (m ∷ ms) = do c ← stored m; cs ← stored_all ms; ok (c ∷ cs)

  -- The line of a message is read back as what is stored of it.
  pub entry_line-stored :
      (m : Message) {l : Line}
      → entry_line codec m ≡ ok l
      → (c : Content) × (l ≡ entry c) × (stored m ≡ ok (validate c))
  unfolding entry_line stored json_content validate drop_nil
  entry_line-stored none h = (zero_content, sym (ok-injective h), refl)
  entry_line-stored (some c) h =
      let (parts, e, f) = >>=-eq-ok (prepare_parts codec (clone_content c).parts) _ h in
      let e' : prepare_parts codec c.parts ≡ ok parts =
        ap (λ x. prepare_parts codec x.parts) (sym (clone_content_lem c)) ∙ e in
      (
        json_content codec (record (clone_content c) { parts = parts }),
        sym (ok-injective f),
        rw (e', clone_content_lem c) refl,
      )

  pub entry_lines-stored :
      (ms : List Message) (cs : List Content) {ls : List Line}
      → entry_lines codec ms ≡ ok ls
      → (vs : List Content) × (stored_all ms ≡ ok vs) × (replay ls cs ≡ cs ++ vs)
  unfolding entry_lines stored_all
  entry_lines-stored [] cs h =
      ([], refl, subst (λ x. replay x cs ≡ cs ++ []) (ok-injective h) (sym (append-nil cs)))
  entry_lines-stored (m ∷ ms) cs h =
      let (l, e, f) = >>=-eq-ok (entry_line codec m) _ h in
      let (ls, g, k) = >>=-eq-ok (entry_lines codec ms) _ f in
      let (c, is_entry, is_stored) = entry_line-stored m e in
      let (vs, all, reads) = entry_lines-stored ms (cs ++ validate c ∷ []) g in
      (
        validate c ∷ vs,
        rw (is_stored, all) refl,
        subst (λ x. replay x cs ≡ cs ++ validate c ∷ vs) (ok-injective k)
            (rw is_entry (reads ∙ append_assoc cs (validate c ∷ []) vs)),
      )
