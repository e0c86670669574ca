-- ===== src/Context/Clean/Stage.antt =====
-- The cleaners one behind the other.
use tell_me_go.Base.{Bool, true, false, ◌≡◌, refl, sym, ap, ◌∙◌, subst, List, map, items, All}
use tell_me_go.Errors.{ok, >>=-eq-ok, ok-injective}
use tell_me_go.Context.{Message, Request}
use tell_me_go.Context.Clean.{
  replaced, clean_tool_history, clean_tools, drop_empty_messages, prune_empty_messages,
  clean_contents, clean_parts,
}
use tell_me_go.Context.Clean.Cleaned.{
  parts_of, keep_valid, IsValid, HasContent, HasParts, keep_valid-IsValid, clean_tool_history-Kept,
  drop_empty_messages-Kept,
}
use tell_me_go.Context.Clean.Tidied.{tidied, clean_contents-TidyHistory, clean_contents-tidied}

replaced-items :
    (req : Request) (out : List Message × Bool)
    → (out.1 ≡ false → out.0 ≡ items req.history)
    → items (replaced req out).history ≡ out.0
replaced-items req (ms, true) h = refl
replaced-items req (ms, false) h = sym (h refl)

pub replaced_eq :
    (req : Request) (out : List Message × Bool) {after : Request}
    → (out.1 ≡ false → out.0 ≡ items req.history)
    → replaced req out ≡ after
    → items after.history ≡ out.0
replaced_eq req out h e = ap (λ r. items r.history) (sym e) ∙ replaced-items req out h

-- A history that can be sent: every message is there and has parts, and no part is empty or a tool
-- call or response without an ID.
pub record IsClean (ms : List Message) : Type 0 where
  pub present : All HasParts ms
  pub content : All HasContent (parts_of ms)
  pub valid : All IsValid (parts_of ms)

clean_tools-parts :
    (req : Request) {out : Request}
    → clean_tools req ≡ ok out
    → parts_of (items out.history) ≡ keep_valid (parts_of (items req.history))
unfolding clean_tools
clean_tools-parts req {out} h =
    let (r, e, f) = >>=-eq-ok (clean_tool_history (items req.history)) _ h in
    let k = clean_tool_history-Kept (items req.history) e in
    ap parts_of (replaced_eq req r k.1 (ok-injective f)) ∙ k.0

prune_empty_messages-parts :
    (req : Request) {out : Request}
    → prune_empty_messages req ≡ ok out
    → (parts_of (items out.history) ≡ parts_of (items req.history))
      × All HasParts (items out.history)
unfolding prune_empty_messages
prune_empty_messages-parts req {out} h =
    let (r, e, f) = >>=-eq-ok (drop_empty_messages (items req.history)) _ h in
    let k = drop_empty_messages-Kept (items req.history) e in
    let same = replaced_eq req r k.0.1 (ok-injective f) in
    (ap parts_of same ∙ k.0.0, subst (All HasParts) (sym same) k.1)

clean_parts-TidyHistory :
    (req : Request) {out : Request}
    → clean_parts req ≡ ok out
    → All HasParts (items out.history)
      × All HasContent (parts_of (items out.history))
      × (All IsValid (parts_of (items req.history)) → All IsValid (parts_of (items out.history)))
      × (items out.history ≡ map tidied (items req.history))
unfolding clean_parts
clean_parts-TidyHistory req {out} h =
    let (r, e, f) = >>=-eq-ok (clean_contents (items req.history)) _ h in
    let t = clean_contents-TidyHistory (items req.history) e in
    let same = sym (replaced_eq req r t.unchanged (ok-injective f)) in
    (
      subst (All HasParts) same t.present,
      subst (λ ms. All HasContent (parts_of ms)) same t.content,
      λ v. subst (λ ms. All IsValid (parts_of ms)) same (t.valid v),
      sym same ∙ clean_contents-tidied (items req.history) e,
    )

-- The three cleaners in the pipeline's order leave a history that can be sent: every message is there
-- and has parts, and no part is empty or a tool call or response without an ID. The first two drop from the
-- parts of the history just the tool parts without an ID (`b` is the history that they leave); the third
-- drops the empty parts of each message, gives a message without any other the placeholder, and changes
-- nothing else.
pub clean_parts-IsClean :
    (req : Request) {a b c : Request}
    → clean_tools req ≡ ok a
    → prune_empty_messages a ≡ ok b
    → clean_parts b ≡ ok c
    → IsClean (items c.history)
      × (parts_of (items b.history) ≡ keep_valid (parts_of (items req.history)))
      × (items c.history ≡ map tidied (items b.history))
clean_parts-IsClean req {a} {b} {c} p q r =
    let (kept, present) = prune_empty_messages-parts a q in
    let (filled, content, valid, tidy) = clean_parts-TidyHistory b r in
    let same = kept ∙ clean_tools-parts req p in
    (
      record {
        present = filled;
        content = content;
        valid =
            valid
              (subst (All IsValid) (sym same) (keep_valid-IsValid (parts_of (items req.history))));
      },
      same,
      tidy,
    )
