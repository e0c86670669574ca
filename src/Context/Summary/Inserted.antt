-- ===== src/Context/Summary/Inserted.antt =====
-- What a summary inserts into the history, and that nothing outside of its range is lost.
use tell_me_go.Base.{
  ◌≡◌, refl, sym, ap, subst, ◌∙◌, List, [], ◌∷◌, ◌++◌, append_assoc, append-nil, Option, none, some,
  Bytes, last?, take, drop, ℕ, ◌⊎◌, inl, inr, Bool-cases, codes,
}
use tell_me_go.Errors.{ok, >>=-eq-ok, ok-injective}
use tell_me_go.Llm.{Part, Content, user, model, has_role, text_part}
use tell_me_go.Llm.Clone.Copies.{clone_content_lem}
use tell_me_go.Context.{Message}
use tell_me_go.Context.Clean.Cleaned.{parts_of}
use tell_me_go.Context.Summary.Roles.{drop_last-concat}
use tell_me_go.Context.Summary.{
  summary_head, acknowledgement, new_message, drop_last, summary_joined, acknowledged, sum_model,
  open_summary, close_summary, apply_summary,
}

drop_last-last :
    (xs : List Message) (last : Message) → last? xs ≡ some last → drop_last xs ++ last ∷ [] ≡ xs
drop_last-last [] last h = cc h
drop_last-last (x ∷ []) last h = ap (λ y. y ∷ []) (sym (the_message last h))
  where
    the_message : (last : Message) → some x ≡ some last → x ≡ last
    the_message last h = cc h
drop_last-last (x ∷ (y ∷ ys)) last h = ap (◌∷◌ x) (drop_last-last (y ∷ ys) last h)

parts_of-append : (xs ys : List Message) → parts_of (xs ++ ys) ≡ parts_of xs ++ parts_of ys
parts_of-append [] ys = refl
parts_of-append (none ∷ xs) ys = parts_of-append xs ys
parts_of-append (some m ∷ xs) ys =
    ap (◌++◌ m.parts) (parts_of-append xs ys)
    ∙ sym (append_assoc m.parts (parts_of xs) (parts_of ys))

-- The two texts that a summary puts in, with a line break where they are joined to a message.
abbrev pub IsSummaryText : Bytes → Bytes → Type 0
IsSummaryText summary s =
    (s ≡ summary_head ++ summary) ⊎ (s ≡ codes "\n\n" ++ (summary_head ++ summary))

abbrev pub IsAcknowledgement : Bytes → Type 0
IsAcknowledgement a = (a ≡ acknowledgement) ⊎ (a ≡ acknowledgement ++ codes "\n\n")

-- The parts of `before`, the summary, the acknowledgement, and the parts of `after`.
abbrev pub IsInserted : Bytes → List Message → List Message → List Message → Type 0
IsInserted summary before after out =
    (s : Bytes) × (a : Bytes) × IsSummaryText summary s
    × IsAcknowledgement a
    × (parts_of out ≡ parts_of before ++ some (text_part s) ∷ some (text_part a) ∷ parts_of after)

-- The history behind the first seam, in front of the acknowledgement.
record IsOpened (summary id2 : Bytes) (before opened : List Message) : Type 0 where
  front : List Message
  text : Bytes
  ends : opened ≡ front ++ some (sum_model id2) ∷ []
  is_summary : IsSummaryText summary text
  parts : parts_of front ≡ parts_of before ++ some (text_part text) ∷ []

new-IsOpened :
    (id1 id2 summary : Bytes) (before : List Message)
    → IsOpened summary id2 before (
        before
        ++ (some (new_message user id1 (summary_head ++ summary)) ∷ some (sum_model id2) ∷ []))
new-IsOpened id1 id2 summary before = record {
  front = before ++ some (new_message user id1 (summary_head ++ summary)) ∷ [];
  text = summary_head ++ summary;
  ends = sym (append_assoc before (some _ ∷ []) (some (sum_model id2) ∷ []));
  is_summary = inl refl;
  parts = parts_of-append before _;
}

joined-parts :
    (m : Content) (text : Bytes)
    → (summary_joined m text).parts ≡ m.parts ++ some (text_part (codes "\n\n" ++ text)) ∷ []
joined-parts m text =
    ap (λ c. c.parts ++ some (text_part (codes "\n\n" ++ text)) ∷ []) (clone_content_lem m)

acknowledged-parts :
    (m : Content)
    → (acknowledged m).parts ≡ some (text_part (acknowledgement ++ codes "\n\n")) ∷ m.parts
acknowledged-parts m =
    ap (λ c. some (text_part (acknowledgement ++ codes "\n\n")) ∷ c.parts) (clone_content_lem m)

joined-IsOpened :
    (id2 summary : Bytes) (before : List Message) (last : Content)
    → last? before ≡ some (some last)
    → IsOpened summary id2 before (
        drop_last before
        ++ (some (summary_joined last (summary_head ++ summary)) ∷ some (sum_model id2) ∷ []))
joined-IsOpened id2 summary before last h =
    let joined = summary_joined last (summary_head ++ summary) in
    let text = codes "\n\n" ++ (summary_head ++ summary) in
    record {
      front = drop_last before ++ some joined ∷ [];
      text = text;
      ends = sym (append_assoc (drop_last before) (some joined ∷ []) (some (sum_model id2) ∷ []));
      is_summary = inr refl;
      parts =
          parts_of-append (drop_last before) (some joined ∷ [])
          ∙ ap (λ ps. parts_of (drop_last before) ++ ps)
              (append-nil joined.parts ∙ joined-parts last (summary_head ++ summary))
          ∙ sym (append_assoc (parts_of (drop_last before)) last.parts _)
          ∙ ap (λ ps. ps ++ some (text_part text) ∷ [])
              (ap (λ ps. parts_of (drop_last before) ++ ps) (sym (append-nil last.parts))
                ∙ sym (parts_of-append (drop_last before) (some last ∷ []))
                ∙ ap parts_of (drop_last-last before (some last) h));
    }

open_summary-IsOpened :
    (id1 id2 summary : Bytes) (before : List Message) (o : Option Message) {opened : List Message}
    → last? before ≡ o
    → open_summary before o id1 id2 (summary_head ++ summary) ≡ ok opened
    → IsOpened summary id2 before opened
unfolding open_summary
open_summary-IsOpened id1 id2 summary before none e h =
    subst (IsOpened summary id2 before) (ok-injective h) (new-IsOpened id1 id2 summary before)
open_summary-IsOpened id1 id2 summary before (some none) e h = cc h
open_summary-IsOpened id1 id2 summary before (some (some last)) e h =
    elim (Bool-cases (has_role last user)) [
      | inl y ↦
          subst (IsOpened summary id2 before) (ok-injective (rw y at h))
            (joined-IsOpened id2 summary before last e)
      | inr n ↦
          subst (IsOpened summary id2 before) (ok-injective (rw n at h))
            (new-IsOpened id1 id2 summary before)
    ]

-- The parts behind the first seam, followed by `rest`.
opened-parts :
    (summary id2 : Bytes) (before opened rest : List Message)
    (b : IsOpened summary id2 before opened) (tail : List (Option Part))
    → parts_of b.front ++ tail ≡ parts_of before ++ some (text_part b.text) ∷ tail
opened-parts summary id2 before opened rest b tail =
    ap (λ ps. ps ++ tail) b.parts
    ∙ append_assoc (parts_of before) (some (text_part b.text) ∷ []) tail

kept-IsInserted :
    (summary id2 : Bytes) (before opened after : List Message)
    → IsOpened summary id2 before opened
    → IsInserted summary before after (opened ++ after)
kept-IsInserted summary id2 before opened after b = (
  b.text,
  acknowledgement,
  b.is_summary,
  inl refl,
  ap (λ ms. parts_of (ms ++ after)) b.ends
      ∙ ap parts_of (append_assoc b.front (some (sum_model id2) ∷ []) after)
      ∙ parts_of-append b.front _
      ∙ opened-parts summary id2 before opened after b _,
)

acknowledged-IsInserted :
    (summary id2 : Bytes) (before opened rest : List Message) (first : Content)
    → IsOpened summary id2 before opened
    → IsInserted summary before
        (some first ∷ rest)
        (drop_last opened ++ some (acknowledged first) ∷ rest)
acknowledged-IsInserted summary id2 before opened rest first b = (
  b.text,
  acknowledgement ++ codes "\n\n",
  b.is_summary,
  inr refl,
  ap (λ ms. parts_of (drop_last ms ++ some (acknowledged first) ∷ rest)) b.ends
      ∙ ap (λ ms. parts_of (ms ++ some (acknowledged first) ∷ rest))
          (drop_last-concat b.front (some (sum_model id2)))
      ∙ parts_of-append b.front _
      ∙ ap (λ ps. parts_of b.front ++ (ps ++ parts_of rest)) (acknowledged-parts first)
      ∙ opened-parts summary id2 before opened rest b _,
)

close_summary-IsInserted :
    (summary id2 : Bytes) (before opened after : List Message) {out : List Message}
    → IsOpened summary id2 before opened
    → close_summary opened after ≡ ok out
    → IsInserted summary before after out
unfolding close_summary
close_summary-IsInserted summary id2 before opened [] b h =
    subst (IsInserted summary before []) (append-nil opened ∙ ok-injective h)
      (kept-IsInserted summary id2 before opened [] b)
close_summary-IsInserted summary id2 before opened (none ∷ rest) b h = cc h
close_summary-IsInserted summary id2 before opened (some first ∷ rest) b h =
    elim (Bool-cases (has_role first model)) [
      | inl y ↦
          subst (IsInserted summary before (some first ∷ rest)) (ok-injective (rw y at h))
            (acknowledged-IsInserted summary id2 before opened rest first b)
      | inr n ↦
          subst (IsInserted summary before (some first ∷ rest)) (ok-injective (rw n at h))
            (kept-IsInserted summary id2 before opened (some first ∷ rest) b)
    ]

-- A summary takes the place of the parts of its range and of nothing else.
pub apply_summary-IsInserted :
    (id1 id2 : Bytes) (history : List Message) (start stop : ℕ) (summary : Bytes)
    {out : List Message}
    → apply_summary id1 id2 history start stop summary ≡ ok out
    → IsInserted summary (take start history) (drop stop history) out
unfolding apply_summary
apply_summary-IsInserted id1 id2 history start stop summary h =
    let (opened, e, f) =
      >>=-eq-ok
        (open_summary (take start history) (last? (take start history)) id1 id2
          (summary_head ++ summary))
        _ h in
    close_summary-IsInserted summary id2 (take start history) opened (drop stop history)
      (open_summary-IsOpened id1 id2 summary (take start history) _ refl e) f
