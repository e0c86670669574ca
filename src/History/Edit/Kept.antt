-- ===== src/History/Edit/Kept.antt =====
-- What an edit keeps and what it replaces.
use tell_me_go.Base.{
  ℕ, zero, suc, Bool, true, false, ◌≡◌, refl, sym, ap, ◌∙◌, List, [], ◌∷◌, ◌++◌, append-nil,
  append_assoc, Option, none, some, Bytes, is_nil, is_nil-eq, length, leb, arith, Bool-cases, inl,
  inr, if◌then◌else◌,
}
use tell_me_go.Llm.{Part, text_part}
use tell_me_go.History.Edit.{
  text_index, others, insert_at, insert_or_append, rebuild_text_parts, thought_index, thought_part,
  insert_thought, collect_updated_parts,
}

nil_of_append : {A : Type 0} (xs ys : List A) → xs ++ ys ≡ [] → (xs ≡ []) × (ys ≡ [])
nil_of_append [] ys h = (refl, h)
nil_of_append (x ∷ xs) ys h = cc

-- The texts of the parts that are no thoughts, and those of the thoughts.
abbrev pub shown : List Part → Bytes
shown [] = []
shown (p ∷ ps) = if p.is_thought then shown ps else p.text ++ shown ps

abbrev pub thoughts : List Part → Bytes
thoughts [] = []
thoughts (p ∷ ps) = if p.is_thought then p.text ++ thoughts ps else thoughts ps

others-shown : (ps : List Part) → shown (others ps) ≡ []
unfolding others
others-shown [] = refl
others-shown (p ∷ ps) = ground (arith, others-shown ps, is_nil-eq p.text)

others-thoughts : (ps : List Part) → thoughts (others ps) ≡ []
unfolding others
others-thoughts [] = refl
others-thoughts (p ∷ ps) = ground (arith, others-thoughts ps)

others_idem : (ps : List Part) → others (others ps) ≡ others ps
unfolding others
others_idem [] = refl
others_idem (p ∷ ps) = ground (arith, others_idem ps)

shown-append : (ps qs : List Part) → shown (ps ++ qs) ≡ shown ps ++ shown qs
shown-append [] qs = refl
shown-append (p ∷ ps) qs =
    ground (arith, shown-append ps qs, append_assoc p.text (shown ps) (shown qs))

thoughts-append : (ps qs : List Part) → thoughts (ps ++ qs) ≡ thoughts ps ++ thoughts qs
thoughts-append [] qs = refl
thoughts-append (p ∷ ps) qs =
    ground (arith, thoughts-append ps qs, append_assoc p.text (thoughts ps) (thoughts qs))

others-append : (ps qs : List Part) → others (ps ++ qs) ≡ others ps ++ others qs
unfolding others
others-append [] qs = refl
others-append (p ∷ ps) qs = ground (arith, others-append ps qs)

-- An insertion splits the parts.
record Inserted (x : Part) (ps out : List Part) : Type 0 where
  before : List Part
  after : List Part
  splits : ps ≡ before ++ after
  joins : out ≡ before ++ x ∷ after

insert_at-Inserted : (i : ℕ) (x : Part) (ps : List Part) → Inserted x ps (insert_at i x ps)
unfolding insert_at
insert_at-Inserted zero x ps = record { before = []; after = ps; splits = refl; joins = refl }
insert_at-Inserted (suc i) x [] = record { before = []; after = []; splits = refl; joins = refl }
insert_at-Inserted (suc i) x (p ∷ ps) =
    let r = insert_at-Inserted i x ps in
    record {
      before = p ∷ r.before;
      after = r.after;
      splits = ap (◌∷◌ p) r.splits;
      joins = ap (◌∷◌ p) r.joins;
    }

appended-Inserted : (x : Part) (ps : List Part) → Inserted x ps (ps ++ x ∷ [])
appended-Inserted x ps = record {
  before = ps;
  after = [];
  splits = sym (append-nil ps);
  joins = refl;
}

insert_or_append-Inserted :
    (i : Option ℕ) (x : Part) (ps : List Part) → Inserted x ps (insert_or_append i x ps)
unfolding insert_or_append
insert_or_append-Inserted none x ps = appended-Inserted x ps
insert_or_append-Inserted (some i) x ps = elim (Bool-cases (leb i (length ps))) [
  | inl e ↦ rw e (insert_at-Inserted i x ps)
  | inr e ↦ rw e (appended-Inserted x ps)
]

module _ {A : Type 0} (view : List Part → List A)
    (view-append : (ps qs : List Part) → view (ps ++ qs) ≡ view ps ++ view qs) where
  -- What a view shows nothing of can be inserted anywhere.
  view-unseen :
      {x : Part} {ps out : List Part} → Inserted x ps out → view (x ∷ []) ≡ [] → view out ≡ view ps
  view-unseen {x} r e =
      rw
        (
          r.joins,
          r.splits,
          view-append r.before (x ∷ r.after),
          view-append (x ∷ []) r.after,
          e,
          view-append r.before r.after,
        )
        refl

  -- Into parts that a view shows nothing of, it is all that the view shows.
  view-only :
      {x : Part} {ps out : List Part} → Inserted x ps out → view ps ≡ [] → view out ≡ view (x ∷ [])
  view-only {x} r e =
      let (front, back) =
        nil_of_append (view r.before) (view r.after)
          (sym (view-append r.before r.after) ∙ ap view (sym r.splits) ∙ e) in
      rw (r.joins, view-append r.before (x ∷ r.after), view-append (x ∷ []) r.after, front, back)
        (append-nil (view (x ∷ [])))

rebuilt-text :
    (original : List Part) (text : Bytes) (b : Bool)
    → is_nil text ≡ b
    → (shown (rebuild_text_parts original text) ≡ text)
      × (thoughts (rebuild_text_parts original text) ≡ [])
      × (others (rebuild_text_parts original text) ≡ others original)
unfolding rebuild_text_parts others
rebuilt-text original text true e =
    rw (e, is_nil-eq text e) (others-shown original, others-thoughts original, others_idem original)
rebuilt-text original text false e =
    let r = insert_or_append-Inserted (text_index original 0) (text_part text) (others original) in
    rw e (
      view-only shown shown-append r (others-shown original) ∙ append-nil text,
      view-unseen thoughts thoughts-append r refl ∙ others-thoughts original,
      view-unseen others others-append r (rw e refl) ∙ others_idem original,
    )

-- An edit replaces the text and the thought of a turn by the new ones, which are all of each that is
-- left, and keeps every part without a text that is no thought, in order.
pub collect_updated_parts_lem :
    (original : List Part) (text thought : Bytes)
    → (shown (collect_updated_parts original text thought) ≡ text)
      × (thoughts (collect_updated_parts original text thought) ≡ thought)
      × (others (collect_updated_parts original text thought) ≡ others original)
unfolding collect_updated_parts insert_thought others
collect_updated_parts_lem original text thought =
    let (text_shown, text_thoughts, text_others) = rebuilt-text original text (is_nil text) refl in
    elim (Bool-cases (is_nil thought)) [
      | inl e ↦ rw (e, is_nil-eq thought e) (text_shown, text_thoughts, text_others)
      | inr e ↦
          let parts = rebuild_text_parts original text in
          let r =
            insert_or_append-Inserted (thought_index original 0) (thought_part thought) parts in
          rw e (
            view-unseen shown shown-append r refl ∙ text_shown,
            view-only thoughts thoughts-append r text_thoughts ∙ append-nil thought,
            view-unseen others others-append r refl ∙ text_others,
          )
    ]
