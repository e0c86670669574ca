-- ===== src/Llm/Parts/Merge.antt =====
-- What gathering streamed parts keeps: the text and the calls.
use tell_me_go.Base.{
  true, ◌≡◌, refl, List, [], ◌∷◌, ◌++◌, Option, none, some, append-nil, append_assoc, Bytes, arith,
  Bool-cases, inl, inr,
}
use tell_me_go.Errors.{ok, >>=-eq-ok}
use tell_me_go.Llm.{FunctionCall, Part, Content}
use tell_me_go.Llm.Clone.Copies.{clone_part_lem}
use tell_me_go.Llm.Parts.{can_merge_with, merge, add_part_to, add_part}

-- The text of all parts, in order.
abbrev pub text_of : List (Option Part) → Bytes
text_of [] = []
text_of (none ∷ ps) = text_of ps
text_of (some p ∷ ps) = p.text ++ text_of ps

abbrev pub call_of : Option FunctionCall → List FunctionCall
call_of none = []
call_of (some c) = c ∷ []

-- The tool calls of all parts, in order.
abbrev pub calls_of : List (Option Part) → List FunctionCall
calls_of [] = []
calls_of (none ∷ ps) = calls_of ps
calls_of (some p ∷ ps) = call_of p.function_call ++ calls_of ps

record Keeps (ps : List (Option Part)) (p : Part) (qs : List (Option Part)) : Type 0 where
  pub text : text_of qs ≡ text_of ps ++ p.text
  pub calls : calls_of qs ≡ calls_of ps ++ call_of p.function_call

merge-Keeps :
    (last p : Part)
    → can_merge_with last p ≡ true
    → Keeps (some last ∷ []) p (some (merge last p) ∷ [])
unfolding can_merge_with merge
merge-Keeps last p h = ground (arith, append-nil (last.text ++ p.text), append-nil last.text)

Keeps-cons :
    (q : Option Part) (p : Part) (ps rest : List (Option Part))
    → Keeps ps p rest
    → Keeps (q ∷ ps) p (q ∷ rest)
Keeps-cons none p ps rest k = record { text = k.text; calls = k.calls }
Keeps-cons (some q) p ps rest k = record {
  text = ground (arith, k.text, append_assoc q.text (text_of ps) p.text);
  calls = ground (
    arith,
    k.calls,
    append_assoc (call_of q.function_call) (calls_of ps) (call_of p.function_call),
  );
}

add_part_to-Keeps :
    (ps : List (Option Part)) (p : Part) {qs : List (Option Part)}
    → add_part_to ps p ≡ ok qs
    → Keeps ps p qs
unfolding add_part_to
add_part_to-Keeps [] p h = ground (arith, clone_part_lem p, append-nil p.text)
add_part_to-Keeps (none ∷ []) p h = cc
add_part_to-Keeps (some last ∷ []) p h = elim (Bool-cases (can_merge_with last p)) [
  | inl joined ↦ ground (arith, merge-Keeps last p joined)
  | inr apart ↦ ground (arith, clone_part_lem p, append-nil p.text, append-nil last.text)
]
add_part_to-Keeps (q ∷ (r ∷ rs)) p {qs} h =
    let (rest, e, f) = >>=-eq-ok (add_part_to (r ∷ rs) p) _ h in
    let t : ok (q ∷ rest) ≡ ok qs = f in
    let u : q ∷ rest ≡ qs = cc t in
    rw (← u) (Keeps-cons q p (r ∷ rs) rest (add_part_to-Keeps (r ∷ rs) p e))

-- A part that is added to a message keeps the text and the tool calls that the message has and puts
-- its own behind them, whether it is merged into the last part or appended; nothing else of the
-- message changes.
pub add_part-Keeps :
    (c : Content) (p : Part) {d : Content}
    → add_part c p ≡ ok d
    → (text_of d.parts ≡ text_of c.parts ++ p.text)
      × (calls_of d.parts ≡ calls_of c.parts ++ call_of p.function_call)
      × (d ≡ record c { parts = d.parts })
unfolding add_part
add_part-Keeps c p {d} h =
    let (qs, e, f) = >>=-eq-ok (add_part_to c.parts p) _ h in
    let k = add_part_to-Keeps c.parts p e in
    let g : record c { parts = qs } ≡ d = ground (arith, f) in rw (← g) (k.text, k.calls, refl)
