-- ===== src/Context/Summary/Roles.antt =====
-- Roles alternate across a summary.
use tell_me_go.Base.{
  ℕ, Bool, true, false, not, ◌≡◌, refl, sym, ap, ◌∙◌, subst, Bytes, bytes_eq, bytes_eq_iff, List,
  [], ◌∷◌, ◌++◌, Option, none, some, append_assoc, take, drop, last?, last?-none, append-nil, arith,
  Bool-cases, inl, inr, if◌then◌else◌,
}
use tell_me_go.Errors.{ok, >>=-eq-ok, ok-injective}
use tell_me_go.Llm.{Content, user, model, has_role}
use tell_me_go.Llm.Clone.{clone_content}
use tell_me_go.Context.{Message}
use tell_me_go.Context.Summary.{
  summary_head, new_message, drop_last, summary_joined, acknowledged, sum_model, open_summary,
  close_summary, apply_summary,
}

-- User and model messages in turn; the flag says that the next one is the user's.
abbrev pub InTurn : Bool → List Message → Type 0
InTurn b [] = Unit
InTurn b (none ∷ ms) = ⊥
InTurn b (some m ∷ ms) = (has_role m (if b then user else model) ≡ true) × InTurn (not b) ms

abbrev pub Alternates : List Message → Type 0
Alternates ms = (b : Bool) × InTurn b ms

-- Whose turn it is behind the messages.
abbrev next : Bool → List Message → Bool
next b [] = b
next b (m ∷ ms) = next (not b) ms

InTurn-append :
    (b : Bool) (xs ys : List Message) → InTurn b xs → InTurn (next b xs) ys → InTurn b (xs ++ ys)
InTurn-append b [] ys h k = k
InTurn-append b (none ∷ xs) ys h k = absurd h
InTurn-append b (some m ∷ xs) ys h k = (h.0, InTurn-append (not b) xs ys h.1 k)

next-append : (b : Bool) (xs ys : List Message) → next b (xs ++ ys) ≡ next (next b xs) ys
next-append b [] ys = refl
next-append b (m ∷ xs) ys = next-append (not b) xs ys

-- The front of a list that ends in `last`.
InTurn-drop_last :
    (b : Bool) (xs : List Message) (last : Content)
    → InTurn b xs
    → last? xs ≡ some (some last)
    → InTurn b (drop_last xs)
      × (has_role last (if next b (drop_last xs) then user else model) ≡ true)
      × (next b xs ≡ not (next b (drop_last xs)))
InTurn-drop_last b [] last h e = cc
InTurn-drop_last b (none ∷ xs) last h e = absurd h
InTurn-drop_last b (some m ∷ []) last h e =
    let same : m ≡ last = ground (arith, e) in
    (tt, subst (λ x. has_role x (if b then user else model) ≡ true) same h.0, refl)
InTurn-drop_last b (some m ∷ (x ∷ xs)) last h e =
    let ih = InTurn-drop_last (not b) (x ∷ xs) last h.1 e in ((h.0, ih.0), ih.1, ih.2)

roles_differ : (m : Content) → has_role m user ≡ true → has_role m model ≡ true → ⊥
unfolding bytes_eq
roles_differ m u v =
    let e : bytes_eq user model ≡ true =
      subst (λ r. bytes_eq r model ≡ true) ((bytes_eq_iff m.role user).0 u) v in
    cc e

pub drop_last-concat {ℓ} : {A : Type ℓ} (xs : List A) (x : A) → drop_last (xs ++ (x ∷ [])) ≡ xs
drop_last-concat [] x = refl
drop_last-concat (y ∷ []) x = refl
drop_last-concat (y ∷ (z ∷ zs)) x = ap (◌∷◌ y) (drop_last-concat (z ∷ zs) x)

-- A history that ends in the acknowledgement, whose roles alternate.
record Opened (id : Bytes) (ms : List Message) : Type 0 where
  front : List Message
  start : Bool
  ends : ms ≡ front ++ (some (sum_model id) ∷ [])
  in_turn : InTurn start front
  then_model : next start front ≡ false

role-joined : (m : Content) (text : Bytes) → has_role (summary_joined m text) user ≡ has_role m user
unfolding clone_content
role-joined m text = refl

role-acknowledged : (m : Content) → has_role (acknowledged m) model ≡ has_role m model
unfolding clone_content
role-acknowledged m = refl

new_user : (id t : Bytes) → has_role (new_message user id t) user ≡ true
unfolding bytes_eq
new_user id t = refl

model_last : (id : Bytes) → has_role (sum_model id) model ≡ true
unfolding bytes_eq
model_last id = refl

-- A user message behind `xs`, where it is the user's turn, and the acknowledgement behind that.
user-Opened :
    (id2 : Bytes) (b : Bool) (xs : List Message) (u : Content)
    → InTurn b xs
    → next b xs ≡ true
    → has_role u user ≡ true
    → Opened id2 (xs ++ (some u ∷ some (sum_model id2) ∷ []))
user-Opened id2 b xs u h n r = record {
  front = xs ++ (some u ∷ []);
  start = b;
  ends = sym (append_assoc xs (some u ∷ []) (some (sum_model id2) ∷ []));
  in_turn =
      InTurn-append b xs (some u ∷ []) h (subst (λ c. InTurn c (some u ∷ [])) (sym n) (r, tt));
  then_model = next-append b xs (some u ∷ []) ∙ ap not n;
}

open_summary-Opened :
    (xs : List Message) (id1 id2 text : Bytes) (last : Option Message) {out : List Message}
    → last? xs ≡ last
    → Alternates xs
    → open_summary xs last id1 id2 text ≡ ok out
    → Opened id2 out
unfolding open_summary
open_summary-Opened xs id1 id2 text none e (b, h) o =
    let empty : [] ≡ xs = sym (last?-none xs e) in
    subst (Opened id2) (ok-injective o) (
      subst (λ x. Opened id2 (x ++ (some (new_message user id1 text) ∷ some (sum_model id2) ∷ [])))
        empty (user-Opened id2 true [] (new_message user id1 text) tt refl (new_user id1 text)))
open_summary-Opened xs id1 id2 text (some none) e (b, h) o = cc
open_summary-Opened xs id1 id2 text (some (some last)) e (b, h) o =
    let (front, role, n) = InTurn-drop_last b xs last h e in
    elim (Bool-cases (next b (drop_last xs))) [
      | inl u ↦
          let is_user : has_role last user ≡ true =
            subst (λ c. has_role last (if c then user else model) ≡ true) u role in
          subst (Opened id2) (ok-injective (rw is_user at o)) (
            user-Opened id2 b (drop_last xs) (summary_joined last text) front u
              (role-joined last text ∙ is_user))
      | inr v ↦
          let is_model : has_role last model ≡ true =
            subst (λ c. has_role last (if c then user else model) ≡ true) v role in
          elim (Bool-cases (has_role last user)) [
            | inl both ↦ absurd (roles_differ last both is_model)
            | inr other ↦ subst (Opened id2) (ok-injective (rw other at o)) (
                user-Opened id2 b xs (new_message user id1 text) h (n ∙ ap not v)
                  (new_user id1 text))
          ]
    ]

Opened-Alternates :
    (id2 : Bytes) (opened rest : List Message) (b : Bool)
    → Opened id2 opened
    → b ≡ true
    → InTurn b rest
    → Alternates (opened ++ rest)
Opened-Alternates id2 opened rest b o e h =
    let shut =
      InTurn-append o.start o.front (some (sum_model id2) ∷ []) o.in_turn (
        subst (λ c. InTurn c (some (sum_model id2) ∷ [])) (sym o.then_model)
          (model_last id2, tt)) in
    let after : next o.start (o.front ++ (some (sum_model id2) ∷ [])) ≡ true =
      next-append o.start o.front (some (sum_model id2) ∷ []) ∙ ap not o.then_model in
    subst (λ x. Alternates (x ++ rest)) (sym o.ends)
      (o.start, InTurn-append o.start _ rest shut (subst (λ c. InTurn c rest) (e ∙ sym after) h))

close_summary-Alternates :
    (id2 : Bytes) (opened rest : List Message) (b : Bool) {out : List Message}
    → Opened id2 opened
    → InTurn b rest
    → close_summary opened rest ≡ ok out
    → Alternates out
unfolding close_summary
close_summary-Alternates id2 opened [] b o h c =
    subst Alternates (append-nil opened ∙ ok-injective c)
      (Opened-Alternates id2 opened [] true o refl tt)
close_summary-Alternates id2 opened (none ∷ rest) b o h c = cc
close_summary-Alternates id2 opened (some m ∷ rest) true o h c =
    elim (Bool-cases (has_role m model)) [
      | inl both ↦ absurd (roles_differ m h.0 both)
      | inr other ↦
          subst Alternates (ok-injective (rw other at c))
            (Opened-Alternates id2 opened (some m ∷ rest) true o refl h)
    ]
close_summary-Alternates id2 opened (some m ∷ rest) false o h c =
    subst Alternates (ok-injective (rw h.0 at c)) (
      subst (λ x. Alternates (drop_last x ++ (some (acknowledged m) ∷ rest))) (sym o.ends)
        (subst (λ x. Alternates (x ++ (some (acknowledged m) ∷ rest)))
          (sym (drop_last-concat o.front (some (sum_model id2))))
          (
            o.start,
            InTurn-append o.start o.front _ o.in_turn (
                subst (λ c'. InTurn c' (some (acknowledged m) ∷ rest)) (sym o.then_model)
                  (role-acknowledged m ∙ h.0, h.1)),
          )))

-- Putting a summary in the place of a range keeps user and model messages alternating: if they do
-- before the range and behind it, they do in the whole new history, whatever role stands at either
-- end of the range.
pub apply_summary-Alternates :
    (id1 id2 : Bytes) (history : List Message) (start stop : ℕ) (summary : Bytes)
    {out : List Message}
    → Alternates (take start history)
    → Alternates (drop stop history)
    → apply_summary id1 id2 history start stop summary ≡ ok out
    → Alternates out
unfolding apply_summary
apply_summary-Alternates id1 id2 history start stop summary before (b, after) h =
    let (opened, e, f) =
      >>=-eq-ok
        (open_summary (take start history) (last? (take start history)) id1 id2
          (summary_head ++ summary))
        _ h in
    close_summary-Alternates id2 opened (drop stop history) b
      (open_summary-Opened (take start history) id1 id2 _ (last? (take start history)) refl before
        e)
      after f
