-- ===== src/Context/Signatures/Carried.antt =====
-- What propagating the signatures changes.
use tell_me_go.Base.{
  Bool, true, false, not, ◌&&◌, ◌||◌, ◌≡◌, refl, sym, ap, subst, Bytes, List, [], ◌∷◌, Option, none,
  some, items, is_nil, All, arith, Bool-cases, inl, inr, if◌then◌else◌,
}
use tell_me_go.Errors.{ok, >>=-eq-ok, ok-injective, ◌>>=◌}
use tell_me_go.Llm.{Part, Content, model, has_role}
use tell_me_go.Context.{Message, Request}
use tell_me_go.Context.Clean.Stage.{replaced_eq}
use tell_me_go.Context.Signatures.{
  find_thought_signature, wants_signature, propagate_to_calls, propagate_to_message,
  propagate_history, propagate_signatures,
}

-- Whether some part carries a signature.
abbrev pub any_signed : List (Option Part) → Bool
any_signed [] = false
any_signed (none ∷ ps) = any_signed ps
any_signed (some p ∷ ps) = not (is_nil p.thought_signature) || any_signed ps

-- The part is no function call without a signature.
abbrev pub IsSigned : Option Part → Type 0
IsSigned none = ⊥
IsSigned (some p) = wants_signature p ≡ false

-- The same part, its signature aside.
abbrev pub SamePart : Option Part → Option Part → Type 0
SamePart none none = Unit
SamePart (some p) (some q) = q ≡ record p { thought_signature = q.thought_signature }
SamePart _ _ = ⊥

abbrev pub SameParts : List (Option Part) → List (Option Part) → Type 0
SameParts [] [] = Unit
SameParts (p ∷ ps) (q ∷ qs) = SamePart p q × SameParts ps qs
SameParts _ _ = ⊥

SameParts-refl : (ps : List (Option Part)) → SameParts ps ps
SameParts-refl [] = tt
SameParts-refl (none ∷ ps) = (tt, SameParts-refl ps)
SameParts-refl (some p ∷ ps) = (refl, SameParts-refl ps)

find_nothing : (ps : List (Option Part)) → find_thought_signature ps ≡ ok [] → any_signed ps ≡ false
unfolding find_thought_signature
find_nothing [] h = refl
find_nothing (none ∷ ps) h = cc
find_nothing (some p ∷ ps) h = ground (arith, find_nothing ps)

record Propagated (ps : List (Option Part)) (out : List (Option Part) × Bool) : Type 0 where
  signed : All IsSigned out.0
  same : SameParts ps out.0
  unchanged : out.1 ≡ false → out.0 ≡ ps

propagate-step :
    (p : Part) (ps rest : List (Option Part)) (later : Bool) (signature : Bytes)
    → is_nil signature ≡ false
    → Propagated ps (rest, later)
    → Propagated (some p ∷ ps) (
        if wants_signature p
        then (some (record p { thought_signature = signature }) ∷ rest, true)
        else (some p ∷ rest, later))
propagate-step p ps rest later signature n h = elim (Bool-cases (wants_signature p)) [
  | inl e ↦ rw e (record {
    signed = (ground (arith, n), h.signed);
    same = (refl, h.same);
    unchanged = λ f. cc f;
  })
  | inr e ↦ rw e (record {
    signed = (e, h.signed);
    same = (refl, h.same);
    unchanged = λ f. ap (◌∷◌ (some p)) (h.unchanged f);
  })
]

propagate_to_calls-Propagated :
    (signature : Bytes) (ps : List (Option Part)) {out : List (Option Part) × Bool}
    → is_nil signature ≡ false
    → propagate_to_calls signature ps ≡ ok out
    → Propagated ps out
unfolding propagate_to_calls
propagate_to_calls-Propagated signature [] n h =
    subst (Propagated []) (ok-injective h)
      (record { signed = tt; same = tt; unchanged = λ e. refl })
propagate_to_calls-Propagated signature (none ∷ ps) n h = cc
propagate_to_calls-Propagated signature (some p ∷ ps) n h =
    let (r, e, f) = >>=-eq-ok (propagate_to_calls signature ps) _ h in
    subst (Propagated (some p ∷ ps)) (ok-injective f)
      (propagate-step p ps r.0 r.1 signature n (propagate_to_calls-Propagated signature ps n e))

-- What becomes of a message: only signatures change, and in a message of the model with a signature
-- every function call has one.
abbrev pub Carried : Message → Message → Type 0
Carried (some m) (some m') =
    (m' ≡ record m { parts = m'.parts })
    × SameParts m.parts m'.parts
    × (has_role m model ≡ true → any_signed m.parts ≡ true → All IsSigned m'.parts)
Carried _ _ = ⊥

abbrev Outcome : Content → Content × Bool → Type 0
Outcome m out = Carried (some m) (some out.0) × (out.1 ≡ false → out.0 ≡ m)

unsigned-Outcome : (m : Content) → any_signed m.parts ≡ false → Outcome m (m, false)
unsigned-Outcome m n = ((refl, SameParts-refl m.parts, λ x y. cc), λ z. refl)

signed-Outcome :
    (m : Content) (r : List (Option Part) × Bool)
    → Propagated m.parts r
    → Outcome m (record m { parts = r.0 }, r.1)
signed-Outcome m r p =
    ((refl, p.same, λ x y. p.signed), λ z. ap (λ ps. record m { parts = ps }) (p.unchanged z))

found-Outcome :
    (m : Content) (s : Bytes) {out : Content × Bool}
    → find_thought_signature m.parts ≡ ok s
    → (if is_nil s
        then ok (m, false)
        else (propagate_to_calls s m.parts >>= λ r. ok (record m { parts = r.0 }, r.1)))
      ≡ ok out
    → Outcome m out
found-Outcome m [] e f =
    subst (Outcome m) (ok-injective f) (unsigned-Outcome m (find_nothing m.parts e))
found-Outcome m (b ∷ bs) e f =
    let (r, g, k) =
      >>=-eq-ok (propagate_to_calls (b ∷ bs) m.parts) (λ r. ok (record m { parts = r.0 }, r.1)) f in
    subst (Outcome m) (ok-injective k)
      (signed-Outcome m r (propagate_to_calls-Propagated (b ∷ bs) m.parts refl g))

propagate_to_message-Outcome :
    (m : Content) {out : Content × Bool} → propagate_to_message m ≡ ok out → Outcome m out
unfolding propagate_to_message
propagate_to_message-Outcome m {out} h =
    let (s, e, f) = >>=-eq-ok (find_thought_signature m.parts) _ h in found-Outcome m s e f

role-Outcome :
    (m : Content) (b : Bool) {out : Content × Bool}
    → has_role m model ≡ b
    → (if not b then ok (m, false) else propagate_to_message m) ≡ ok out
    → Outcome m out
role-Outcome m true e h = propagate_to_message-Outcome m h
role-Outcome m false e h =
    subst (Outcome m) (ok-injective h) ((refl, SameParts-refl m.parts, λ x y. cc), λ z. refl)

abbrev pub CarriedHistory : List Message → List Message → Type 0
CarriedHistory [] [] = Unit
CarriedHistory (m ∷ ms) (n ∷ ns) = Carried m n × CarriedHistory ms ns
CarriedHistory _ _ = ⊥

abbrev HistoryOutcome : List Message → List Message × Bool → Type 0
HistoryOutcome ms out = CarriedHistory ms out.0 × (out.1 ≡ false → out.0 ≡ ms)

cons-HistoryOutcome :
    (m : Content) (r : Content × Bool) (ms : List Message) (s : List Message × Bool)
    → Outcome m r
    → HistoryOutcome ms s
    → HistoryOutcome (some m ∷ ms) (some r.0 ∷ s.0, r.1 || s.1)
cons-HistoryOutcome m (m', true) ms s h k = ((h.0, k.0), λ e. cc e)
cons-HistoryOutcome m (m', false) ms s h k = ((h.0, k.0), λ e. cc (h.1 refl, k.1 e))

propagate_history-HistoryOutcome :
    (ms : List Message) {out : List Message × Bool}
    → propagate_history ms ≡ ok out
    → HistoryOutcome ms out
unfolding propagate_history
propagate_history-HistoryOutcome [] h = subst (HistoryOutcome []) (ok-injective h) (tt, λ e. refl)
propagate_history-HistoryOutcome (none ∷ ms) h = cc
propagate_history-HistoryOutcome (some m ∷ ms) h =
    let (r, e, f) =
      >>=-eq-ok (if not (has_role m model) then ok (m, false) else propagate_to_message m) _ h in
    let (s, g, k) = >>=-eq-ok (propagate_history ms) _ f in
    subst (HistoryOutcome (some m ∷ ms)) (ok-injective k) (
      cons-HistoryOutcome m r ms s (role-Outcome m (has_role m model) refl e)
        (propagate_history-HistoryOutcome ms g))

propagate_signatures-CarriedHistory :
    (req : Request) {out : Request}
    → propagate_signatures req ≡ ok out
    → CarriedHistory (items req.history) (items out.history)
unfolding propagate_signatures
propagate_signatures-CarriedHistory req {out} h =
    let (r, e, f) = >>=-eq-ok (propagate_history (items req.history)) _ h in
    let (c, u) = propagate_history-HistoryOutcome (items req.history) e in
    subst (CarriedHistory (items req.history)) (sym (replaced_eq req r u (ok-injective f))) c

-- Every call is signed, where it has to be.
abbrev pub SignedWhere : Bool → List (Option Part) → Type 0
SignedWhere true ps = All IsSigned ps
SignedWhere false ps = Unit

abbrev pub SignedMessage : Message → Message → Type 0
SignedMessage (some m) (some m') =
    (m' ≡ record m { parts = m'.parts })
    × SameParts m.parts m'.parts
    × SignedWhere (has_role m model && any_signed m.parts) m'.parts
SignedMessage _ _ = ⊥

abbrev pub SignedHistory : List Message → List Message → Type 0
SignedHistory [] [] = Unit
SignedHistory (m ∷ ms) (n ∷ ns) = SignedMessage m n × SignedHistory ms ns
SignedHistory _ _ = ⊥

where_signed :
    (a b : Bool) (ps : List (Option Part))
    → (a ≡ true → b ≡ true → All IsSigned ps)
    → SignedWhere (a && b) ps
where_signed true true ps h = h refl refl
where_signed true false ps h = tt
where_signed false b ps h = tt

SignedMessage-Carried : (m n : Message) → Carried m n → SignedMessage m n
SignedMessage-Carried (some m) (some n) (same, parts, signed) =
    (same, parts, where_signed (has_role m model) (any_signed m.parts) n.parts signed)
SignedMessage-Carried none n h = absurd h
SignedMessage-Carried (some m) none h = absurd h

SignedHistory-Carried : (ms ns : List Message) → CarriedHistory ms ns → SignedHistory ms ns
SignedHistory-Carried [] [] h = tt
SignedHistory-Carried (m ∷ ms) (n ∷ ns) h =
    (SignedMessage-Carried m n h.0, SignedHistory-Carried ms ns h.1)
SignedHistory-Carried [] (n ∷ ns) h = absurd h
SignedHistory-Carried (m ∷ ms) [] h = absurd h

-- Propagation changes nothing but signatures of parts, message by message, and afterwards every
-- function call of a model message has a signature if some part of the message carried one.
pub propagate_signatures-SignedHistory :
    (req : Request) {out : Request}
    → propagate_signatures req ≡ ok out
    → SignedHistory (items req.history) (items out.history)
propagate_signatures-SignedHistory req {out} h =
    SignedHistory-Carried (items req.history) (items out.history)
      (propagate_signatures-CarriedHistory req h)
