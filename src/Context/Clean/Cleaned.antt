-- ===== src/Context/Clean/Cleaned.antt =====
-- What the three cleaners leave.
use tell_me_go.Base.{
  Bool, true, false, not, ◌||◌, ◌≡◌, refl, subst, List, [], ◌∷◌, ◌++◌, Option, none, some, is_nil,
  All, arith, Bool-cases, inl, inr, if◌then◌else◌,
}
use tell_me_go.Errors.{ok, >>=-eq-ok, ok-injective}
use tell_me_go.Llm.{Part, Content}
use tell_me_go.Llm.Parts.{is_empty}
use tell_me_go.Context.{Message}
use tell_me_go.Context.Clean.{
  is_invalid_tool_part, filter_tool_parts, clean_tool_parts, clean_tool_history,
  drop_empty_messages,
}

-- The parts of all messages, in order.
abbrev pub parts_of : List Message → List (Option Part)
parts_of [] = []
parts_of (none ∷ ms) = parts_of ms
parts_of (some m ∷ ms) = m.parts ++ parts_of ms

-- The parts without an invalid tool call or response among them.
abbrev pub keep_valid : List (Option Part) → List (Option Part)
keep_valid [] = []
keep_valid (none ∷ ps) = keep_valid ps
keep_valid (some p ∷ ps) = if is_invalid_tool_part p then keep_valid ps else some p ∷ keep_valid ps

abbrev pub IsValid : Option Part → Type 0
IsValid none = ⊥
IsValid (some p) = is_invalid_tool_part p ≡ false

abbrev pub HasContent : Option Part → Type 0
HasContent none = ⊥
HasContent (some p) = is_empty p ≡ false

abbrev pub HasParts : Message → Type 0
HasParts none = ⊥
HasParts (some m) = is_nil m.parts ≡ false

keep_valid-append :
    (ps qs : List (Option Part)) → keep_valid (ps ++ qs) ≡ keep_valid ps ++ keep_valid qs
keep_valid-append [] qs = refl
keep_valid-append (none ∷ ps) qs = keep_valid-append ps qs
keep_valid-append (some p ∷ ps) qs = ground (arith, keep_valid-append ps qs)

pub keep_valid-IsValid : (ps : List (Option Part)) → All IsValid (keep_valid ps)
keep_valid-IsValid [] = tt
keep_valid-IsValid (none ∷ ps) = keep_valid-IsValid ps
keep_valid-IsValid (some p ∷ ps) = elim (Bool-cases (is_invalid_tool_part p)) [
  | inl e ↦ rw e (keep_valid-IsValid ps)
  | inr e ↦ rw e (e, keep_valid-IsValid ps)
]

filter_tool_parts-keep_valid :
    (ps : List (Option Part)) {kept : List (Option Part)} {changed : Bool}
    → filter_tool_parts ps ≡ ok (kept, changed)
    → (kept ≡ keep_valid ps) × (changed ≡ false → kept ≡ ps)
unfolding filter_tool_parts
filter_tool_parts-keep_valid [] h = (ground arith, λ e. ground arith)
filter_tool_parts-keep_valid (none ∷ ps) h = cc
filter_tool_parts-keep_valid (some p ∷ ps) {kept} {changed} h =
    let (r, e, f) = >>=-eq-ok (filter_tool_parts ps) _ h in
    let ih = filter_tool_parts-keep_valid ps {kept = r.0} {changed = r.1} e in ground arith

clean_tool_parts-keep_valid :
    (m : Content) {m' : Content} {changed : Bool}
    → clean_tool_parts m ≡ ok (m', changed)
    → (m'.parts ≡ keep_valid m.parts) × (changed ≡ false → m' ≡ m)
unfolding clean_tool_parts
clean_tool_parts-keep_valid m h =
    let (r, e, f) = >>=-eq-ok (filter_tool_parts m.parts) _ h in
    let k = filter_tool_parts-keep_valid m.parts {kept = r.0} {changed = r.1} e in ground arith

-- The outcome of one cleaner on a history: which parts are left, and that a cleaner that reports no
-- change made none.
abbrev pub Kept : List Message → List (Option Part) → List Message × Bool → Type 0
Kept ms parts (ms', changed) = (parts_of ms' ≡ parts) × (changed ≡ false → ms' ≡ ms)

tool_message-Kept :
    (m m' : Content) (ms rest : List Message) (changed later : Bool)
    → (m'.parts ≡ keep_valid m.parts) × (changed ≡ false → m' ≡ m)
    → Kept ms (keep_valid (parts_of ms)) (rest, later)
    → Kept
        (some m ∷ ms)
        (keep_valid (parts_of (some m ∷ ms)))
        (if not (is_nil m'.parts) || is_nil m.parts then some m' ∷ rest else rest, changed || later)
tool_message-Kept m m' ms rest changed later a b =
    (ground (arith, keep_valid-append m.parts (parts_of ms)), λ e. ground (arith, e))

pub clean_tool_history-Kept :
    (ms : List Message) {out : List Message × Bool}
    → clean_tool_history ms ≡ ok out
    → Kept ms (keep_valid (parts_of ms)) out
unfolding clean_tool_history
clean_tool_history-Kept [] h = (ground arith, λ e. ground arith)
clean_tool_history-Kept (none ∷ ms) h = cc
clean_tool_history-Kept (some m ∷ ms) {out} h =
    let (r, e, f) = >>=-eq-ok (clean_tool_parts m) _ h in
    let (s, g, k) = >>=-eq-ok (clean_tool_history ms) _ f in
    let t =
      tool_message-Kept m r.0 ms s.0 r.1 s.1
        (clean_tool_parts-keep_valid m {m' = r.0} {changed = r.1} e)
        (clean_tool_history-Kept ms g) in
    subst (Kept (some m ∷ ms) (keep_valid (parts_of (some m ∷ ms)))) (ok-injective k) t

abbrev pub Dropped : List Message → List Message × Bool → Type 0
Dropped ms out = Kept ms (parts_of ms) out × All HasParts out.0

drop_message-Dropped :
    (m : Content) (ms rest : List Message) (modified : Bool)
    → Dropped ms (rest, modified)
    → Dropped (some m ∷ ms) (if is_nil m.parts then (rest, true) else (some m ∷ rest, modified))
drop_message-Dropped m ms rest modified ((p, q), r) = elim (Bool-cases (is_nil m.parts)) [
  | inl e ↦ rw e ((ground arith, λ f. cc f), r)
  | inr e ↦ rw e ((ground arith, λ f. ground (arith, f)), (e, r))
]

pub drop_empty_messages-Kept :
    (ms : List Message) {out : List Message × Bool}
    → drop_empty_messages ms ≡ ok out
    → Dropped ms out
unfolding drop_empty_messages
drop_empty_messages-Kept [] h = ((ground arith, λ e. ground arith), ground arith)
drop_empty_messages-Kept (none ∷ ms) h = cc
drop_empty_messages-Kept (some m ∷ ms) {out} h =
    let (r, e, f) = >>=-eq-ok (drop_empty_messages ms) _ h in
    let ih = drop_empty_messages-Kept ms e in
    subst (Dropped (some m ∷ ms)) (ok-injective f) (drop_message-Dropped m ms r.0 r.1 ih)
