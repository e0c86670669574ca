-- ===== src/Context/Turns/Partition.antt =====
-- The turns are the history cut into pieces.
use tell_me_go.Base.{
  ℕ, ◌+◌, Bool, true, false, ◌≡◌, refl, sym, ap, ◌∙◌, List, [], ◌∷◌, ◌++◌, none, some, Slice, items,
  map, concat, concat-append, is_nil, All, All-append, append-nil, append_assoc, map-append, arith,
  if◌then◌else◌,
}
use tell_me_go.Errors.{ok, Ctx, >>=-eq-ok}
use tell_me_go.Llm.{Content}
use tell_me_go.Context.{Message, Turn}
use tell_me_go.Context.Turns.{is_turn_boundary, validate_turn_content, group_loop, group_turns}

pub validate-eq :
    (ctx : Ctx) (msg : Message) (i : ℕ) {m : Content}
    → validate_turn_content ctx msg i ≡ ok m
    → msg ≡ some m
unfolding validate_turn_content
validate-eq ctx none i h = cc
validate-eq ctx (some m) i h = ground arith

-- What is closed and current together; closing the current turn, or not, keeps it.
abbrev all_of : List Turn → Turn → List Message
all_of turns current = map some (concat turns ++ current)

all_of-step :
    (b : Bool) (turns : List Turn) (current : Turn) (m : Content) (rest : List Message)
    → all_of
          (if b then turns ++ (current ∷ []) else turns)
          (if b then m ∷ [] else current ++ (m ∷ []))
        ++ rest
      ≡ all_of turns current ++ (some m ∷ rest)
all_of-step true turns current m rest = simp (concat-append, map-append, append_assoc, append-nil)
all_of-step false turns current m rest = simp (map-append, append_assoc)

-- A round of the loop that goes on: the message is there, and its boundary test gave `b`.
pub record Round (ctx : Ctx) (i : ℕ) (msg : Message) (rest : List Message) (turns : List Turn)
    (current : Turn) (out : List Turn) : Type 0 where
  pub m : Content
  pub b : Bool
  pub valid : validate_turn_content ctx msg i ≡ ok m
  pub boundary : is_turn_boundary m current ≡ ok b
  pub later :
      group_loop ctx
        (i + 1)
        rest
        (if b then turns ++ (current ∷ []) else turns)
        (if b then m ∷ [] else current ++ (m ∷ []))
      ≡ ok out

pub group_loop-Round :
    (ctx : Ctx) (i : ℕ) (msg : Message) (rest : List Message) (turns : List Turn) (current : Turn)
    {out : List Turn}
    → group_loop ctx i (msg ∷ rest) turns current ≡ ok out
    → Round ctx i msg rest turns current out
unfolding group_loop
group_loop-Round ctx i msg rest turns current h =
    let (m, valid, h') = >>=-eq-ok (validate_turn_content ctx msg i) _ h in
    let (b, boundary, later) = >>=-eq-ok (is_turn_boundary m current) _ h' in
    record { m = m; b = b; valid = valid; boundary = boundary; later = later }

end-concat :
    (turns : List Turn) (current : Turn) {out : List Turn}
    → ok (if is_nil current then turns else turns ++ (current ∷ [])) ≡ ok out
    → map some (concat out) ≡ all_of turns current ++ []
end-concat turns [] {out} h = let e : turns ≡ out = cc h in rw (← e) (simp append-nil)
end-concat turns (m ∷ ms) {out} h =
    let e : turns ++ ((m ∷ ms) ∷ []) ≡ out = cc h in rw (← e) (simp (concat-append, append-nil))

group_loop-concat :
    (ctx : Ctx) (i : ℕ) (rest : List Message) (turns : List Turn) (current : Turn) {out : List Turn}
    → group_loop ctx i rest turns current ≡ ok out
    → map some (concat out) ≡ all_of turns current ++ rest
unfolding group_loop
group_loop-concat ctx i [] turns [] h = end-concat turns [] h
group_loop-concat ctx i [] turns (m ∷ ms) h = end-concat turns (m ∷ ms) h
group_loop-concat ctx i (msg ∷ rest) turns current h =
    let r = group_loop-Round ctx i msg rest turns current h in
    group_loop-concat ctx (i + 1) rest _ _ r.later
    ∙ all_of-step r.b turns current r.m rest
    ∙ ap (λ x. all_of turns current ++ (x ∷ rest)) (sym (validate-eq ctx msg i r.valid))

-- Grouping loses, invents and reorders nothing: where it succeeds, the turns one behind the other are
-- the messages of the history, none of them nil.
pub group_turns-concat :
    (ctx : Ctx) (history : Slice Message) {turns : List Turn}
    → group_turns ctx history ≡ ok turns
    → map some (concat turns) ≡ items history
unfolding group_turns
group_turns-concat ctx none h = cc
group_turns-concat ctx (some history) h = group_loop-concat ctx 0 history [] [] h

abbrev pub Filled : List Turn → Type 0
Filled = All (λ t. is_nil t ≡ false)

closed-Filled :
    (turns : List Turn) (current : Turn)
    → Filled turns
    → is_nil current ≡ false
    → Filled (turns ++ (current ∷ []))
closed-Filled turns current h e = All-append _ turns (current ∷ []) h (e, tt)

boundary-Filled :
    (m : Content) (turns : List Turn) (current : Turn) (b : Bool)
    → is_turn_boundary m current ≡ ok b
    → Filled turns
    → Filled (if b then turns ++ (current ∷ []) else turns)
unfolding is_turn_boundary
boundary-Filled m turns current false h f = f
boundary-Filled m turns [] true h f = cc
boundary-Filled m turns (c ∷ cs) true h f = closed-Filled turns (c ∷ cs) f refl

end-Filled :
    (turns : List Turn) (current : Turn)
    → Filled turns
    → Filled (if is_nil current then turns else turns ++ (current ∷ []))
end-Filled turns [] f = f
end-Filled turns (c ∷ cs) f = closed-Filled turns (c ∷ cs) f refl

group_loop-Filled :
    (ctx : Ctx) (i : ℕ) (rest : List Message) (turns : List Turn) (current : Turn) {out : List Turn}
    → Filled turns
    → group_loop ctx i rest turns current ≡ ok out
    → Filled out
unfolding group_loop
group_loop-Filled ctx i [] turns current {out} f h =
    let e : (if is_nil current then turns else turns ++ (current ∷ [])) ≡ out = cc h in
    rw (← e) (end-Filled turns current f)
group_loop-Filled ctx i (msg ∷ rest) turns current f h =
    let r = group_loop-Round ctx i msg rest turns current h in
    group_loop-Filled ctx (i + 1) rest _ _ (boundary-Filled r.m turns current r.b r.boundary f)
      r.later

pub group_turns-Filled :
    (ctx : Ctx) (history : Slice Message) {turns : List Turn}
    → group_turns ctx history ≡ ok turns
    → Filled turns
unfolding group_turns
group_turns-Filled ctx none h = cc
group_turns-Filled ctx (some history) h = group_loop-Filled ctx 0 history [] [] tt h
