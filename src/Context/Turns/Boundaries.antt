-- ===== src/Context/Turns/Boundaries.antt =====
-- Where the turns are cut.
use tell_me_go.Base.{
  ℕ, ◌+◌, Bool, true, false, ◌≡◌, refl, sym, ap, ◌∙◌, subst, List, [], ◌∷◌, ◌++◌, Option, none,
  some, Slice, is_nil, last?, last?-concat, arith, if◌then◌else◌,
}
use tell_me_go.Errors.{ok, Ctx}
use tell_me_go.Llm.{Content, user, model, has_role}
use tell_me_go.Context.{Message, Turn}
use tell_me_go.Context.Turns.{
  is_tool_call, is_boundary_role, is_model_tool_call_boundary, is_user_turn_boundary,
  is_turn_boundary, group_loop, group_turns,
}
use tell_me_go.Context.Turns.Partition.{group_loop-Round}

-- `m` may start a turn behind `prev`: it comes from the user or the system, and it is not the user
-- message that answers a tool call of the model.
abbrev pub Starts : Content → Content → Type 0
Starts prev m =
    (is_boundary_role m ≡ true)
    × (has_role m user ≡ true → has_role prev model ≡ true → is_tool_call prev ≡ ok false)

abbrev pub head? : Turn → Option Content
head? [] = none
head? (m ∷ ms) = some m

-- No message inside the turn could start one.
abbrev pub Together : Turn → Type 0
Together [] = Unit
Together (x ∷ []) = Unit
Together (x ∷ (y ∷ ms)) = (¬ Starts x y) × Together (y ∷ ms)

abbrev pub Joins : Option Content → Option Content → Type 0
Joins (some x) (some y) = Starts x y
Joins (some x) none = Unit
Joins none y = Unit

-- Each turn holds together, and starts where a turn may start behind the one before it.
abbrev pub Cut : Option Content → List Turn → Type 0
Cut prev [] = Unit
Cut prev (t ∷ ts) = Joins prev (head? t) × Together t × Cut (last? t) ts

abbrev end : Option Content → List Turn → Option Content
end prev [] = prev
end prev (t ∷ ts) = end (last? t) ts

Cut-concat :
    (prev : Option Content) (ts : List Turn) (t : Turn)
    → Cut prev ts
    → Joins (end prev ts) (head? t)
    → Together t
    → Cut prev (ts ++ (t ∷ []))
Cut-concat prev [] t c j h = (j, h, tt)
Cut-concat prev (u ∷ us) t c j h = (c.0, c.1, Cut-concat (last? u) us t c.2 j h)

end-concat :
    (prev : Option Content) (ts : List Turn) (t : Turn) → end prev (ts ++ (t ∷ [])) ≡ last? t
end-concat prev [] t = refl
end-concat prev (u ∷ us) t = end-concat (last? u) us t

Together-concat :
    (t : Turn) (x m : Content)
    → Together (t ++ (x ∷ []))
    → (¬ Starts x m)
    → Together ((t ++ (x ∷ [])) ++ (m ∷ []))
Together-concat [] x m h n = (n, tt)
Together-concat (y ∷ []) x m h n = (h.0, (n, tt))
Together-concat (y ∷ (z ∷ zs)) x m h n = (h.0, Together-concat (z ∷ zs) x m h.1 n)

boundary-Starts :
    (m x : Content) (current : Turn)
    → last? current ≡ some x
    → is_turn_boundary m current ≡ ok true
    → Starts x m
unfolding is_turn_boundary is_user_turn_boundary is_model_tool_call_boundary
boundary-Starts m x [] l h = cc
boundary-Starts m x (c ∷ cs) l h = ground arith

boundary-not-Starts :
    (m x : Content) (current : Turn)
    → last? current ≡ some x
    → is_turn_boundary m current ≡ ok false
    → ¬ Starts x m
unfolding is_turn_boundary is_user_turn_boundary is_model_tool_call_boundary
boundary-not-Starts m x [] l h s = cc
boundary-not-Starts m x (c ∷ cs) l h s = ground arith

-- The state of the loop: the closed turns are cut, the current one holds together and may stand
-- behind them, and it is empty only at the start.
record IsCut (turns : List Turn) (current : Turn) : Type 0 where
  closed : Cut none turns
  joins : Joins (end none turns) (head? current)
  together : Together current
  fresh : is_nil current ≡ true → turns ≡ []

Joins-head?-concat :
    (prev : Option Content) (x y m : Content) (ms : Turn)
    → Joins prev (head? (x ∷ ms))
    → Joins prev (head? ((x ∷ ms) ++ (m ∷ [])))
Joins-head?-concat none x y m ms j = tt
Joins-head?-concat (some p) x y m ms j = j

start-IsCut : (m : Content) → IsCut [] (m ∷ [])
start-IsCut m = record { closed = tt; joins = tt; together = tt; fresh = λ e. cc }

grow-IsCut :
    (turns : List Turn) (x : Content) (ms : Turn) (last m : Content) (t : Turn)
    → x ∷ ms ≡ t ++ (last ∷ [])
    → IsCut turns (x ∷ ms)
    → (¬ Starts last m)
    → IsCut turns ((x ∷ ms) ++ (m ∷ []))
grow-IsCut turns x ms last m t e c n = record {
  closed = c.closed;
  joins = Joins-head?-concat (end none turns) x x m ms c.joins;
  together =
      subst (λ u. Together (u ++ (m ∷ []))) (sym e)
        (Together-concat t last m (subst Together e c.together) n);
  fresh = λ e'. cc;
}

-- A filled list is its front and its last element.
front : (x : Content) (ms : Turn) → (t : Turn) × (last : Content) × (x ∷ ms ≡ t ++ (last ∷ []))
front x [] = ([], x, refl)
front x (y ∷ ms) = let (t, last, e) = front y ms in (x ∷ t, last, ap (◌∷◌ x) e)

round-IsCut :
    (m : Content) (b : Bool) (turns : List Turn) (current : Turn)
    → is_turn_boundary m current ≡ ok b
    → IsCut turns current
    → IsCut
        (if b then turns ++ (current ∷ []) else turns)
        (if b then m ∷ [] else current ++ (m ∷ []))
unfolding is_turn_boundary
round-IsCut m b turns [] h c =
    let e : false ≡ b = ground (arith, h) in
    let f : turns ≡ [] = c.fresh refl in
    subst (λ b'. IsCut (if b' then turns ++ ([] ∷ []) else turns) (if b' then m ∷ [] else m ∷ [])) e
      (subst (λ ts. IsCut ts (m ∷ [])) (sym f) (start-IsCut m))
round-IsCut m true turns (x ∷ ms) h c = record {
  closed = Cut-concat none turns (x ∷ ms) c.closed c.joins c.together;
  joins =
      let (t, last, e) = front x ms in
      let l : last? (x ∷ ms) ≡ some last = ap last? e ∙ last?-concat t last in
      subst (λ p. Joins p (some m)) (sym (end-concat none turns (x ∷ ms) ∙ l))
        (boundary-Starts m last (x ∷ ms) l h);
  together = tt;
  fresh = λ e. cc;
}
round-IsCut m false turns (x ∷ ms) h c =
    let (t, last, e) = front x ms in
    grow-IsCut turns x ms last m t e c
      (boundary-not-Starts m last (x ∷ ms) (ap last? e ∙ last?-concat t last) h)

end-Cut :
    (turns : List Turn) (current : Turn)
    → IsCut turns current
    → Cut none (if is_nil current then turns else turns ++ (current ∷ []))
end-Cut turns [] c = c.closed
end-Cut turns (x ∷ ms) c = Cut-concat none turns (x ∷ ms) c.closed c.joins c.together

group_loop-Cut :
    (ctx : Ctx) (i : ℕ) (rest : List Message) (turns : List Turn) (current : Turn) {out : List Turn}
    → IsCut turns current
    → group_loop ctx i rest turns current ≡ ok out
    → Cut none out
unfolding group_loop
group_loop-Cut ctx i [] turns current {out} c h =
    let e : (if is_nil current then turns else turns ++ (current ∷ [])) ≡ out = cc h in
    rw (← e) (end-Cut turns current c)
group_loop-Cut ctx i (msg ∷ rest) turns current c h =
    let r = group_loop-Round ctx i msg rest turns current h in
    group_loop-Cut ctx (i + 1) rest _ _ (round-IsCut r.m r.b turns current r.boundary c) r.later

-- The turns of a history are cut exactly where a turn starts: at a user or system message, unless it
-- is a user message straight behind a tool call of the model. So a tool call and the message that
-- answers it always stand in one turn.
pub group_turns-Cut :
    (ctx : Ctx) (history : Slice Message) {turns : List Turn}
    → group_turns ctx history ≡ ok turns
    → Cut none turns
unfolding group_turns
group_turns-Cut ctx none h = cc
group_turns-Cut ctx (some history) h =
    group_loop-Cut ctx 0 history [] []
      (record { closed = tt; joins = tt; together = tt; fresh = λ e. refl }) h
