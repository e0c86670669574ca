-- ===== src/History/Turns/Pairs.antt =====
-- The two messages that `findTurnPair` answers.
use tell_me_go.Base.{
  ℕ, zero, suc, ◌+◌, Bool, true, false, ◌≡◌, refl, subst, ◌⊎◌, inl, inr, List, Option, Bytes,
  bytes_eq, length, arith, leb, Bool-cases, if◌then◌else◌,
}
use tell_me_go.Errors.{
  Result, ok, fails_plain, >>=-eq-ok, ok-injective, then_of_ok, else_of_ok, ◌>>=◌,
}
use tell_me_go.Llm.{Part, Content, user, model, has_role}
use tell_me_go.Context.{Message}
use tell_me_go.History.Turns.{
  message_at, has_function_call, has_function_response, checked, pair_forward, pair_backward,
  find_turn_pair,
}

-- The message at an index has the role.
abbrev pub HasRoleAt : List Message → ℕ → Bytes → Type 0
HasRoleAt ms i role = (c : Content) × (message_at ms i ≡ ok c) × (has_role c role ≡ true)

-- Two messages, one after the other, of the user and of the model.
abbrev pub IsTurn : List Message → ℕ × ℕ → Type 0
IsTurn ms (a, b) =
    (b ≡ a + 1)
    × ((HasRoleAt ms a user × HasRoleAt ms b model) ⊎ (HasRoleAt ms a model × HasRoleAt ms b user))

-- The answer of both directions, behind the partner.
partner_role-true :
    (c : Content) (role : Bytes) (pred : Option (List (Option Part) → Result Bool)) (p : ℕ × ℕ)
    {q : ℕ × ℕ}
    → ((if bytes_eq c.role role then checked pred c else ok false) >>= λ matches.
        if matches then ok p else fails_plain)
      ≡ ok q
    → (has_role c role ≡ true) × (p ≡ q)
partner_role-true c role pred p h = elim (Bool-cases (bytes_eq c.role role)) [
  | inl fits ↦
      let (b, e, f) = >>=-eq-ok (checked pred c) _ (rw fits at h) in
      (fits, ok-injective (then_of_ok b (ok p) f).1)
  | inr not_fits ↦ cc (rw not_fits at h)
]

pair_forward_lem :
    (ms : List Message) (i : ℕ) (role : Bytes) (pred : Option (List (Option Part) → Result Bool))
    {p : ℕ × ℕ}
    → pair_forward ms i role pred ≡ ok p
    → ((i, i + 1) ≡ p) × HasRoleAt ms (i + 1) role
unfolding pair_forward
pair_forward_lem ms i role pred h =
    let (c, found, f) =
      >>=-eq-ok (message_at ms (i + 1)) _ (else_of_ok (leb (length ms) (i + 1)) _ h).1 in
    let (fits, e) = partner_role-true c role pred (i, i + 1) f in (e, (c, found, fits))

pair_backward_lem :
    (ms : List Message) (i : ℕ) (role : Bytes) (pred : Option (List (Option Part) → Result Bool))
    {p : ℕ × ℕ}
    → pair_backward ms i role pred ≡ ok p
    → (j : ℕ) × (i ≡ suc j) × ((j, i) ≡ p) × HasRoleAt ms j role
unfolding pair_backward
pair_backward_lem ms zero role pred h = cc h
pair_backward_lem ms (suc j) role pred h =
    let (c, found, f) = >>=-eq-ok (message_at ms j) _ h in
    let (fits, e) = partner_role-true c role pred (j, suc j) f in (j, refl, e, (c, found, fits))

forward-IsTurn :
    (ms : List Message) (i : ℕ) (role : Bytes) (pred : Option (List (Option Part) → Result Bool))
    {p : ℕ × ℕ}
    → (HasRoleAt ms (i + 1) role
        → (HasRoleAt ms i user × HasRoleAt ms (i + 1) model)
          ⊎ (HasRoleAt ms i model × HasRoleAt ms (i + 1) user))
    → pair_forward ms i role pred ≡ ok p
    → IsTurn ms p × ((p.0 ≡ i) ⊎ (p.1 ≡ i))
forward-IsTurn ms i role pred roles h =
    let (e, partner) = pair_forward_lem ms i role pred h in
    subst (λ p. IsTurn ms p × ((p.0 ≡ i) ⊎ (p.1 ≡ i))) e ((refl, roles partner), inl refl)

backward-IsTurn :
    (ms : List Message) (i : ℕ) (role : Bytes) (pred : Option (List (Option Part) → Result Bool))
    {p : ℕ × ℕ}
    → ((j : ℕ)
        → HasRoleAt ms j role
        → (HasRoleAt ms j user × HasRoleAt ms i model)
          ⊎ (HasRoleAt ms j model × HasRoleAt ms i user))
    → pair_backward ms i role pred ≡ ok p
    → IsTurn ms p × ((p.0 ≡ i) ⊎ (p.1 ≡ i))
backward-IsTurn ms i role pred roles h =
    let (j, e, f, partner) = pair_backward_lem ms i role pred h in
    subst (λ p. IsTurn ms p × ((p.0 ≡ i) ⊎ (p.1 ≡ i))) f ((ground arith, roles j partner), inr refl)

-- Where a turn is found for a message, it is two messages, one right behind the other, one of the user
-- and one of the model, and the message is one of the two.
pub find_turn_pair-IsTurn :
    (ms : List Message) (i : ℕ) {p : ℕ × ℕ}
    → find_turn_pair ms i ≡ ok p
    → IsTurn ms p × ((p.0 ≡ i) ⊎ (p.1 ≡ i))
unfolding find_turn_pair
find_turn_pair-IsTurn ms i h =
    let (m, found, f) = >>=-eq-ok (message_at ms i) _ h in
    elim (Bool-cases (has_role m model)) [
      | inl fits ↦
          let (b, e, g) = >>=-eq-ok (has_function_call m.parts) _ (rw fits at f) in
          elim (Bool-cases b) [
            | inl t ↦
                forward-IsTurn ms i user _ (λ partner. inr ((m, found, fits), partner)) (rw t at g)
            | inr t ↦
                backward-IsTurn ms i user _ (λ j partner. inl (partner, (m, found, fits)))
                  (rw t at g)
          ]
      | inr not_fits ↦
          let (fits, k) = then_of_ok (has_role m user) _ (rw not_fits at f) in
          let (b, e, g) = >>=-eq-ok (has_function_response m.parts) _ k in
          elim (Bool-cases b) [
            | inl t ↦
                backward-IsTurn ms i model _ (λ j partner. inr (partner, (m, found, fits)))
                  (rw t at g)
            | inr t ↦
                forward-IsTurn ms i model _ (λ partner. inl ((m, found, fits), partner)) (rw t at g)
          ]
    ]
