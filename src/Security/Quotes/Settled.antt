-- ===== src/Security/Quotes/Settled.antt =====
-- Normalization, done twice.
use tell_me_go.Base.{ℕ, Bool, true, false, not, ◌≡◌, refl, ap, ◌∙◌, [], ◌∷◌, Bytes, arith}
use tell_me_go.Security.Quotes.{
  branch, Branch, opens_single, opens_double, escapes, writes, behind, Behind, feed, carriage_feed,
  carriage, escaped, normalize_jump, normalize_from, normalize_escape, normalize, backslash,
}

carriage_return-writes :
    (d : Bool) (b : ℕ) (bs : Bytes) → behind b bs ≡ carriage → branch false d b ≡ writes
carriage_return-writes d b bs h = ground arith

escaped-behind : (b : ℕ) (bs cs : Bytes) → behind b bs ≡ escaped → behind b cs ≡ escaped
escaped-behind b bs cs h = ground arith

escapes_outside : (s d : Bool) (b : ℕ) → branch s d b ≡ escapes → s ≡ false
escapes_outside s d b h = ground arith

-- The bytes from a place on are settled, from every state of the quotes.
abbrev Settled : Bytes → Type 0
Settled bs = (s d : Bool) → normalize_from s d (normalize_from s d bs) ≡ normalize_from s d bs

normalize_from-branch :
    (s d : Bool) (b : ℕ) (bs : Bytes) (k : Branch)
    → branch s d b ≡ k
    → normalize_from s d (b ∷ bs) ≡ (elim k as (λ x. Bytes) [
      | opens_single ↦ b ∷ normalize_from (not s) d bs
      | opens_double ↦ b ∷ normalize_from s (not d) bs
      | escapes ↦ normalize_escape s d bs
      | writes ↦ b ∷ normalize_from s d bs
    ])
unfolding normalize_from
normalize_from-branch s d b bs k e =
    ap
      (λ x. elim x as (λ y. Bytes) [
        | opens_single ↦ b ∷ normalize_from (not s) d bs
        | opens_double ↦ b ∷ normalize_from s (not d) bs
        | escapes ↦ normalize_escape s d bs
        | writes ↦ b ∷ normalize_from s d bs
      ])
      e

normalize_escape-behind :
    (s d : Bool) (b : ℕ) (bs : Bytes) (k : Behind)
    → behind b bs ≡ k
    → normalize_escape s d (b ∷ bs) ≡ (elim k as (λ x. Bytes) [
      | feed ↦ normalize_from s d bs
      | carriage_feed ↦ normalize_jump s d bs
      | carriage ↦ b ∷ normalize_from s d bs
      | escaped ↦ backslash ∷ b ∷ normalize_from s d bs
    ])
unfolding normalize_from
normalize_escape-behind s d b bs k e =
    ap
      (λ x. elim x as (λ y. Bytes) [
        | feed ↦ normalize_from s d bs
        | carriage_feed ↦ normalize_jump s d bs
        | carriage ↦ b ∷ normalize_from s d bs
        | escaped ↦ backslash ∷ b ∷ normalize_from s d bs
      ])
      e

branch_idem :
    (s d : Bool) (b : ℕ) (bs : Bytes) (k : Branch)
    → Settled bs
    → normalize_from false d (normalize_escape false d bs) ≡ normalize_escape false d bs
    → branch s d b ≡ k
    → normalize_from s d (normalize_from s d (b ∷ bs)) ≡ normalize_from s d (b ∷ bs)
branch_idem s d b bs opens_single settled behind_settled e =
    rw (normalize_from-branch s d b bs opens_single e)
      (normalize_from-branch s d b _ opens_single e ∙ ap (◌∷◌ b) (settled (not s) d))
branch_idem s d b bs opens_double settled behind_settled e =
    rw (normalize_from-branch s d b bs opens_double e)
      (normalize_from-branch s d b _ opens_double e ∙ ap (◌∷◌ b) (settled s (not d)))
branch_idem s d b bs writes settled behind_settled e =
    rw (normalize_from-branch s d b bs writes e)
      (normalize_from-branch s d b _ writes e ∙ ap (◌∷◌ b) (settled s d))
branch_idem true d b bs escapes settled behind_settled e = cc (escapes_outside true d b e)
branch_idem false d b bs escapes settled behind_settled e =
    rw (normalize_from-branch false d b bs escapes e) behind_settled

behind_idem :
    (d : Bool) (b : ℕ) (bs : Bytes) (k : Behind)
    → Settled bs
    → normalize_from false d (normalize_jump false d bs) ≡ normalize_jump false d bs
    → behind b bs ≡ k
    → normalize_from false d (normalize_escape false d (b ∷ bs)) ≡ normalize_escape false d (b ∷ bs)
behind_idem d b bs feed settled jumped e =
    rw (normalize_escape-behind false d b bs feed e) (settled false d)
behind_idem d b bs carriage_feed settled jumped e =
    rw (normalize_escape-behind false d b bs carriage_feed e) jumped
behind_idem d b bs carriage settled jumped e =
    rw (normalize_escape-behind false d b bs carriage e) (
      normalize_from-branch false d b _ writes (carriage_return-writes d b bs e)
      ∙ ap (◌∷◌ b) (settled false d))
behind_idem d b bs escaped settled jumped e = rw (normalize_escape-behind false d b bs escaped e) (
    normalize_from-branch false d backslash _ escapes refl
    ∙ normalize_escape-behind false d b _ escaped
        (escaped-behind b bs (normalize_from false d bs) e)
    ∙ ap (λ x. backslash ∷ b ∷ x) (settled false d))

mutual
  unfolding normalize_from

  from_idem :
      (s d : Bool) (bs : Bytes) → normalize_from s d (normalize_from s d bs) ≡ normalize_from s d bs
  from_idem s d [] = refl
  from_idem s d (b ∷ bs) =
      branch_idem s d b bs (branch s d b) (λ s' d'. from_idem s' d' bs) (escape_idem d bs) refl

  escape_idem :
      (d : Bool) (bs : Bytes)
      → normalize_from false d (normalize_escape false d bs) ≡ normalize_escape false d bs
  escape_idem d [] = refl
  escape_idem d (b ∷ bs) =
      behind_idem d b bs (behind b bs) (λ s' d'. from_idem s' d' bs) (jump_idem d bs) refl

  jump_idem :
      (d : Bool) (bs : Bytes)
      → normalize_from false d (normalize_jump false d bs) ≡ normalize_jump false d bs
  jump_idem d [] = refl
  jump_idem d (b ∷ bs) = from_idem false d bs

-- Normalizing a command twice is normalizing it once.
pub normalize_idem : (raw : Bytes) → normalize (normalize raw) ≡ normalize raw
unfolding normalize
normalize_idem raw = from_idem false false raw
