-- ===== src/Context/Clean/Tidied.antt =====
-- What the content cleaner makes of the messages of a history.
use tell_me_go.Base.{
  Bool, true, false, not, ◌&&◌, ◌||◌, ◌≡◌, refl, sym, ap, ◌∙◌, subst, List, [], ◌∷◌, map, codes,
  Option, none, some, is_nil, All, All-append, All-of-append, arith, Bool-cases, inl, inr,
  if◌then◌else◌,
}
use tell_me_go.Errors.{ok, >>=-eq-ok, ok-injective}
use tell_me_go.Llm.{Part, Content, text_part}
use tell_me_go.Llm.Parts.{is_empty}
use tell_me_go.Context.{Message}
use tell_me_go.Context.Clean.{
  is_invalid_tool_part, has_empty_part, drop_empty_parts, rebuild_clean_parts, empty_response,
  clean_content, clean_contents,
}
use tell_me_go.Context.Clean.Cleaned.{parts_of, IsValid, HasContent, HasParts}

no_empty_part : (ps : List (Option Part)) → has_empty_part ps ≡ ok false → All HasContent ps
unfolding has_empty_part
no_empty_part [] h = tt
no_empty_part (none ∷ ps) h = cc
no_empty_part (some p ∷ ps) h =
    let (b, e, f) = >>=-eq-ok (has_empty_part ps) _ h in
    let g : (is_empty p || b) ≡ false = ok-injective f in
    let k : b ≡ false = ground arith in
    (ground arith, no_empty_part ps (subst (λ b'. has_empty_part ps ≡ ok b') k e))

-- What the content cleaner promises of the parts of one message.
pub record Tidy (before after : List (Option Part)) : Type 0 where
  pub filled : is_nil after ≡ false
  pub content : All HasContent after
  pub valid : All IsValid before → All IsValid after

drop_empty_parts-All :
    (ps : List (Option Part))
    → All HasContent (drop_empty_parts ps) × (All IsValid ps → All IsValid (drop_empty_parts ps))
unfolding drop_empty_parts
drop_empty_parts-All [] = (tt, λ h. tt)
drop_empty_parts-All (none ∷ ps) = let ih = drop_empty_parts-All ps in (ih.0, λ h. ih.1 h.1)
drop_empty_parts-All (some p ∷ ps) =
    let ih = drop_empty_parts-All ps in
    elim (Bool-cases (is_empty p)) [
      | inl e ↦ rw e (ih.0, λ h. ih.1 h.1)
      | inr e ↦ rw e ((e, ih.0), λ h. (h.0, ih.1 h.1))
    ]

rebuild-Tidy : (ps : List (Option Part)) → Tidy ps (rebuild_clean_parts ps)
unfolding rebuild_clean_parts is_empty is_invalid_tool_part
rebuild-Tidy ps = go (drop_empty_parts ps) (drop_empty_parts-All ps)
  where
    go :
        (ks : List (Option Part))
        → All HasContent ks × (All IsValid ps → All IsValid ks)
        → Tidy ps (if is_nil ks then some empty_response ∷ [] else ks)
    go [] h = record { filled = refl; content = (refl, tt); valid = λ v. (refl, tt) }
    go (k ∷ ks) h = record { filled = refl; content = h.0; valid = h.1 }

clean_content-Tidy :
    (m : Content) {out : Content × Bool}
    → clean_content m ≡ ok out
    → Tidy m.parts out.0.parts × (out.1 ≡ false → out.0 ≡ m)
unfolding clean_content
clean_content-Tidy m {out} h =
    let (b, e, f) = >>=-eq-ok (has_empty_part m.parts) _ h in
    subst (λ o. Tidy m.parts o.0.parts × (o.1 ≡ false → o.0 ≡ m)) (ok-injective f) (go b e)
  where
    go :
        (b : Bool)
        → has_empty_part m.parts ≡ ok b
        → let o : Content × Bool =
            if not b && not (is_nil m.parts)
            then (m, false)
            else (record m { parts = rebuild_clean_parts m.parts }, true) in
          Tidy m.parts o.0.parts × (o.1 ≡ false → o.0 ≡ m)
    go true e = (rebuild-Tidy m.parts, λ f. cc f)
    go false e = elim (Bool-cases (is_nil m.parts)) [
      | inl n ↦ rw n (rebuild-Tidy m.parts, λ f. cc f)
      | inr n ↦
          rw n (record { filled = n; content = no_empty_part m.parts e; valid = λ v. v }, λ f. refl)
    ]

-- What the content cleaner promises of the history.
pub record TidyHistory (before : List Message) (out : List Message × Bool) : Type 0 where
  pub present : All HasParts out.0
  pub content : All HasContent (parts_of out.0)
  pub valid : All IsValid (parts_of before) → All IsValid (parts_of out.0)
  pub unchanged : out.1 ≡ false → out.0 ≡ before

TidyHistory-cons :
    (m m' : Content) (ms rest : List Message) (changed later : Bool)
    → Tidy m.parts m'.parts × (changed ≡ false → m' ≡ m)
    → TidyHistory ms (rest, later)
    → TidyHistory (some m ∷ ms) (some m' ∷ rest, changed || later)
TidyHistory-cons m m' ms rest changed later (t, u) h = record {
  present = (t.filled, h.present);
  content = All-append HasContent m'.parts (parts_of rest) t.content h.content;
  valid = λ v.
      let (x, y) = All-of-append IsValid m.parts (parts_of ms) v in
      All-append IsValid m'.parts (parts_of rest) (t.valid x) (h.valid y);
  unchanged = λ e. both changed e u h.unchanged;
}
  where
    both :
        (c : Bool)
        → (c || later) ≡ false
        → (c ≡ false → m' ≡ m)
        → (later ≡ false → rest ≡ ms)
        → some m' ∷ rest ≡ some m ∷ ms
    both true e p q = cc e
    both false e p q = cc (p refl, q e)

pub clean_contents-TidyHistory :
    (ms : List Message) {out : List Message × Bool}
    → clean_contents ms ≡ ok out
    → TidyHistory ms out
unfolding clean_contents
clean_contents-TidyHistory [] h =
    subst (TidyHistory []) (ok-injective h)
      (record { present = tt; content = tt; valid = λ v. tt; unchanged = λ e. refl })
clean_contents-TidyHistory (none ∷ ms) h = cc
clean_contents-TidyHistory (some m ∷ ms) {out} h =
    let (r, e, f) = >>=-eq-ok (clean_content m) _ h in
    let (s, g, k) = >>=-eq-ok (clean_contents ms) _ f in
    subst (TidyHistory (some m ∷ ms)) (ok-injective k) (
      TidyHistory-cons m r.0 ms s.0 r.1 s.1 (clean_content-Tidy m e)
        (clean_contents-TidyHistory ms g))

-- The parts with something in them, and the placeholder where a message has none.
abbrev pub keep_content : List (Option Part) → List (Option Part)
keep_content [] = []
keep_content (none ∷ ps) = keep_content ps
keep_content (some p ∷ ps) = if is_empty p then keep_content ps else some p ∷ keep_content ps

abbrev pub or_placeholder : List (Option Part) → List (Option Part)
or_placeholder [] = some (text_part (codes "[empty response]")) ∷ []
or_placeholder (p ∷ ps) = p ∷ ps

abbrev pub tidied : Message → Message
tidied none = none
tidied (some m) = some (record m { parts = or_placeholder (keep_content m.parts) })

drop_empty_parts-keep_content : (ps : List (Option Part)) → drop_empty_parts ps ≡ keep_content ps
unfolding drop_empty_parts
drop_empty_parts-keep_content [] = refl
drop_empty_parts-keep_content (none ∷ ps) = drop_empty_parts-keep_content ps
drop_empty_parts-keep_content (some p ∷ ps) = elim (Bool-cases (is_empty p)) [
  | inl e ↦ rw e (drop_empty_parts-keep_content ps)
  | inr e ↦ rw e (ap (◌∷◌ (some p)) (drop_empty_parts-keep_content ps))
]

rebuilt-placeholder :
    (ks : List (Option Part))
    → (if is_nil ks then some empty_response ∷ [] else ks) ≡ or_placeholder ks
rebuilt-placeholder [] = refl
rebuilt-placeholder (k ∷ ks) = refl

keep_content_all : (ps : List (Option Part)) → All HasContent ps → keep_content ps ≡ ps
keep_content_all [] h = refl
keep_content_all (none ∷ ps) h = absurd h.0
keep_content_all (some p ∷ ps) h = rw (h.0) (ap (◌∷◌ (some p)) (keep_content_all ps h.1))

unchanged-tidied :
    (ps : List (Option Part))
    → is_nil ps ≡ false
    → All HasContent ps
    → or_placeholder (keep_content ps) ≡ ps
unchanged-tidied [] n h = cc n
unchanged-tidied (p ∷ ps) n h = ap or_placeholder (keep_content_all (p ∷ ps) h)

clean_content-tidied :
    (m : Content) {out : Content × Bool} → clean_content m ≡ ok out → some out.0 ≡ tidied (some m)
unfolding clean_content rebuild_clean_parts
clean_content-tidied m {out} h =
    let (b, e, f) = >>=-eq-ok (has_empty_part m.parts) _ h in
    ap (λ o. some o.0) (sym (ok-injective f)) ∙ go b e
  where
    rebuilt : some (record m { parts = rebuild_clean_parts m.parts }) ≡ tidied (some m)
    rebuilt =
        ap (λ ps. some (record m { parts = ps }))
          (rebuilt-placeholder (drop_empty_parts m.parts)
            ∙ ap or_placeholder (drop_empty_parts-keep_content m.parts))

    go :
        (b : Bool)
        → has_empty_part m.parts ≡ ok b
        → let o : Content × Bool =
            if not b && not (is_nil m.parts)
            then (m, false)
            else (record m { parts = rebuild_clean_parts m.parts }, true) in
          some o.0 ≡ tidied (some m)
    go true e = rebuilt
    go false e = elim (Bool-cases (is_nil m.parts)) [
      | inl n ↦ rw n rebuilt
      | inr n ↦ rw n (
          ap (λ ps. some (record m { parts = ps }))
            (sym (unchanged-tidied m.parts n (no_empty_part m.parts e))))
    ]

pub clean_contents-tidied :
    (ms : List Message) {out : List Message × Bool}
    → clean_contents ms ≡ ok out
    → out.0 ≡ map tidied ms
unfolding clean_contents
clean_contents-tidied [] h = ap (λ o. o.0) (sym (ok-injective h))
clean_contents-tidied (none ∷ ms) h = cc
clean_contents-tidied (some m ∷ ms) h =
    let (r, e, f) = >>=-eq-ok (clean_content m) _ h in
    let (s, g, k) = >>=-eq-ok (clean_contents ms) _ f in
    ap (λ o. o.0) (sym (ok-injective k))
    ∙ ap (λ x. x ∷ s.0) (clean_content-tidied m e)
    ∙ ap (◌∷◌ (tidied (some m))) (clean_contents-tidied ms g)
