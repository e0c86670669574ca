-- ===== src/Context/Warnings/Injected.antt =====
-- What injecting a warning changes, and that it happens once.
use tell_me_go.Base.{
  ℕ, Bool, true, false, ◌≡◌, refl, sym, ap, subst, ◌∙◌, List, [], ◌∷◌, ◌++◌, append_assoc, Option,
  none, some, Bytes, contains, has_prefix, take, arith, Bool-cases, inl, inr, if◌then◌else◌,
}
use tell_me_go.Errors.{Result, ok, ◌>>=◌, >>=-eq-ok, ok-injective}
use tell_me_go.Llm.{Part, Content, text_part}
use tell_me_go.Llm.Clone.{clone_content}
use tell_me_go.Llm.Clone.Copies.{clone_content_lem}
use tell_me_go.Context.{Message}
use tell_me_go.Context.Warnings.{parts_contain, shown_in, inject_last, reverse_onto, inject_warning}

has_prefix_self : (s : Bytes) → has_prefix s s ≡ true
unfolding has_prefix
has_prefix_self [] = refl
has_prefix_self (c ∷ s) = ground (arith, has_prefix_self s)

contains_self : (s : Bytes) → contains s s ≡ true
unfolding contains has_prefix
contains_self [] = refl
contains_self (c ∷ s) = ground (arith, has_prefix_self s)

contains-cons : (c : ℕ) (s t : Bytes) → contains s t ≡ true → contains (c ∷ s) t ≡ true
unfolding contains
contains-cons c s t h = ground (arith, h)

with_warning : Bytes → Content → Content
with_warning text m = record m {
  transient_parts = m.transient_parts ++ some (text_part (10 ∷ 10 ∷ text)) ∷ [];
}

-- The two outcomes of an injection that succeeds: nothing, or one transient part more.
data Injected (text : Bytes) : List Message → List Message → Type 0 where
  unchanged : {ms : List Message} → inject_last text ms ≡ ok ms → Injected text ms ms
  added :
      {m : Content} {ms : List Message}
      → shown_in text (take 4 (some m ∷ ms)) ≡ ok false
      → Injected text (some m ∷ ms) (some (with_warning text m) ∷ ms)

Injected-shown :
    (text : Bytes) (m : Content) (ms : List Message) (shown : Bool) {r : List Message}
    → shown_in text (take 4 (some m ∷ ms)) ≡ ok shown
    → (if shown then some m ∷ ms else some (with_warning text (clone_content m)) ∷ ms) ≡ r
    → Injected text (some m ∷ ms) r
unfolding inject_last with_warning
Injected-shown text m ms true e f = subst (Injected text (some m ∷ ms)) f (unchanged (rw e refl))
Injected-shown text m ms false e f =
    subst (Injected text (some m ∷ ms))
      (sym (ap (λ c. some (with_warning text c) ∷ ms) (clone_content_lem m)) ∙ f) (added e)

inject_last-Injected :
    (text : Bytes) (ms : List Message) {r : List Message}
    → inject_last text ms ≡ ok r
    → Injected text ms r
unfolding inject_last with_warning
inject_last-Injected text [] h = subst (Injected text []) (ok-injective h) (unchanged refl)
inject_last-Injected text (none ∷ ms) h = ground arith
inject_last-Injected text (some m ∷ ms) h =
    let (shown, e, f) = >>=-eq-ok (shown_in text (take 4 (some m ∷ ms))) _ h in
    Injected-shown text m ms shown e (ok-injective f)

reverse_onto_involutive :
    (xs acc : List Message) → reverse_onto (reverse_onto xs acc) [] ≡ reverse_onto acc xs
unfolding reverse_onto
reverse_onto_involutive [] acc = refl
reverse_onto_involutive (x ∷ xs) acc = reverse_onto_involutive xs (x ∷ acc)

not_shown : (b : Bool) (rest : Result Bool) → (if b then ok true else rest) ≡ ok false → b ≡ false
not_shown true rest h = ground arith
not_shown false rest h = refl

parts_contain-added :
    (text : Bytes) (ps : List (Option Part))
    → parts_contain text ps ≡ ok false
    → parts_contain text (ps ++ some (text_part (10 ∷ 10 ∷ text)) ∷ []) ≡ ok true
unfolding parts_contain
parts_contain-added text [] h =
    rw (contains-cons 10 (10 ∷ text) text (contains-cons 10 text text (contains_self text))) refl
parts_contain-added text (none ∷ ps) h = ground arith
parts_contain-added text (some p ∷ ps) h = elim (Bool-cases (contains p.text text)) [
  | inl e ↦ ground (arith, e, h)
  | inr e ↦ rw e (
      parts_contain-added text ps
        (subst (λ b. (if b then ok true else parts_contain text ps) ≡ ok false) e h))
]

shown_after :
    (text : Bytes) (m : Content) (ms : List Message) (canonical : Bool)
    → ((if canonical then ok true else parts_contain text m.transient_parts) >>= λ shown.
        if shown then ok true else shown_in text ms)
      ≡ ok false
    → ((if canonical then ok true else parts_contain text (with_warning text m).transient_parts)
        >>= λ shown. if shown then ok true else shown_in text ms)
      ≡ ok true
unfolding with_warning
shown_after text m ms true f = ground arith
shown_after text m ms false f =
    let (shown, e, g) = >>=-eq-ok (parts_contain text m.transient_parts) _ f in
    rw
      (parts_contain-added text m.transient_parts
        (e ∙ ap ok (not_shown shown (shown_in text ms) g)))
      refl

shown_in-added :
    (text : Bytes) (m : Content) (ms : List Message)
    → shown_in text (some m ∷ ms) ≡ ok false
    → shown_in text (some (with_warning text m) ∷ ms) ≡ ok true
unfolding shown_in with_warning
shown_in-added text m ms h =
    let (canonical, e, f) = >>=-eq-ok (parts_contain text m.parts) _ h in
    rw e (shown_after text m ms canonical f)

inject_last-again :
    {text : Bytes} {ms r : List Message} → Injected text ms r → inject_last text r ≡ ok r
unfolding inject_last
inject_last-again (unchanged e) = e
inject_last-again (added e) = rw (shown_in-added _ _ _ e) refl

inject_warning_run :
    (text : Bytes) (ms : List Message) {r : List Message}
    → inject_warning text ms ≡ ok r
    → (r' : List Message) × Injected text (reverse_onto ms []) r' × (reverse_onto r' [] ≡ r)
unfolding inject_warning
inject_warning_run text ms h =
    let (r', e, f) = >>=-eq-ok (inject_last text (reverse_onto ms [])) _ h in
    (r', inject_last-Injected text _ e, ok-injective f)

-- What injecting a warning makes of a history. The last messages are looked through from the end.
pub data Outcome (text : Bytes) (ms r : List Message) : Type 0 where
  no_message : ms ≡ [] → r ≡ [] → Outcome text ms r
  shown_already : shown_in text (take 4 (reverse_onto ms [])) ≡ ok true → r ≡ ms → Outcome text ms r
  warned_last :
      (front : List Message) (m : Content)
      → shown_in text (take 4 (reverse_onto ms [])) ≡ ok false
      → ms ≡ front ++ some m ∷ []
      → r
        ≡ front
          ++ some (record m {
            transient_parts = m.transient_parts ++ some (text_part (10 ∷ 10 ∷ text)) ∷ [];
          })
            ∷ []
      → Outcome text ms r

reverse_onto-append : (xs acc : List Message) → reverse_onto xs acc ≡ reverse_onto xs [] ++ acc
unfolding reverse_onto
reverse_onto-append [] acc = refl
reverse_onto-append (x ∷ xs) acc =
    reverse_onto-append xs (x ∷ acc)
    ∙ sym (append_assoc (reverse_onto xs []) (x ∷ []) acc)
    ∙ ap (λ ys. ys ++ acc) (sym (reverse_onto-append xs (x ∷ [])))

shown-Outcome :
    (text : Bytes) (ms rest : List Message) (m : Content) (shown : Bool) {r : List Message}
    → reverse_onto ms [] ≡ some m ∷ rest
    → ms ≡ reverse_onto rest [] ++ some m ∷ []
    → shown_in text (take 4 (some m ∷ rest)) ≡ ok shown
    → reverse_onto
        (if shown then some m ∷ rest else some (with_warning text (clone_content m)) ∷ rest)
        []
      ≡ r
    → Outcome text ms r
unfolding reverse_onto with_warning
shown-Outcome text ms rest m true back front e f =
    shown_already (ap (λ l. shown_in text (take 4 l)) back ∙ e)
      (sym f ∙ reverse_onto-append rest (some m ∷ []) ∙ sym front)
shown-Outcome text ms rest m false back front e f =
    warned_last (reverse_onto rest []) m (ap (λ l. shown_in text (take 4 l)) back ∙ e) front (
      sym f
      ∙ reverse_onto-append rest _
      ∙ ap (λ c. reverse_onto rest [] ++ some (with_warning text c) ∷ []) (clone_content_lem m))

last-Outcome :
    (text : Bytes) (ms l : List Message) {r' r : List Message}
    → reverse_onto ms [] ≡ l
    → inject_last text l ≡ ok r'
    → reverse_onto r' [] ≡ r
    → Outcome text ms r
unfolding inject_last reverse_onto with_warning
last-Outcome text ms [] back h e =
    no_message (sym (reverse_onto_involutive ms []) ∙ ap (λ l. reverse_onto l []) back)
      (sym e ∙ ap (λ l. reverse_onto l []) (sym (ok-injective h)))
last-Outcome text ms (none ∷ rest) back h e = cc h
last-Outcome text ms (some m ∷ rest) {r'} back h e =
    let (shown, k, f) = >>=-eq-ok (shown_in text (take 4 (some m ∷ rest))) _ h in
    shown-Outcome text ms rest m shown back
      (sym (reverse_onto_involutive ms [])
        ∙ ap (λ l. reverse_onto l []) back
        ∙ reverse_onto-append rest (some m ∷ []))
      k (ap (λ l. reverse_onto l []) (ok-injective f) ∙ e)

-- Injecting a warning adds one transient part, behind the ones that are there, to the last message, where
-- none of the last four messages shows its text, and changes nothing else; where one of them does, or there
-- is no message, the history stays as it is.
pub inject_warning-Outcome :
    (text : Bytes) (ms : List Message) {r : List Message}
    → inject_warning text ms ≡ ok r
    → Outcome text ms r
unfolding inject_warning
inject_warning-Outcome text ms h =
    let (r', e, f) = >>=-eq-ok (inject_last text (reverse_onto ms [])) _ h in
    last-Outcome text ms (reverse_onto ms []) refl e (ok-injective f)

-- A warning that was injected once is not injected again into the history that results.
pub inject_warning_idem :
    (text : Bytes) (ms : List Message) {r : List Message}
    → inject_warning text ms ≡ ok r
    → inject_warning text r ≡ ok r
unfolding inject_warning reverse_onto
inject_warning_idem text ms h =
    let (r', i, e) = inject_warning_run text ms h in
    subst (λ x. inject_warning text x ≡ ok x) e
      (rw (reverse_onto_involutive r' [], inject_last-again i) refl)
