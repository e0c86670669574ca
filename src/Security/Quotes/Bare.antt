-- ===== src/Security/Quotes/Bare.antt =====
-- The bytes that stand outside of quotes.
use tell_me_go.Base.{
  ℕ, Bool, true, false, not, ◌&&◌, ◌≡◌, refl, [], ◌∷◌, Bytes, ◌==◌, arith, if◌then◌else◌,
}
use tell_me_go.Security.Quotes.{
  advance_quote_state, pipes_quoted, raw_pipes_all_quoted, QuoteTracker, handle_backslash,
  toggle_quote, bare_newline_from, has_bare_newline, pipe, line_feed, backslash, single_quote,
  double_quote,
}

-- Where a byte stands: in the open, in single or in double quotes, or behind a backslash, which escapes
-- in the open and in double quotes.
pub data Place : Type 0 where
  in_open in_single_quotes in_double_quotes escaped_in_open escaped_in_double_quotes : Place

abbrev pub next_place : Place → ℕ → Place
next_place in_open b =
    if b == single_quote
    then in_single_quotes
    else if b == double_quote
    then in_double_quotes
    else if b == backslash
    then escaped_in_open
    else in_open
next_place in_single_quotes b = if b == single_quote then in_open else in_single_quotes
next_place in_double_quotes b =
    if b == double_quote
    then in_open
    else if b == backslash
    then escaped_in_double_quotes
    else in_double_quotes
next_place escaped_in_open b = in_open
next_place escaped_in_double_quotes b = in_double_quotes

abbrev pub is_bare : Place → Bool
is_bare in_open = true
is_bare p = false

-- Whether a byte stands in the open.
unfoldable pub has_bare : ℕ → Place → Bytes → Bool
has_bare c p [] = false
has_bare c p (b ∷ bs) =
    let rest = has_bare c (next_place p b) bs in if is_bare p && b == c then true else rest

abbrev jumps : Place → Bool
jumps escaped_in_open = true
jumps escaped_in_double_quotes = true
jumps p = false

abbrev single : Place → Bool
single in_single_quotes = true
single p = false

abbrev double : Place → Bool
double in_double_quotes = true
double escaped_in_double_quotes = true
double p = false

abbrev tracker : Place → QuoteTracker
tracker p = record { in_single = single p; in_double = double p }

advance_open :
    (b : ℕ)
    → advance_quote_state b false false
      ≡ (jumps (next_place in_open b), single (next_place in_open b), double (next_place in_open b))
unfolding advance_quote_state
advance_open b = ground arith

advance_single :
    (b : ℕ)
    → advance_quote_state b true false ≡ (
      jumps (next_place in_single_quotes b),
      single (next_place in_single_quotes b),
      double (next_place in_single_quotes b),
    )
unfolding advance_quote_state
advance_single b = ground arith

advance_double :
    (b : ℕ)
    → advance_quote_state b false true ≡ (
      jumps (next_place in_double_quotes b),
      single (next_place in_double_quotes b),
      double (next_place in_double_quotes b),
    )
unfolding advance_quote_state
advance_double b = ground arith

if-not : (a b : Bool) → (if a && true && true then false else not b) ≡ not (if a then true else b)
if-not true b = refl
if-not false b = refl

pipes_quoted-has_bare :
    (p : Place) (bs : Bytes)
    → pipes_quoted (jumps p) (single p) (double p) bs ≡ not (has_bare pipe p bs)
unfolding pipes_quoted has_bare
pipes_quoted-has_bare p [] = refl
pipes_quoted-has_bare escaped_in_open (b ∷ bs) = pipes_quoted-has_bare in_open bs
pipes_quoted-has_bare escaped_in_double_quotes (b ∷ bs) = pipes_quoted-has_bare in_double_quotes bs
pipes_quoted-has_bare in_single_quotes (b ∷ bs) =
    rw (advance_single b, pipes_quoted-has_bare (next_place in_single_quotes b) bs)
      (ground (has_bare pipe (next_place in_single_quotes b) bs, arith))
pipes_quoted-has_bare in_double_quotes (b ∷ bs) =
    rw (advance_double b, pipes_quoted-has_bare (next_place in_double_quotes b) bs)
      (ground (has_bare pipe (next_place in_double_quotes b) bs, arith))
pipes_quoted-has_bare in_open (b ∷ bs) =
    rw (advance_open b, pipes_quoted-has_bare (next_place in_open b) bs)
      (if-not (b == pipe) (has_bare pipe (next_place in_open b) bs))

tracker-next :
    (p : Place) (b : ℕ) → jumps p ≡ false → toggle_quote b (tracker p) ≡ tracker (next_place p b)
tracker-next in_open b h = ground arith
tracker-next in_single_quotes b h = ground arith
tracker-next in_double_quotes b h = ground arith
tracker-next escaped_in_open b h = cc h
tracker-next escaped_in_double_quotes b h = cc h

jumps-next :
    (p : Place) (b : ℕ)
    → jumps p ≡ false
    → (b == backslash && handle_backslash (tracker p)) ≡ jumps (next_place p b)
jumps-next in_open b h = ground arith
jumps-next in_single_quotes b h = ground arith
jumps-next in_double_quotes b h = ground arith
jumps-next escaped_in_open b h = cc h
jumps-next escaped_in_double_quotes b h = cc h

if-none : (a b : Bool) → (if a && false then true else b) ≡ b
if-none true b = refl
if-none false b = refl

if-same : (a b : Bool) → (if a && true then true else b) ≡ (if a then true else b)
if-same true b = refl
if-same false b = refl

bare_newline_from-has_bare :
    (p : Place) (bs : Bytes) → bare_newline_from (jumps p) (tracker p) bs ≡ has_bare line_feed p bs
unfolding bare_newline_from has_bare
bare_newline_from-has_bare p [] = refl
bare_newline_from-has_bare escaped_in_open (b ∷ bs) = bare_newline_from-has_bare in_open bs
bare_newline_from-has_bare escaped_in_double_quotes (b ∷ bs) =
    bare_newline_from-has_bare in_double_quotes bs
bare_newline_from-has_bare in_single_quotes (b ∷ bs) =
    rw
      (
        tracker-next in_single_quotes b refl,
        jumps-next in_single_quotes b refl,
        bare_newline_from-has_bare (next_place in_single_quotes b) bs,
      )
      (if-none (b == line_feed) (has_bare line_feed (next_place in_single_quotes b) bs))
bare_newline_from-has_bare in_double_quotes (b ∷ bs) =
    rw
      (
        tracker-next in_double_quotes b refl,
        jumps-next in_double_quotes b refl,
        bare_newline_from-has_bare (next_place in_double_quotes b) bs,
      )
      (if-none (b == line_feed) (has_bare line_feed (next_place in_double_quotes b) bs))
bare_newline_from-has_bare in_open (b ∷ bs) =
    rw
      (
        tracker-next in_open b refl,
        jumps-next in_open b refl,
        bare_newline_from-has_bare (next_place in_open b) bs,
      )
      (if-same (b == line_feed) (has_bare line_feed (next_place in_open b) bs))

-- The scan that looks for a pipe outside of quotes and the scan that looks for a newline there read the
-- quotes alike: both find what they look for just where it stands in the open, neither inside of single
-- or double quotes nor behind a backslash that escapes.
pub raw_pipes_all_quoted-has_bare_newline :
    (raw : Bytes)
    → (raw_pipes_all_quoted raw ≡ not (has_bare pipe in_open raw))
      × (has_bare_newline raw ≡ has_bare line_feed in_open raw)
unfolding raw_pipes_all_quoted has_bare_newline
raw_pipes_all_quoted-has_bare_newline raw =
    (pipes_quoted-has_bare in_open raw, bare_newline_from-has_bare in_open raw)
