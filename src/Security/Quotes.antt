-- ===== src/Security/Quotes.antt =====
-- internal/infrastructure/security/normalize.go and command_validator.go: the scanners that follow the
-- quotes of a command. A scan that jumps over the next byte carries a flag that says so.
pub mod Bare
pub mod Settled
use tell_me_go.Base.{
  ℕ, Bool, true, false, not, ◌&&◌, ◌||◌, List, [], ◌∷◌, Bytes, ◌==◌, if◌then◌else◌,
}

abbrev pub line_feed : ℕ
line_feed = 10

abbrev pub carriage_return : ℕ
carriage_return = 13

abbrev pub double_quote : ℕ
double_quote = 34

abbrev pub single_quote : ℕ
single_quote = 39

abbrev pub backslash : ℕ
backslash = 92

abbrev pub pipe : ℕ
pipe = 124

-- The branches of the loop of `normalize`.
pub data Branch : Type 0 where
  opens_single opens_double escapes writes : Branch

abbrev pub branch : Bool → Bool → ℕ → Branch
branch in_single in_double b =
    if b == single_quote && not in_double
    then opens_single
    else if b == double_quote && not in_single
    then opens_double
    else if b == backslash && not in_single
    then escapes
    else writes

-- What stands behind a backslash: `skipLineContinuation`.
pub data Behind : Type 0 where
  feed carriage_feed carriage escaped : Behind

unfoldable pub starts_with_feed : Bytes → Bool
starts_with_feed [] = false
starts_with_feed (b ∷ bs) = b == line_feed

abbrev pub behind : ℕ → Bytes → Behind
behind b bs =
    if b == line_feed
    then feed
    else if b == carriage_return
    then (if starts_with_feed bs then carriage_feed else carriage)
    else escaped

-- `normalize`, from inside or outside of quotes, and what it does behind a backslash.
unfoldable mutual
  pub normalize_from : Bool → Bool → Bytes → Bytes
  normalize_from s d [] = []
  normalize_from s d (b ∷ bs) = elim (branch s d b) [
    | opens_single ↦ b ∷ normalize_from (not s) d bs
    | opens_double ↦ b ∷ normalize_from s (not d) bs
    | escapes ↦ normalize_escape s d bs
    | writes ↦ b ∷ normalize_from s d bs
  ]

  -- Behind a backslash: the second byte of a pair is written as it is.
  pub normalize_escape : Bool → Bool → Bytes → Bytes
  normalize_escape s d [] = backslash ∷ []
  normalize_escape s d (b ∷ bs) = elim (behind b bs) [
    | feed ↦ normalize_from s d bs
    | carriage_feed ↦ normalize_jump s d bs
    | carriage ↦ b ∷ normalize_from s d bs
    | escaped ↦ backslash ∷ b ∷ normalize_from s d bs
  ]

  pub normalize_jump : Bool → Bool → Bytes → Bytes
  normalize_jump s d [] = []
  normalize_jump s d (b ∷ bs) = normalize_from s d bs

unfoldable pub normalize : Bytes → Bytes
normalize raw = normalize_from false false raw

-- `advanceQuoteState`: whether the next byte is jumped over, and the quotes behind this one.
unfoldable pub advance_quote_state : ℕ → Bool → Bool → Bool × Bool × Bool
advance_quote_state b s d =
    if b == backslash
    then (not s, s, d)
    else if b == single_quote
    then (false, (if d then s else not s), d)
    else if b == double_quote
    then (false, s, if s then d else not d)
    else (false, s, d)

-- `rawPipesAllQuoted`.
unfoldable pub pipes_quoted : Bool → Bool → Bool → Bytes → Bool
pipes_quoted jump s d [] = true
pipes_quoted true s d (b ∷ bs) = pipes_quoted false s d bs
pipes_quoted false s d (b ∷ bs) =
    let (jump, s', d') = advance_quote_state b s d in
    let rest = pipes_quoted jump s' d' bs in if b == pipe && not s && not d then false else rest

unfoldable pub raw_pipes_all_quoted : Bytes → Bool
raw_pipes_all_quoted raw = pipes_quoted false false false raw

-- `quoteTracker`.
pub record QuoteTracker : Type 0 where
  pub in_single : Bool
  pub in_double : Bool

abbrev pub handle_backslash : QuoteTracker → Bool
handle_backslash qt = not qt.in_single

abbrev pub toggle_quote : ℕ → QuoteTracker → QuoteTracker
toggle_quote b qt =
    if b == single_quote
    then (if qt.in_double then qt else record qt { in_single = not qt.in_single })
    else if b == double_quote
    then (if qt.in_single then qt else record qt { in_double = not qt.in_double })
    else qt

abbrev pub is_quoted : QuoteTracker → Bool
is_quoted qt = qt.in_single || qt.in_double

-- `hasBareNewline`.
unfoldable pub bare_newline_from : Bool → QuoteTracker → Bytes → Bool
bare_newline_from jump qt [] = false
bare_newline_from true qt (b ∷ bs) = bare_newline_from false qt bs
bare_newline_from false qt (b ∷ bs) =
    let rest = bare_newline_from (b == backslash && handle_backslash qt) (toggle_quote b qt) bs in
    if b == line_feed && not (is_quoted qt) then true else rest

unfoldable pub has_bare_newline : Bytes → Bool
has_bare_newline normalized =
    bare_newline_from false (record { in_single = false; in_double = false }) normalized
