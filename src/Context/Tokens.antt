-- ===== src/Context/Tokens.antt =====
-- internal/agent/session/context/token_counter.go: the heuristic token count. `int(float64(n) / 3.2)`
-- is written as n * 5 / 16, which it equals below 2^50. The token count that the source caches in a
-- message is left out: nothing of the package reads it.
pub mod Bounds
use tell_me_go.Base.{
  ℕ, ◌+◌, ◌*◌, ◌/◌, Bool, List, [], ◌∷◌, Bytes, Option, none, some, length, ltb, if◌then◌else◌,
}
use tell_me_go.Llm.{
  Value, null, str, num, bool, obj, arr, opaque_value, Fields, end, field, Items, nil, cons, Blob,
  FunctionCall, FunctionResponse, Part, Content,
}
use tell_me_go.Context.{Message}

abbrev pub max_estimate_depth : ℕ
max_estimate_depth = 100

unfoldable mutual
  -- `estimateValueSizeInternal` and `estimateValueSizeUnguarded`.
  pub estimate_value : Value → ℕ → ℕ
  estimate_value null depth = if ltb max_estimate_depth depth then 0 else 4
  estimate_value (str s) depth = if ltb max_estimate_depth depth then 0 else length s
  estimate_value num depth = if ltb max_estimate_depth depth then 0 else 10
  estimate_value (bool b) depth = if ltb max_estimate_depth depth then 0 else 5
  estimate_value (obj fs) depth =
      if ltb max_estimate_depth depth then 0 else estimate_map fs (depth + 1)
  estimate_value (arr xs) depth =
      if ltb max_estimate_depth depth then 0 else 1 + estimate_slice xs depth
  estimate_value opaque_value depth = if ltb max_estimate_depth depth then 0 else 20

  -- `estimateMapSizeInternal`; the guard is the same at every entry.
  pub estimate_map : Fields → ℕ → ℕ
  estimate_map end depth = 0
  estimate_map (field k v fs) depth =
      if ltb max_estimate_depth depth
      then 0
      else length k + estimate_value v (depth + 1) + estimate_map fs depth

  -- The loop of `estimateSliceValueSize`.
  pub estimate_slice : Items → ℕ → ℕ
  estimate_slice nil depth = 0
  estimate_slice (cons x xs) depth = estimate_value x (depth + 1) + estimate_slice xs depth

unfoldable pub args_size : Option Fields → ℕ
args_size none = 0
args_size (some fs) = estimate_map fs 0

abbrev call_chars : Option FunctionCall → ℕ
call_chars none = 0
call_chars (some c) = length c.name + args_size c.args

abbrev response_chars : Option FunctionResponse → ℕ
response_chars none = 0
response_chars (some r) = length r.name + args_size r.response

abbrev blob_chars : Option Blob → ℕ
blob_chars none = 0
blob_chars (some b) = 160

-- `estimatePartChars`.
unfoldable pub part_chars : Option Part → ℕ
part_chars none = 0
part_chars (some p) =
    length p.text
    + call_chars p.function_call
    + response_chars p.function_response
    + blob_chars p.inline_data

unfoldable pub parts_chars : List (Option Part) → ℕ
parts_chars [] = 0
parts_chars (p ∷ ps) = part_chars p + parts_chars ps

-- `countContentTokens`.
unfoldable pub content_tokens : Message → ℕ
content_tokens none = 0
content_tokens (some m) = (parts_chars m.parts + parts_chars m.transient_parts) * 5 / 16

-- A tool declaration: the lengths of its name and description, and whether it has parameters.
pub record ToolDeclaration : Type 0 where
  pub name : Bytes
  pub description : Bytes
  pub has_parameters : Bool

unfoldable pub declaration_overhead : List ToolDeclaration → ℕ
declaration_overhead [] = 0
declaration_overhead (d ∷ ds) =
    (length d.name + length d.description) / 4
    + (if d.has_parameters then 50 else 0)
    + declaration_overhead ds

unfoldable pub history_tokens : List Message → ℕ
history_tokens [] = 0
history_tokens (m ∷ ms) = content_tokens m + history_tokens ms

-- `HeuristicTokenCounter.Count`; without a registry there are no declarations.
unfoldable pub count : List ToolDeclaration → List Message → ℕ
count declarations contents = declaration_overhead declarations + history_tokens contents + 300
