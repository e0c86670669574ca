-- ===== src/History/Lines.antt =====
-- internal/infrastructure/history/store.go: the lines of the file, how a message becomes one, and how
-- reading the file puts them together. A line is the value that its JSON stands for: the struct tags
-- of internal/domain/llm/types.go are written out, and what encoding does to the arguments of a call
-- (`map[string]interface{}`) is an argument. The older array format is left out.
pub mod Replay
use tell_me_go.Base.{
  ℕ, zero, suc, ◌+◌, Bool, false, List, [], ◌∷◌, ◌++◌, Option, none, some, Bytes, is_nil,
  if◌then◌else◌,
}
use tell_me_go.Errors.{Result, ok, err, Ctx, poll, ◌>>=◌, ◌>>◌}
use tell_me_go.Llm.{Fields, Blob, FunctionCall, FunctionResponse, Part, Content}
use tell_me_go.Llm.Clone.{clone_parts, clone_content}
use tell_me_go.Llm.Validate.{validate}
use tell_me_go.Context.{Message}

-- A line: a message, or a `historyPatch` with its index, its pin and its parts.
pub data Line : Type 0 where
  entry : Content → Line
  patch : ℕ → Option Bool → List (Option Part) → Line

-- The libraries: the asset store's `Put`, and the arguments of a call behind encoding and decoding.
pub record Codec : Type 0 where
  pub put : Bytes → Result Bytes
  pub json_args : Option Fields → Option Fields

-- A nil message is written as `null`, which is read as this one.
abbrev pub zero_content : Content
zero_content = record {
  role = [];
  id = [];
  parts = [];
  token_count = 0;
  pinned = false;
  transient_parts = [];
}

-- The loop of `applyPatch` over the parts: nil ones are left out.
unfoldable pub present_parts : List (Option Part) → List (Option Part)
present_parts [] = []
present_parts (none ∷ ps) = present_parts ps
present_parts (some p ∷ ps) = some p ∷ present_parts ps

abbrev pub pin : Option Bool → Bool → Bool
pin none pinned = pinned
pin (some b) pinned = b

abbrev pub patched : Option Bool → List (Option Part) → Content → Content
patched pinned parts c = record c {
  parts = c.parts ++ present_parts parts;
  pinned = pin pinned c.pinned;
}

-- `applyPatch`: an index out of range changes nothing.
unfoldable pub apply_patch : ℕ → Option Bool → List (Option Part) → List Content → List Content
apply_patch i pinned parts [] = []
apply_patch zero pinned parts (c ∷ cs) = patched pinned parts c ∷ cs
apply_patch (suc i) pinned parts (c ∷ cs) = c ∷ apply_patch i pinned parts cs

-- `loadJSONL`, with the messages read so far.
unfoldable pub load_lines : Ctx → List Line → List Content → Result (List Content)
load_lines ctx [] contents = ok contents
load_lines ctx (entry c ∷ ls) contents = do
  poll ctx
  load_lines ctx ls (contents ++ validate c ∷ [])
load_lines ctx (patch i pinned parts ∷ ls) contents = do
  poll ctx
  load_lines ctx ls (apply_patch i pinned parts contents)

module _ (codec : Codec) where
  unfoldable pub json_call : Option FunctionCall → Option FunctionCall
  json_call none = none
  json_call (some c) = some (record c { args = codec.json_args c.args })

  unfoldable pub json_response : Option FunctionResponse → Option FunctionResponse
  json_response none = none
  json_response (some r) = some (record r { response = codec.json_args r.response })

  unfoldable pub json_parts : List (Option Part) → List (Option Part)
  unfolding json_call json_response
  json_parts [] = []
  json_parts (none ∷ ps) = none ∷ json_parts ps
  json_parts (some p ∷ ps) =
      some (record p {
        function_call = json_call p.function_call;
        function_response = json_response p.function_response;
      })
      ∷ json_parts ps

  -- A message behind encoding and decoding: transient parts have the tag `-`.
  unfoldable pub json_content : Content → Content
  json_content c = record c { parts = json_parts c.parts; transient_parts = [] }

  -- `prepareForStorage` on a part: data goes to the asset store.
  abbrev pub offloaded : Part → Blob → Bytes → Part
  offloaded p b id = record p { asset_id = id; inline_data = some (record b { payload = [] }) }

  unfoldable pub prepare_part : Part → Option Blob → Result Part
  prepare_part p none = ok p
  prepare_part p (some b) =
      if is_nil b.payload then ok p else do id ← codec.put b.payload; ok (offloaded p b id)

  unfoldable pub prepare_parts : List (Option Part) → Result (List (Option Part))
  prepare_parts [] = ok []
  prepare_parts (none ∷ ps) = do rest ← prepare_parts ps; ok (none ∷ rest)
  prepare_parts (some p ∷ ps) = do
    prepared ← prepare_part p p.inline_data
    rest ← prepare_parts ps
    ok (some prepared ∷ rest)

  -- `prepareForStorage` and the line that is written.
  unfoldable pub entry_line : Message → Result Line
  entry_line none = ok (entry zero_content)
  entry_line (some c) = do
    let cloned = clone_content c
    parts ← prepare_parts cloned.parts
    ok (entry (json_content (record cloned { parts = parts })))

  unfoldable pub entry_lines : List Message → Result (List Line)
  entry_lines [] = ok []
  entry_lines (m ∷ ms) = do line ← entry_line m; rest ← entry_lines ms; ok (line ∷ rest)

  -- The line of `AppendParts`.
  unfoldable pub parts_line : ℕ → List (Option Part) → Result Line
  parts_line i parts = do
    prepared ← prepare_parts (clone_parts parts)
    ok (patch i none (json_parts prepared))
