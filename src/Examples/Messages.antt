-- ===== src/Examples/Messages.antt =====
-- Messages of a short session.
use tell_me_go.Errors.{Result, ok, err}
use tell_me_go.Base.{false, Bytes, codes, List, [], ◌∷◌, Option, some}
use tell_me_go.Llm.{end, FunctionCall, FunctionResponse, Part, Content, user, model, text_part}
use tell_me_go.Context.{Message, Metadata, Request}

abbrev pub say : Bytes → List (Option Part) → Content
say role parts = record {
  role = role;
  id = codes "id";
  parts = parts;
  token_count = 0;
  pinned = false;
  transient_parts = [];
}

abbrev pub hello : Part
hello = text_part (codes "hello")

abbrev pub call : FunctionCall
call = record { id = codes "c1"; name = codes "read"; args = some end }

abbrev pub call_part : Part
call_part = record hello { text = []; function_call = some call }

abbrev pub response : FunctionResponse
response = record { id = codes "c1"; name = codes "read"; response = some end }

abbrev pub response_part : Part
response_part = record hello { text = []; function_response = some response }

abbrev pub question : Content
question = say user (some hello ∷ [])

abbrev pub reply : Content
reply = say model (some hello ∷ [])

abbrev pub tool_request : Content
tool_request =
    say model (some (record call_part { thought_signature = codes "s" }) ∷ some call_part ∷ [])

abbrev pub tool_answer : Content
tool_answer = say user (some response_part ∷ [])

abbrev pub no_metadata : Metadata
no_metadata = record {
  original_token_count = 0;
  final_token_count = 0;
  final_turn_count = 0;
  pruned_turns = 0;
  summarized_turns = 0;
  summarization_attempted = false;
  maintenance_blocked = false;
  warnings = [];
  total_turns_kept = 0;
  kept_by_policy = [];
}

abbrev pub request : List Message → Request
request history = record {
  turn = 1;
  history = some history;
  metadata = no_metadata;
  persist_history = false;
  recovery_from_overflow = false;
}

-- A question, two tool calls, the answer to them, and a reply.
abbrev pub session : List Message
session = some question ∷ some tool_request ∷ some tool_answer ∷ some reply ∷ []

abbrev pub two_sessions : List Message
two_sessions =
    some question
    ∷ some tool_request
    ∷ some tool_answer
    ∷ some reply
    ∷ some question
    ∷ some reply
    ∷ []

-- What a run answers where it succeeds.
abbrev pub request_of : Result Request → Request
request_of (ok r) = r
request_of (err e) = request []

abbrev pub messages_of : Result (List Message) → List Message
messages_of (ok ms) = ms
messages_of (err e) = []
