-- ===== src/Llm.antt =====
-- internal/domain/llm/types.go: the messages of a conversation. A pointer that may be nil is an
-- `Option`, a string or a byte slice is its bytes, a decoded JSON value is a `Value` (a map is the
-- list of its entries, in any order).
pub mod Parts
pub mod Clone
pub mod Validate
use tell_me_go.Base.{ℕ, Bool, false, Bytes, codes, List, [], Option, none, bytes_eq}

mutual
  pub data Value : Type 0 where
    null : Value
    str : Bytes → Value
    num : Value
    bool : Bool → Value
    obj : Fields → Value
    arr : Items → Value
    opaque_value : Value

  pub data Fields : Type 0 where
    end : Fields
    field : Bytes → Value → Fields → Fields

  pub data Items : Type 0 where
    nil : Items
    cons : Value → Items → Items

pub record Blob : Type 0 where
  pub mime_type : Bytes
  pub payload : Bytes

pub record FunctionCall : Type 0 where
  pub id : Bytes
  pub name : Bytes
  pub args : Option Fields

pub record FunctionResponse : Type 0 where
  pub id : Bytes
  pub name : Bytes
  pub response : Option Fields

pub record Part : Type 0 where
  pub text : Bytes
  pub inline_data : Option Blob
  pub function_call : Option FunctionCall
  pub function_response : Option FunctionResponse
  pub is_thought : Bool
  pub thought_signature : Bytes
  pub asset_id : Bytes

pub record Content : Type 0 where
  pub role : Bytes
  pub id : Bytes
  pub parts : List (Option Part)
  pub token_count : ℕ
  pub pinned : Bool
  pub transient_parts : List (Option Part)

abbrev pub user : Bytes
user = codes "user"

abbrev pub model : Bytes
model = codes "model"

abbrev pub system : Bytes
system = codes "system"

-- `&Part{Text: text}`.
abbrev pub text_part : Bytes → Part
text_part t = record {
  text = t;
  inline_data = none;
  function_call = none;
  function_response = none;
  is_thought = false;
  thought_signature = [];
  asset_id = [];
}

abbrev pub has_role : Content → Bytes → Bool
has_role m r = bytes_eq m.role r
