-- ===== src/Context.antt =====
-- internal/agent/session/context/contracts.go: the request that the transformers work on. A message
-- that may be nil is an `Option`; a history may be the nil slice. Diagnostics that no code of the
-- pipeline reads back (log lines, event texts) are left out.
pub mod Turns
pub mod Repair
pub mod Clean
pub mod Signatures
pub mod Transient
pub mod Events
pub mod Pruner
pub mod Summary
pub mod Gatekeeper
pub mod Tokens
pub mod Strategy
pub mod Warnings
pub mod Pipeline
pub mod Standard
pub mod Manager
use tell_me_go.Base.{ℕ, Bool, Bytes, List, Option, Slice}
use tell_me_go.Llm.{Content}

abbrev pub Message : Type 0
Message = Option Content

abbrev pub Turn : Type 0
Turn = List Content

pub record Metadata : Type 0 where
  pub original_token_count : ℕ
  pub final_token_count : ℕ
  pub final_turn_count : ℕ
  pub pruned_turns : ℕ
  pub summarized_turns : ℕ
  pub summarization_attempted : Bool
  pub maintenance_blocked : Bool
  pub warnings : List Bytes
  pub total_turns_kept : ℕ
  pub kept_by_policy : List (Bytes × ℕ)

pub record Request : Type 0 where
  pub turn : ℕ
  pub history : Slice Message
  pub metadata : Metadata
  pub persist_history : Bool
  pub recovery_from_overflow : Bool
