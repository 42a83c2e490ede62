-- ===== src/Tool/Failure.antt =====
-- tool.rs: the classification of tool failures and the policies over them.
use pi_agent_core_rs.Prelude.{ℕ, Bool, true, Option, none, some, Text}

pub data ToolFailureDisposition : Type 0 where
  cancelled invalid_arguments recoverable retryable fatal : ToolFailureDisposition

-- A `FailureSignature` is its text.
pub record ToolFailure : Type 0 where
  pub disposition : ToolFailureDisposition
  pub signature : Option Text
  pub recovery_guidance : Option Text

-- The constructors `ToolFailure::cancelled` and so on, by the disposition.
abbrev pub plain : ToolFailureDisposition → ToolFailure
plain d = record { disposition = d; signature = none; recovery_guidance = none }

-- `ToolFailure::retryable` and `ToolFailure::fatal`.
abbrev pub signed : ToolFailureDisposition → Text → ToolFailure
signed d signature = record {
  disposition = d;
  signature = some signature;
  recovery_guidance = none;
}

-- The limit is a `NonZeroU32`.
pub record ToolFailureCircuitBreaker : Type 0 where
  pub max_consecutive_retryable_failures : Option ℕ

pub record ToolResultProjectionPolicy : Type 0 where
  pub max_content_bytes : ℕ
  pub max_details_bytes : ℕ
  pub max_total_bytes : ℕ
  pub deduplicate_repeated_errors : Bool

-- `ToolResultProjectionPolicy::default()`.
abbrev pub default_policy : ToolResultProjectionPolicy
default_policy = record {
  max_content_bytes = 65536;
  max_details_bytes = 65536;
  max_total_bytes = 131072;
  deduplicate_repeated_errors = true;
}

pub record ModelToolResult : Type 0 where
  pub content : Text
  pub is_error : Bool
