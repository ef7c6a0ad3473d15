-- ===== src/Mobile/State.antt =====
-- internal/mobile/state/state.go: the data of the store, and the payloads of internal/event/types.go
-- that the reducer reads. `F` is float64, of which the code only uses zero and addition.
use nomad_dev.Base.{ℕ, ◌*◌, Bool, false, List, [], Option, Text, lit, ℤ}
use nomad_dev.Base.Json.{Fields}

abbrev pub terminal_line_cap : ℕ
terminal_line_cap = 2000

abbrev pub partial_line_cap : ℕ
partial_line_cap = 64 * 1024

abbrev pub max_image_count : ℕ
max_image_count = 4

abbrev pub max_image_bytes : ℕ
max_image_bytes = 5 * 1024 * 1024

pub record ImageInput : Type 0 where
  pub media_type : Text
  pub content : Text

pub record CommandResultPayload : Type 0 where
  pub exit_code : ℤ
  pub duration_ms : ℤ
  pub error : Text
  pub error_message : Text

pub record CommandChunkPayload : Type 0 where
  pub stream : Text
  pub seq : ℤ
  pub text : Text

pub record HelloPayload : Type 0 where
  pub session_id : Text
  pub provider : Text
  pub model : Text
  pub available_models : List Text

pub record UsagePayload (F : Type 0) : Type 0 where
  pub prompt_tokens : ℕ
  pub candidates_tokens : ℕ
  pub total_tokens : ℕ
  pub cost_usd : F

pub record AssistantMessagePayload (F : Type 0) : Type 0 where
  pub text : Text
  pub finish_reason : Text
  pub error : Text
  pub usage : Option (UsagePayload F)

pub record CommandRequestPayload : Type 0 where
  pub tool : Text
  pub args : Fields

pub record ToolApprovalRequestPayload : Type 0 where
  pub tool : Text
  pub args : Fields
  pub reason : Text
  pub pending_command_id : Text
  pub timeout_ms : ℤ
  pub preview : Option Fields

pub record AckPayload : Type 0 where
  pub action : Text
  pub error : Text
  pub model : Text

pub record TerminalLine : Type 0 where
  pub stream : Text
  pub text : Text
  pub seq : ℕ

pub record ToolCall : Type 0 where
  pub command_id : Text
  pub tool : Text
  pub args : Fields
  pub lines : List TerminalLine
  pub line_count : ℕ
  pub stdout_partial : Text
  pub stderr_partial : Text
  pub elapsed_ms : ℤ
  pub result : Option CommandResultPayload
  pub awaiting_approval : Bool

pub record Turn : Type 0 where
  pub intent_id : Text
  pub user_text : Text
  pub user_images : List ImageInput
  pub assistant_text : Text
  pub tool_calls : List ToolCall
  pub finished : Bool
  pub finish_reason : Text
  pub error : Text

pub record ApprovalPreview : Type 0 where
  pub path : Text
  pub line_number : ℤ
  pub unified_diff : Text
  pub verify_command : Text

pub record ApprovalRequest : Type 0 where
  pub envelope_id : Text
  pub pending_command_id : Text
  pub tool : Text
  pub args : Fields
  pub reason : Text
  pub deadline_unix_ms : ℕ
  pub preview : Option ApprovalPreview

-- The token counters are int64, kept as their bit patterns.
pub record SessionTokens (F : Type 0) : Type 0 where
  pub prompt : ℕ
  pub candidates : ℕ
  pub total : ℕ
  pub cost_usd : F

pub data Screen : Type 0 where
  chat settings config : Screen

pub record State (F : Type 0) : Type 0 where
  pub server_url : Text
  pub token : Text
  pub session_id : Text
  pub status : Text
  pub screen : Screen
  pub turns : List Turn
  pub pending_approvals : List ApprovalRequest
  pub pending_images : List ImageInput
  pub provider : Text
  pub model : Text
  pub available_models : List Text
  pub session_tokens : SessionTokens F
  pub last_event_id : Text
  pub last_error : Text
  pub restart_pending : Bool

abbrev pub status_idle : Text
status_idle = lit "idle"

-- New, at the zero of float64.
unfoldable pub new_state : {F : Type 0} → F → State F
new_state zero_f = record {
  server_url = [];
  token = [];
  session_id = [];
  status = status_idle;
  screen = chat;
  turns = [];
  pending_approvals = [];
  pending_images = [];
  provider = [];
  model = [];
  available_models = [];
  session_tokens = record { prompt = 0; candidates = 0; total = 0; cost_usd = zero_f };
  last_event_id = [];
  last_error = [];
  restart_pending = false;
}
