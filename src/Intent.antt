-- ===== src/Intent.antt =====
-- A turn of internal/wsserver/middleware.go: what it reads, keeps and sends. A function that the server runs for a
-- turn gives what it did to the state, the envelopes that it sent, and its value. The audit log, the
-- metrics and the logger are left out.
pub mod ToolCalls
pub mod Stages
pub mod Settings
pub mod Sends
pub mod Ends
pub mod Allowed
pub mod Budgets
pub mod Attempts
pub mod Escalation
pub mod Retries
pub mod Replies
pub mod Direct
mod Examples
use nomad_dev.Base.{
  ℕ, suc, ◌+◌, Bool, true, false, List, [], ◌∷◌, ◌++◌, Option, none, some, Text, lit, Result, ℤ,
  pos,
}
use nomad_dev.Base.Json.{Fields}
use nomad_dev.Approval.Policy.{Policy}
use nomad_dev.Recovery.{RetryBudget, ErrorReport}
use nomad_dev.Dispatch.{Call, Error, ExecChunk}

pub record ToolCall : Type 0 where
  pub id : Text
  pub call : Call

-- The keys of ToolResult.Output: an empty text is an absent one.
pub record Output : Type 0 where
  pub exit_code : Option ℤ
  pub stdout : Text
  pub stderr : Text
  pub error_report : Option ErrorReport

pub record ToolResult : Type 0 where
  pub call_id : Text
  pub tool : Text
  pub output : Option Output
  pub error : Text

-- The token counts are int64, as numbers modulo 2 ^ 64.
pub record Usage : Type 0 where
  pub prompt_tokens : ℕ
  pub candidates_tokens : ℕ
  pub total_tokens : ℕ

pub record FinalMessage : Type 0 where
  pub text : Text
  pub finish_reason : Text
  pub usage : Usage

pub record AssistantEvent : Type 0 where
  pub text : Text
  pub thinking : Text
  pub tool_call : Option ToolCall
  pub final_message : Option FinalMessage
  pub usage : Option Usage
  pub err : Option Text

-- A translator's stream: the events on its channel, and what resume gives for a result, which is `refused` where it
-- fails. A conversation is a tree without infinite branches, so it is assumed that a model stops asking for tools
-- at some time.
pub data Stage : Type 0 where
  refused : Stage
  stage : List AssistantEvent → (ToolResult → Stage) → Stage

pub record Image : Type 0 where
  pub media_type : Text
  pub bytes : Text

-- What is appended to the history.
pub data Entry : Type 0 where
  user_turn : Text → List Image → Entry
  assistant_turn : Text → Entry
  tool_call_turn : ToolCall → Entry
  tool_result_turn : ToolCall → Option Output → Text → Text → Entry

-- The envelopes that are sent, with the number of the command that they answer. `from_tool` stands for those of the
-- worker pool, the daemons and the language server.
pub data Wire : Type 0 where
  command_request : ℕ → Text → Fields → Wire
  command_chunk : ℕ → Text → ℕ → Text → Wire
  command_result : ℕ → ℤ → Text → Text → Wire
  approval_request : ℕ → ℕ → Text → Fields → Text → Text → Wire
  assistant_chunk : ℕ → Text → Wire
  assistant_thinking : ℕ → Text → Wire
  assistant_message : Text → Text → Text → Option Usage → Wire
  system_error_report : ErrorReport → Wire
  from_tool : Text → Wire

-- What errors.Is is asked of the error of an exit chunk.
pub data ErrorKind : Type 0 where
  deadline_exceeded canceled sandbox_canceled bad_request out_of_memory image_pull : ErrorKind

-- What Await returns.
pub data Answer : Type 0 where
  granted approval_denied approval_timeout context_canceled other_error : Answer

-- What one tool call leaves for the loop: the last value tells whether the turn goes on.
pub record ToolRun : Type 0 where
  pub result : ToolResult
  pub stderr_buf : Text
  pub exit_code : ℤ
  pub exit_msg : Text
  pub goes_on : Bool

-- The server around a turn. `answer i` is what the i-th approval of the turn comes to, and `saves i` whether the
-- i-th append to the history succeeds.
pub record Backends (H X : Type 0) : Type 0 where
  pub scopes : List Text
  pub policy : Policy
  pub max_auto_retries : ℤ
  pub validate : Call → Option Text
  pub destructive_github : Option (Text → Bool)
  pub preview : H → Call → Result Text Text
  pub answer : ℕ → Answer
  pub saves : ℕ → Bool
  pub dispatch : H → Call → Text → H × Result (Error X) (List (ExecChunk X))
  pub host_tool : H → ToolCall → H × List Text × ToolRun
  pub is : ErrorKind → Error X → Bool
  pub message : Error X → Text
  pub redact_args : Fields → Fields
  pub to_valid_utf8 : Text → Text

pub record State (H : Type 0) : Type 0 where
  pub host : H
  pub history : List Entry
  pub appends : ℕ
  pub next_id : ℕ
  pub asked : ℕ
  pub budget : Option RetryBudget
  pub seq : ℕ
  pub thinking_seq : ℕ
  pub usage : Usage

pub record Done (H A : Type 0) : Type 0 where
  pub state : State H
  pub wires : List Wire
  pub value : A

-- `History.Append`.
abbrev pub save : {H X : Type 0} → Backends H X → Entry → State H → State H × Bool
save b entry s =
    let counted = record s { appends = suc s.appends } in
    elim (b.saves s.appends) [
      | true ↦ (record counted { history = s.history ++ entry ∷ [] }, true)
      | false ↦ (counted, false)
    ]
