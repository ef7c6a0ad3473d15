-- ===== src/Mobile/Ingest.antt =====
-- internal/mobile/state/ingest.go: the reducer of inbound envelopes. `decode` stands for
-- json.Unmarshal into the payload types (none for an error), `add_f` for the addition of float64.
use nomad_dev.Base.{
  ℕ, ◌+◌, ◌%◌, ◌^◌, true, false, not, ◌&&◌, ◌||◌, List, [], ◌∷◌, ◌++◌, Option, none, some, Text,
  lit, text_eq, ltb, if◌then◌else◌, length, ℤ, pos, negsuc, is_zero,
}
use nomad_dev.Base.Json.{Json, Fields, get, num, str_or_empty}
use nomad_dev.Event.{Envelope}
use nomad_dev.Mobile.State.{
  State, Turn, ToolCall, SessionTokens, ApprovalRequest, ApprovalPreview, HelloPayload,
  UsagePayload, AssistantMessagePayload, CommandRequestPayload, CommandChunkPayload,
  CommandResultPayload, ToolApprovalRequestPayload, AckPayload,
}
use nomad_dev.Mobile.Turns.{modify_turn, modify_call}
use nomad_dev.Mobile.Chunks.{merge_chunk_into_tool_call}

pub record Decoders (F : Type 0) : Type 0 where
  pub hello : Text → Option HelloPayload
  pub assistant_chunk : Text → Option Text
  pub assistant_message : Text → Option (AssistantMessagePayload F)
  pub command_request : Text → Option CommandRequestPayload
  pub command_chunk : Text → Option CommandChunkPayload
  pub command_result : Text → Option CommandResultPayload
  pub sandbox_heartbeat : Text → Option ℤ
  pub tool_approval_request : Text → Option ToolApprovalRequestPayload
  pub error : Text → Option Text
  pub ack : Text → Option AckPayload

abbrev add_int64 : ℕ → ℕ → ℕ
add_int64 a b = (a + b) % 2 ^ 64

abbrev non_empty_or : Text → Text → Text
non_empty_or s old = if text_eq s [] then old else s

unfoldable pub new_call : Text → CommandRequestPayload → ToolCall
new_call id p = record {
  command_id = id;
  tool = p.tool;
  args = p.args;
  lines = [];
  line_count = 0;
  stdout_partial = [];
  stderr_partial = [];
  elapsed_ms = pos 0;
  result = none;
  awaiting_approval = false;
}

abbrev as_int : Json → ℤ
as_int (num n) = n
as_int _ = pos 0

-- extractPreview; a nil map has no fields that are set, and gives nil as well.
unfoldable pub extract_preview : Option Fields → Option ApprovalPreview
extract_preview none = none
extract_preview (some raw) =
    let path = str_or_empty (get (lit "path") raw) in
    let diff = str_or_empty (get (lit "unified_diff") raw) in
    let verify = str_or_empty (get (lit "verify_command") raw) in
    let line = as_int (get (lit "line_number") raw) in
    if text_eq path [] && (text_eq diff [] && (text_eq verify [] && is_zero line))
    then none
    else some
        (record { path = path; line_number = line; unified_diff = diff; verify_command = verify })

-- `timeoutMs`, or a minute where it is not positive.
abbrev timeout_or_minute : ℤ → ℕ
timeout_or_minute (pos n) = if ltb 0 n then n else 60000
timeout_or_minute (negsuc n) = 60000

module _ {F : Type 0} where
  -- A pointer that is nil changes nothing.
  abbrev pub put_turns : State F → Option (List Turn) → State F
  put_turns st none = st
  put_turns st (some ts) = record st { turns = ts }

  unfoldable pub apply_hello : State F → Option HelloPayload → State F
  apply_hello st none = st
  apply_hello st (some p) = record st {
    session_id = p.session_id;
    provider = non_empty_or p.provider st.provider;
    model = non_empty_or p.model st.model;
    available_models =
        if ltb 0 (length p.available_models) then p.available_models else st.available_models;
    last_error = [];
    restart_pending = false;
  }

  unfoldable pub apply_assistant_chunk : State F → Text → Option Text → State F
  apply_assistant_chunk st id none = st
  apply_assistant_chunk st id (some text) =
      put_turns st
        (modify_turn id (λ t. record t { assistant_text = t.assistant_text ++ text }) st.turns)

  unfoldable pub finish_turn : AssistantMessagePayload F → Turn → Turn
  finish_turn p t = record t {
    assistant_text = non_empty_or p.text t.assistant_text;
    finish_reason = non_empty_or p.finish_reason t.finish_reason;
    error =
        if text_eq p.finish_reason (lit "error") || not (text_eq p.error [])
        then non_empty_or p.error (lit "assistant returned an error frame")
        else t.error;
    finished = true;
  }

  unfoldable pub add_usage :
      (F → F → F) → SessionTokens F → Option (UsagePayload F) → SessionTokens F
  add_usage add_f s none = s
  add_usage add_f s (some u) = record {
    prompt = add_int64 s.prompt u.prompt_tokens;
    candidates = add_int64 s.candidates u.candidates_tokens;
    total = add_int64 s.total u.total_tokens;
    cost_usd = add_f s.cost_usd u.cost_usd;
  }

  unfoldable pub apply_assistant_message :
      (F → F → F) → State F → Text → Option (AssistantMessagePayload F) → State F
  apply_assistant_message add_f st id none = st
  apply_assistant_message add_f st id (some p) = elim (modify_turn id (finish_turn p) st.turns) [
    | none ↦ st
    | some ts ↦ record st { turns = ts; session_tokens = add_usage add_f st.session_tokens p.usage }
  ]

  unfoldable pub apply_command_request :
      State F → Text → Text → Option CommandRequestPayload → State F
  apply_command_request st env_id id none = st
  apply_command_request st env_id id (some p) = put_turns st (
      modify_turn id (λ t. record t { tool_calls = t.tool_calls ++ new_call env_id p ∷ [] })
        st.turns)

  unfoldable pub apply_command_chunk : State F → Text → Option CommandChunkPayload → State F
  apply_command_chunk st id none = st
  apply_command_chunk st id (some p) =
      put_turns st (modify_call id (λ c. merge_chunk_into_tool_call c p) st.turns)

  unfoldable pub apply_command_result : State F → Text → Option CommandResultPayload → State F
  apply_command_result st id none = st
  apply_command_result st id (some p) =
      put_turns st
        (modify_call id (λ c. record c { result = some p; awaiting_approval = false }) st.turns)

  unfoldable pub apply_sandbox_heartbeat : State F → Text → Option ℤ → State F
  apply_sandbox_heartbeat st id none = st
  apply_sandbox_heartbeat st id (some elapsed) =
      put_turns st (modify_call id (λ c. record c { elapsed_ms = elapsed }) st.turns)

  unfoldable pub apply_tool_approval_request :
      ℕ → State F → Text → Option ToolApprovalRequestPayload → State F
  apply_tool_approval_request now st env_id none = st
  apply_tool_approval_request now st env_id (some p) =
      let req : ApprovalRequest = record {
        envelope_id = env_id;
        pending_command_id = p.pending_command_id;
        tool = p.tool;
        args = p.args;
        reason = p.reason;
        deadline_unix_ms = now + timeout_or_minute p.timeout_ms;
        preview = extract_preview p.preview;
      } in
      put_turns (record st { pending_approvals = st.pending_approvals ++ req ∷ [] })
        (modify_call p.pending_command_id (λ c. record c { awaiting_approval = true }) st.turns)

  unfoldable pub apply_error : State F → Option Text → State F
  apply_error st none = st
  apply_error st (some message) = record st { last_error = message }

  unfoldable pub apply_ack : State F → Option AckPayload → State F
  apply_ack st none = st
  apply_ack st (some p) =
      if text_eq p.action (lit "set_model") && (text_eq p.error [] && not (text_eq p.model []))
      then record st { model = p.model }
      else st

-- The kinds of envelope that the reducer tells apart.
pub data Kind : Type 0 where
  hello assistant_chunk assistant_message command_request command_chunk command_result : Kind
  sandbox_heartbeat tool_approval_request error ack other : Kind

unfoldable pub kind_of : Text → Kind
kind_of typ =
    if text_eq typ (lit "hello")
    then hello
    else if text_eq typ (lit "assistant.chunk")
    then assistant_chunk
    else if text_eq typ (lit "assistant.message")
    then assistant_message
    else if text_eq typ (lit "command.request")
    then command_request
    else if text_eq typ (lit "command.chunk")
    then command_chunk
    else if text_eq typ (lit "command.result")
    then command_result
    else if text_eq typ (lit "sandbox.heartbeat")
    then sandbox_heartbeat
    else if text_eq typ (lit "tool.approval.request")
    then tool_approval_request
    else if text_eq typ (lit "error")
    then error
    else if text_eq typ (lit "ack")
    then ack
    else other

module _ {F : Type 0} (add_f : F → F → F) (decode : Decoders F) where
  -- The cases of the switch in Ingest.
  unfoldable pub dispatch : ℕ → Kind → Envelope → State F → State F
  dispatch now hello env st = apply_hello st (decode.hello env.payload)
  dispatch now assistant_chunk env st =
      apply_assistant_chunk st env.correlation_id (decode.assistant_chunk env.payload)
  dispatch now assistant_message env st =
      apply_assistant_message add_f st env.correlation_id (decode.assistant_message env.payload)
  dispatch now command_request env st =
      apply_command_request st env.id env.correlation_id (decode.command_request env.payload)
  dispatch now command_chunk env st =
      apply_command_chunk st env.correlation_id (decode.command_chunk env.payload)
  dispatch now command_result env st =
      apply_command_result st env.correlation_id (decode.command_result env.payload)
  dispatch now sandbox_heartbeat env st =
      apply_sandbox_heartbeat st env.correlation_id (decode.sandbox_heartbeat env.payload)
  dispatch now tool_approval_request env st =
      apply_tool_approval_request now st env.id (decode.tool_approval_request env.payload)
  dispatch now error env st = apply_error st (decode.error env.payload)
  dispatch now ack env st = apply_ack st (decode.ack env.payload)
  dispatch now other env st = st

  unfoldable pub ingest : ℕ → Envelope → State F → State F
  ingest now env st = dispatch now (kind_of env.typ) env (record st { last_event_id = env.id })

  unfoldable pub ingest_all : List (ℕ × Envelope) → State F → State F
  ingest_all [] st = st
  ingest_all ((now, env) ∷ rest) st = ingest_all rest (ingest now env st)
