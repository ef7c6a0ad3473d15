-- ===== src/Intent/ToolCalls.antt =====
-- One tool call: runToolCall, requestApproval and appendToolTurns of internal/wsserver/middleware.go, classifyExit,
-- classifyApprovalErr and emitChunk of internal/wsserver/sandbox.go, IsMutatingTool of internal/middleware/service.go.
use nomad_dev.Base.{
  ℕ, zero, suc, ◌*◌, Bool, true, false, not, ◌&&◌, ◌||◌, List, [], ◌∷◌, ◌++◌, map, Option, none,
  some, Text, lit, text_eq, has_prefix, length, take, drop, ltb, if◌then◌else◌, ok, err, ℤ, pos,
  negsuc,
}
use nomad_dev.Auth.Scopes.{has_tool_scope, github_prefix}
use nomad_dev.Approval.Policy.{requires_approval}
use nomad_dev.Dispatch.{Call, ExecChunk, stdout, stderr, exit}
use nomad_dev.Dispatch.Route.{mode_audit, is_mutating_base_tool}
use nomad_dev.Intent.{
  ToolCall, Output, tool_call_turn, tool_result_turn, Wire, command_request, command_chunk,
  command_result, approval_request, from_tool, deadline_exceeded, canceled, sandbox_canceled,
  bad_request, out_of_memory, image_pull, Answer, granted, approval_denied, approval_timeout,
  context_canceled, other_error, ToolRun, Backends, State, Done, save,
}

abbrev pub max_chunk_size : ℕ
max_chunk_size = 16 * 1024

abbrev pub err_timeout : Text
err_timeout = lit "sandbox_timeout"

abbrev pub err_oom : Text
err_oom = lit "sandbox_oom"

abbrev pub err_image_pull : Text
err_image_pull = lit "sandbox_image_pull"

abbrev pub err_bad_request : Text
err_bad_request = lit "sandbox_bad_request"

abbrev pub err_internal : Text
err_internal = lit "sandbox_internal"

abbrev pub err_canceled : Text
err_canceled = lit "sandbox_canceled"

abbrev pub err_unauthorized : Text
err_unauthorized = lit "sandbox_unauthorized"

-- Why a call is refused: the code, the message, the message for the history, and whether the turn goes on.
pub record Refusal : Type 0 where
  pub code : Text
  pub msg : Text
  pub noted : Text
  pub goes_on : Bool

abbrev refusal : Text → Text → Refusal
refusal code msg = record { code = code; msg = msg; noted = msg; goes_on = true }

unfoldable pub classify_approval_err : Answer → Text × Text
classify_approval_err approval_denied = (err_unauthorized, lit "approval denied")
classify_approval_err approval_timeout = (err_unauthorized, lit "approval timed out")
classify_approval_err context_canceled = (err_canceled, lit "client disconnected")
classify_approval_err other_error = (err_unauthorized, lit "approval failed")
classify_approval_err granted = (err_unauthorized, lit "approval failed")

abbrev pub is_granted : Answer → Bool
is_granted granted = true
is_granted approval_denied = false
is_granted approval_timeout = false
is_granted context_canceled = false
is_granted other_error = false

abbrev pub is_canceled : Answer → Bool
is_canceled granted = false
is_canceled approval_denied = false
is_canceled approval_timeout = false
is_canceled context_canceled = true
is_canceled other_error = false

-- The variables of the loop over the channel.
pub record Streamed : Type 0 where
  pub out_buf : Text
  pub err_buf : Text
  pub out_seq : ℕ
  pub err_seq : ℕ
  pub exit_code : ℤ
  pub exit_err_code : Text
  pub exit_msg : Text

abbrev pub nothing_streamed : Streamed
nothing_streamed = record {
  out_buf = [];
  err_buf = [];
  out_seq = 0;
  err_seq = 0;
  exit_code = pos 0;
  exit_err_code = [];
  exit_msg = [];
}

module _ {H X : Type 0} (b : Backends H X) where
  unfoldable pub is_mutating_tool : Text → Bool
  is_mutating_tool name =
      if is_mutating_base_tool name
      then true
      else if has_prefix name github_prefix
      then (elim b.destructive_github [ some is_destructive ↦ is_destructive name | none ↦ false ])
      else false

  unfoldable pub classify_exit : ExecChunk X → ℤ × Text × Text
  classify_exit c = elim c.error [
    | none ↦ (c.exit_code, [], [])
    | some e ↦
        if b.is deadline_exceeded e
        then (negsuc 0, err_timeout, lit "exec timed out")
        else if b.is canceled e || b.is sandbox_canceled e
        then (negsuc 0, err_canceled, lit "client disconnected")
        else if b.is bad_request e
        then (negsuc 0, err_bad_request, b.message e)
        else if b.is out_of_memory e
        then (negsuc 0, err_oom, b.message e)
        else if b.is image_pull e
        then (negsuc 0, err_image_pull, b.message e)
        else (negsuc 0, err_internal, b.message e)
  ]

  -- Steps 1a, 2 and 2a of runToolCall.
  unfoldable pub check_call : Text → Call → Option Refusal
  unfolding is_mutating_tool
  check_call mode c =
      let no_scope = lit "token lacks tools:" ++ c.tool ++ lit " scope" in
      if not (has_tool_scope b.scopes c.tool)
      then some (record {
        code = err_unauthorized;
        msg = no_scope;
        noted = lit "scope-deny";
        goes_on = true;
      })
      else elim (b.validate c) [
        | some msg ↦ some (refusal err_bad_request msg)
        | none ↦
            if text_eq mode mode_audit && is_mutating_tool c.tool
            then some (
                refusal err_unauthorized
                  (lit "tool " ++ c.tool ++ lit " is disabled in audit mode"))
            else none
      ]

  -- requestApproval, with `pending` the number of the command.request.
  unfoldable pub request_approval : ℕ → Call → State H → Done H (Option Refusal)
  unfolding classify_approval_err
  request_approval pending c s =
      let (required, reason) = requires_approval b.policy c.tool in
      if not required
      then record { state = s; wires = []; value = none }
      else elim (b.preview s.host c) [
        | err msg ↦ record { state = s; wires = []; value = some (refusal err_bad_request msg) }
        | ok preview ↦
            let answer = b.answer s.asked in
            let (code, msg) = classify_approval_err answer in
            record {
              state = record s { next_id = suc s.next_id; asked = suc s.asked };
              wires =
                  approval_request s.next_id pending c.tool (b.redact_args c.args) reason preview
                  ∷ [];
              value =
                  if is_granted answer
                  then none
                  else some (record {
                    code = code;
                    msg = msg;
                    noted = msg;
                    goes_on = not (is_canceled answer);
                  });
            }
      ]

  unfoldable pub append_tool_turns : ToolCall → Option Output → Text → Text → State H → State H
  append_tool_turns call output code msg s =
      let (s1, saved) = save b (tool_call_turn call) s in
      if saved then (save b (tool_result_turn call output code msg) s1).0 else s1

  -- emitChunk, over what is left of the data; each round takes a byte at least, so its length is enough fuel. The
  -- value is the next number of the stream.
  unfoldable pub emit_chunk : ℕ → ℕ → Text → ℕ → Text → List Wire × ℕ
  emit_chunk zero pending stream seq bytes = ([], seq)
  emit_chunk (suc fuel) pending stream seq bytes =
      let (rest, next) = emit_chunk fuel pending stream (suc seq) (drop max_chunk_size bytes) in
      if ltb 0 (length bytes)
      then (
        command_chunk pending stream seq (b.to_valid_utf8 (take max_chunk_size bytes)) ∷ rest,
        next,
      )
      else ([], seq)

  -- One round of step 5.
  unfoldable pub on_chunk : ℕ → Streamed → ExecChunk X → List Wire × Streamed
  unfolding classify_exit emit_chunk
  on_chunk pending v c = elim c.stream [
    | stdout ↦
        let (wires, next) =
          emit_chunk (length c.data_of) pending (lit "stdout") v.out_seq c.data_of in
        (wires, record v { out_buf = v.out_buf ++ c.data_of; out_seq = next })
    | stderr ↦
        let (wires, next) =
          emit_chunk (length c.data_of) pending (lit "stderr") v.err_seq c.data_of in
        (wires, record v { err_buf = v.err_buf ++ c.data_of; err_seq = next })
    | exit ↦
        let (code, err_code, msg) = classify_exit c in
        (
          command_result pending code err_code msg ∷ [],
          record v { exit_code = code; exit_err_code = err_code; exit_msg = msg },
        )
  ]

  unfoldable pub stream_chunks : ℕ → Streamed → List (ExecChunk X) → List Wire × Streamed
  unfolding on_chunk
  stream_chunks pending v [] = ([], v)
  stream_chunks pending v (c ∷ cs) =
      let (wires, v1) = on_chunk pending v c in
      let (more, v2) = stream_chunks pending v1 cs in (wires ++ more, v2)

  -- A leg that ends before the call is run, or with no channel.
  unfoldable pub refuse : ℕ → ToolCall → Refusal → State H → Done H ToolRun
  unfolding append_tool_turns
  refuse pending call r s = record {
    state = append_tool_turns call none r.code r.noted s;
    wires = command_result pending (negsuc 0) r.code r.msg ∷ [];
    value = record {
      result = record { call_id = call.id; tool = call.call.tool; output = none; error = r.code };
      stderr_buf = [];
      exit_code = negsuc 0;
      exit_msg = r.msg;
      goes_on = r.goes_on;
    };
  }

  -- Step 6.
  abbrev pub finished : ToolCall → Streamed → State H → List Wire → Done H ToolRun
  finished call v s wires =
      let output : Output = record {
        exit_code = some v.exit_code;
        stdout = v.out_buf;
        stderr = v.err_buf;
        error_report = none;
      } in
      record {
        state = append_tool_turns call (some output) v.exit_err_code v.exit_msg s;
        wires = wires;
        value = record {
          result = record {
            call_id = call.id;
            tool = call.call.tool;
            output = some output;
            error = v.exit_err_code;
          };
          stderr_buf = v.err_buf;
          exit_code = v.exit_code;
          exit_msg = v.exit_msg;
          goes_on = true;
        };
      }

  -- Steps 4 to 6.
  unfoldable pub dispatch_and_stream : Text → ℕ → ToolCall → State H → Done H ToolRun
  unfolding refuse stream_chunks
  dispatch_and_stream mode pending call s =
      let (host, sent) = b.dispatch s.host call.call mode in
      let s1 = record s { host = host } in
      elim sent [
        | err e ↦
            refuse pending call
              (refusal (if b.is bad_request e then err_bad_request else err_internal) (b.message e))
              s1
        | ok chunks ↦
            let (wires, v) = stream_chunks pending nothing_streamed chunks in
            finished call v s1 wires
      ]

  -- The tools of steps 3b to 3d, which bypass the dispatcher.
  unfoldable pub is_host_tool : Text → Bool
  is_host_tool tool =
      text_eq tool (lit "dispatch_worker_pool")
      || (text_eq tool (lit "monitor_daemon")
          || (text_eq tool (lit "stop_daemon") || text_eq tool (lit "list_daemons")))
      || text_eq tool (lit "lsp_query")

  unfoldable pub execute : Text → ℕ → ToolCall → State H → Done H ToolRun
  unfolding dispatch_and_stream is_host_tool
  execute mode pending call s =
      if is_host_tool call.call.tool
      then (let (host, wires, run) = b.host_tool s.host call in
          record { state = record s { host = host }; wires = map from_tool wires; value = run })
      else dispatch_and_stream mode pending call s

  -- Steps 1a to 3: the checks, and behind them the approval.
  unfoldable pub gates : Text → ℕ → Call → State H → Done H (Option Refusal)
  unfolding check_call request_approval
  gates mode pending c s = elim (check_call mode c) [
    | some r ↦ record { state = s; wires = []; value = some r }
    | none ↦ request_approval pending c s
  ]

  unfoldable pub run_tool_call : Text → ToolCall → State H → Done H ToolRun
  unfolding gates execute
  run_tool_call mode call s =
      let pending = s.next_id in
      let asked = gates mode pending call.call (record s { next_id = suc pending }) in
      let ran : Done H ToolRun = elim asked.value [
        | some r ↦ refuse pending call r asked.state
        | none ↦ execute mode pending call asked.state
      ] in
      record {
        state = ran.state;
        wires =
            command_request pending call.call.tool (b.redact_args call.call.args)
            ∷ (asked.wires ++ ran.wires);
        value = ran.value;
      }
