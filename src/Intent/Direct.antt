-- ===== src/Intent/Direct.antt =====
-- A command.request that a client sends itself: handleCommandRequest, gateDirectCommand and runExec of
-- internal/wsserver/sandbox.go. Heartbeats, which a timer sends, are left out, and the request is answered at once
-- rather than by a goroutine; `busy` slots are taken when it comes in.
pub mod Answered
use nomad_dev.Base.{
  ℕ, ◌≡◌, refl, subst, ◌⊎◌, inl, inr, Bool, true, false, not, ◌||◌, List, [], ◌∷◌, ◌++◌, Option,
  none, some, Text, lit, text_eq, length, leb, if◌then◌else◌, Result, ok, err, Bool-cases,
  Option-cases, Result-cases, ℤ, negsuc,
}
use nomad_dev.Auth.Scopes.{has_tool_scope}
use nomad_dev.Approval.Policy.{requires_approval}
use nomad_dev.Dispatch.{Call, Error, ExecChunk, stdout, stderr, exit}
use nomad_dev.Intent.{Wire, command_result, Backends, State, Done, bad_request}
use nomad_dev.Intent.ToolCalls.{
  Refusal, is_granted, emit_chunk, classify_exit, request_approval, err_bad_request, err_internal,
  err_unauthorized,
}
use nomad_dev.Intent.Allowed.{request_approval-none}
use nomad_dev.Intent.Replies.{
  RepliesOnce, NoResult, behind-RepliesOnce, emit_chunk-NoResult, request_approval-NoResult,
}

abbrev pub err_unavailable : Text
err_unavailable = lit "sandbox_unavailable"

-- What the client is told: an error event, the envelopes of a command, or those of a daemon or of the language server.
pub data Reply : Type 0 where
  reply_error : Text → Text → Reply
  sends : List Wire → Reply
  elsewhere : List Text → Reply

-- `cap` is the size of the semaphore, and none where there is none.
pub record DirectServer (H X : Type 0) : Type 0 where
  pub runner : Option (H → Call → H × Result (Error X) (List (ExecChunk X)))
  pub other_command : H → Call → H × List Text
  pub gate_direct_commands : Bool
  pub cap : Option ℕ

module _ {H X : Type 0} (b : Backends H X) where
  -- The loop of runExec over the chunks.
  unfoldable pub exec_chunks : ℕ → ℕ → ℕ → List (ExecChunk X) → List Wire
  exec_chunks pending out_seq err_seq [] =
      command_result pending (negsuc 0) err_internal (lit "runner closed channel without exit") ∷ []
  exec_chunks pending out_seq err_seq (c ∷ cs) =
      let out = emit_chunk b (length c.data_of) pending (lit "stdout") out_seq c.data_of in
      let errs = emit_chunk b (length c.data_of) pending (lit "stderr") err_seq c.data_of in
      let after_out = exec_chunks pending out.1 err_seq cs in
      let after_err = exec_chunks pending out_seq errs.1 cs in
      elim c.stream [
        | stdout ↦ out.0 ++ after_out
        | stderr ↦ errs.0 ++ after_err
        | exit ↦
            let (code, err_code, msg) = classify_exit b c in
            command_result pending code err_code msg ∷ []
      ]

  unfoldable pub run_exec :
      (H → Call → H × Result (Error X) (List (ExecChunk X)))
      → ℕ
      → Call
      → State H
      → State H × List Wire
  unfolding exec_chunks
  run_exec runner pending c s =
      let (host, sent) = runner s.host c in
      (
        record s { host = host },
        elim sent [
          | err e ↦
              command_result pending (negsuc 0)
                (if b.is bad_request e then err_bad_request else err_internal) (b.message e)
              ∷ []
          | ok chunks ↦ exec_chunks pending 0 0 chunks
        ],
      )

  -- gateDirectCommand, where it is asked for; `some` is a refusal that was sent.
  unfoldable pub gate_direct_command : Bool → ℕ → Call → State H → Done H (Option Refusal)
  gate_direct_command gated pending c s =
      if gated
      then request_approval b pending c s
      else record { state = s; wires = []; value = none }

  abbrev pub is_at_capacity : Option ℕ → ℕ → Bool
  is_at_capacity none busy = false
  is_at_capacity (some n) busy = leb n busy

  abbrev pub bypasses_runner : Text → Bool
  bypasses_runner tool =
      (text_eq tool (lit "monitor_daemon")
        || (text_eq tool (lit "stop_daemon") || text_eq tool (lit "list_daemons")))
      || text_eq tool (lit "lsp_query")

  -- The goroutine of handleCommandRequest.
  unfoldable pub gate_and_run :
      (H → Call → H × Result (Error X) (List (ExecChunk X)))
      → Bool
      → ℕ
      → Call
      → State H
      → State H × List Wire
  unfolding run_exec gate_direct_command
  gate_and_run runner gated pending c s =
      let asked = gate_direct_command gated pending c s in
      elim asked.value [
        | some r ↦ (asked.state, asked.wires ++ command_result pending (negsuc 0) r.code r.msg ∷ [])
        | none ↦
            let (s1, wires) = run_exec runner pending c asked.state in (s1, asked.wires ++ wires)
      ]

  abbrev pub answers : ℕ → Text → Text → State H → State H × Reply
  answers pending code msg s = (s, sends (command_result pending (negsuc 0) code msg ∷ []))

  unfoldable pub handle_command_request :
      DirectServer H X → ℕ → ℕ → Result Text Call → State H → State H × Reply
  unfolding gate_and_run
  handle_command_request v busy pending (err msg) s = (s, reply_error (lit "bad_envelope") msg)
  handle_command_request v busy pending (ok c) s =
      if text_eq c.tool []
      then answers pending err_bad_request (lit "missing tool") s
      else if not (has_tool_scope b.scopes c.tool)
      then answers pending err_unauthorized (lit "token lacks tools:" ++ c.tool ++ lit " scope") s
      else if bypasses_runner c.tool
      then (let (host, told) = v.other_command s.host c in
          (record s { host = host }, elsewhere told))
      else elim v.runner [
        | none ↦ (s, reply_error (lit "not_implemented") (lit "sandbox runner not configured"))
        | some runner ↦
            let (s1, wires) = gate_and_run runner v.gate_direct_commands pending c s in
            if is_at_capacity v.cap busy
            then answers pending err_unavailable (lit "sandbox at capacity") s
            else (s1, sends wires)
      ]
