-- ===== src/Intent/Sends.antt =====
-- Lemmas about the envelopes that runToolCall of internal/wsserver/middleware.go sends.
use nomad_dev.Base.{
  ℕ, zero, suc, ◌≡◌, refl, inl, inr, Bool, true, false, List, [], ◌∷◌, ◌++◌, map, Text, lit, length,
  ltb, All, All-append, Bool-cases, Option-cases, Result-cases,
}
use nomad_dev.Dispatch.{ExecChunk, Call, stdout, stderr, exit}
use nomad_dev.Approval.Policy.{requires_approval}
use nomad_dev.Intent.{
  ToolCall, Wire, command_request, command_chunk, command_result, approval_request, assistant_chunk,
  assistant_thinking, assistant_message, system_error_report, from_tool, Backends, State,
}
use nomad_dev.Intent.ToolCalls.{
  Streamed, refuse, emit_chunk, on_chunk, stream_chunks, nothing_streamed, dispatch_and_stream,
  is_host_tool, execute, request_approval, check_call, gates, run_tool_call,
}

abbrev pub is_of_call : Wire → Bool
is_of_call (command_request i tool args) = true
is_of_call (command_chunk i stream seq bytes) = true
is_of_call (command_result i code e msg) = true
is_of_call (approval_request i pending tool args reason preview) = true
is_of_call (from_tool t) = true
is_of_call (assistant_message text reason e usage) = false
is_of_call (assistant_chunk seq text) = false
is_of_call (assistant_thinking seq text) = false
is_of_call (system_error_report r) = false

abbrev pub OfCall : List Wire → Type 0
OfCall = All (λ w. is_of_call w ≡ true)

append-OfCall : (xs ys : List Wire) → OfCall xs → OfCall ys → OfCall (xs ++ ys)
append-OfCall xs ys h k = All-append (λ w. is_of_call w ≡ true) xs ys h k

from_tool-OfCall : (ts : List Text) → OfCall (map from_tool ts)
from_tool-OfCall [] = tt
from_tool-OfCall (t ∷ ts) = (refl, from_tool-OfCall ts)

module _ {H X : Type 0} (b : Backends H X) where
  emit_chunk-OfCall :
      (fuel pending : ℕ) (stream : Text) (seq : ℕ) (bytes : Text)
      → OfCall (emit_chunk b fuel pending stream seq bytes).0
  unfolding emit_chunk
  emit_chunk-OfCall zero pending stream seq bytes = tt
  emit_chunk-OfCall (suc fuel) pending stream seq bytes = elim (Bool-cases (ltb 0 (length bytes))) [
    | inl e ↦ rw e (refl, emit_chunk-OfCall fuel pending stream (suc seq) _)
    | inr e ↦ rw e tt
  ]

  on_chunk-OfCall :
      (pending : ℕ) (v : Streamed) (c : ExecChunk X) → OfCall (on_chunk b pending v c).0
  unfolding on_chunk
  on_chunk-OfCall pending v c =
      elim c.stream as (λ x. OfCall (on_chunk b pending v (record c { stream = x })).0) [
        | stdout ↦ emit_chunk-OfCall (length c.data_of) pending (lit "stdout") v.out_seq c.data_of
        | stderr ↦ emit_chunk-OfCall (length c.data_of) pending (lit "stderr") v.err_seq c.data_of
        | exit ↦ (refl, tt)
      ]

  stream_chunks-OfCall :
      (pending : ℕ) (v : Streamed) (cs : List (ExecChunk X))
      → OfCall (stream_chunks b pending v cs).0
  unfolding stream_chunks
  stream_chunks-OfCall pending v [] = tt
  stream_chunks-OfCall pending v (c ∷ cs) =
      append-OfCall (on_chunk b pending v c).0
        (stream_chunks b pending (on_chunk b pending v c).1 cs).0 (on_chunk-OfCall pending v c)
        (stream_chunks-OfCall pending (on_chunk b pending v c).1 cs)

  dispatch-OfCall :
      (mode : Text) (pending : ℕ) (call : ToolCall) (s : State H)
      → OfCall (dispatch_and_stream b mode pending call s).wires
  unfolding dispatch_and_stream refuse
  dispatch-OfCall mode pending call s = elim (Result-cases (b.dispatch s.host call.call mode).1) [
    | inl (chunks, e) ↦
        rw (dispatch_and_stream, e) (stream_chunks-OfCall pending nothing_streamed chunks)
    | inr (x, e) ↦ rw (dispatch_and_stream, e) (refl, tt)
  ]

  execute-OfCall :
      (mode : Text) (pending : ℕ) (call : ToolCall) (s : State H)
      → OfCall (execute b mode pending call s).wires
  unfolding execute
  execute-OfCall mode pending call s = elim (Bool-cases (is_host_tool b call.call.tool)) [
    | inl e ↦ rw (execute, e) (from_tool-OfCall (b.host_tool s.host call).1)
    | inr e ↦ rw (execute, e) (dispatch-OfCall mode pending call s)
  ]

  request_approval-OfCall :
      (pending : ℕ) (c : Call) (s : State H) → OfCall (request_approval b pending c s).wires
  unfolding request_approval
  request_approval-OfCall pending c s = elim (Bool-cases (requires_approval b.policy c.tool).0) [
    | inr e ↦ rw (request_approval, e) tt
    | inl e ↦ elim (Result-cases (b.preview s.host c)) [
      | inl (preview, f) ↦ rw (request_approval, e, f) (refl, tt)
      | inr (msg, f) ↦ rw (request_approval, e, f) tt
    ]
  ]

  gates-OfCall :
      (mode : Text) (pending : ℕ) (c : Call) (s : State H) → OfCall (gates b mode pending c s).wires
  unfolding gates
  gates-OfCall mode pending c s = elim (Option-cases (check_call b mode c)) [
    | inl e ↦ rw (gates, e) (request_approval-OfCall pending c s)
    | inr (r, e) ↦ rw (gates, e) tt
  ]

  pub run_tool_call-OfCall :
      (mode : Text) (call : ToolCall) (s : State H) → OfCall (run_tool_call b mode call s).wires
  unfolding run_tool_call refuse
  run_tool_call-OfCall mode call s =
      let s1 : State H = record s { next_id = suc s.next_id } in
      let asked = gates b mode s.next_id call.call s1 in
      let first = gates-OfCall mode s.next_id call.call s1 in
      elim (Option-cases asked.value) [
        | inl e ↦
            rw (run_tool_call, e)
              (
                refl,
                append-OfCall asked.wires _ first (execute-OfCall mode s.next_id call asked.state),
              )
        | inr (r, e) ↦ rw (run_tool_call, e) (refl, append-OfCall asked.wires _ first (refl, tt))
      ]
