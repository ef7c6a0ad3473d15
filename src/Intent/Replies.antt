-- ===== src/Intent/Replies.antt =====
-- Lemmas about runToolCall of internal/wsserver/middleware.go.
use nomad_dev.Base.{
  ℕ, zero, suc, ◌≡◌, refl, sym, ap, subst, ◌∙◌, inl, inr, Bool, true, false, List, [], ◌∷◌, ◌++◌,
  append_assoc, append-nil, Text, lit, length, ltb, ok, All, All-append, Bool-cases, Option-cases,
  Result-cases, true-≢-false, none-≢-some, ◌⊎◌, some, ℤ,
}
use nomad_dev.Approval.Policy.{requires_approval}
use nomad_dev.Dispatch.{ExecChunk, Call, stdout, stderr, exit, is_exit}
use nomad_dev.Dispatch.Verify.{EndsOnce}
use nomad_dev.Intent.{
  ToolCall, Wire, command_request, command_chunk, command_result, approval_request, assistant_chunk,
  assistant_thinking, assistant_message, system_error_report, from_tool, ToolRun, Backends, State,
  Done,
}
use nomad_dev.Intent.ToolCalls.{
  Streamed, Refusal, refuse, emit_chunk, on_chunk, stream_chunks, nothing_streamed,
  dispatch_and_stream, is_host_tool, execute, request_approval, check_call, gates, run_tool_call,
}

abbrev pub is_result : Wire → Bool
is_result (command_result i code e msg) = true
is_result (command_request i tool args) = false
is_result (command_chunk i stream seq bytes) = false
is_result (approval_request i pending tool args reason preview) = false
is_result (assistant_message text reason e usage) = false
is_result (assistant_chunk seq text) = false
is_result (assistant_thinking seq text) = false
is_result (system_error_report r) = false
is_result (from_tool t) = false

abbrev pub NoResult : List Wire → Type 0
NoResult = All (λ w. is_result w ≡ false)

-- One command.result for the command `pending`, at the end, which says what the run came to.
pub record RepliesOnce (pending : ℕ) (out : List Wire) (code : ℤ) (error msg : Text) : Type 0 where
  pub before : List Wire
  pub whole : out ≡ before ++ command_result pending code error msg ∷ []
  pub none_before : NoResult before

-- The same, in terms of what a call leaves.
abbrev pub Replies : {H : Type 0} → ℕ → Done H ToolRun → Type 0
Replies pending d =
    RepliesOnce pending d.wires d.value.exit_code d.value.result.error d.value.exit_msg

pub behind-RepliesOnce :
    (pending : ℕ) (sent out : List Wire) (code : ℤ) (error msg : Text)
    → NoResult sent
    → RepliesOnce pending out code error msg
    → RepliesOnce pending (sent ++ out) code error msg
behind-RepliesOnce pending sent out code error msg q r = record {
  before = sent ++ r.before;
  whole = ap (λ t. sent ++ t) r.whole ∙ sym (append_assoc sent r.before _);
  none_before = All-append (λ w. is_result w ≡ false) sent r.before q r.none_before;
}

module _ {H X : Type 0} (b : Backends H X) where
  pub emit_chunk-NoResult :
      (fuel pending : ℕ) (stream : Text) (seq : ℕ) (bytes : Text)
      → NoResult (emit_chunk b fuel pending stream seq bytes).0
  unfolding emit_chunk
  emit_chunk-NoResult zero pending stream seq bytes = tt
  emit_chunk-NoResult (suc fuel) pending stream seq bytes =
      elim (Bool-cases (ltb 0 (length bytes))) [
        | inl e ↦ rw e (refl, emit_chunk-NoResult fuel pending stream (suc seq) _)
        | inr e ↦ rw e tt
      ]

  on_chunk-NoResult :
      (pending : ℕ) (v : Streamed) (c : ExecChunk X)
      → is_exit c ≡ false
      → NoResult (on_chunk b pending v c).0
  unfolding on_chunk
  on_chunk-NoResult pending v c h =
      (elim c.stream
          as (λ x.
            is_exit (record c { stream = x }) ≡ false
            → NoResult (on_chunk b pending v (record c { stream = x })).0) [
              | stdout ↦ λ k.
                  emit_chunk-NoResult (length c.data_of) pending (lit "stdout") v.out_seq c.data_of
              | stderr ↦ λ k.
                  emit_chunk-NoResult (length c.data_of) pending (lit "stderr") v.err_seq c.data_of
              | exit ↦ λ k. absurd (true-≢-false k)
            ])
        h

  on_exit-RepliesOnce :
      (pending : ℕ) (v : Streamed) (c : ExecChunk X)
      → is_exit c ≡ true
      → let (wires, v1) = on_chunk b pending v c in
        RepliesOnce pending wires v1.exit_code v1.exit_err_code v1.exit_msg
  unfolding on_chunk
  on_exit-RepliesOnce pending v c h =
      (elim c.stream
          as (λ x.
            is_exit (record c { stream = x }) ≡ true
            → let r = on_chunk b pending v (record c { stream = x }) in
              RepliesOnce pending r.0 r.1.exit_code r.1.exit_err_code r.1.exit_msg) [
                | stdout ↦ λ k. absurd (true-≢-false (sym k))
                | stderr ↦ λ k. absurd (true-≢-false (sym k))
                | exit ↦ λ k. record { before = []; whole = refl; none_before = tt }
              ])
        h

  stream_chunks-RepliesOnce :
      (pending : ℕ) (v : Streamed) (before : List (ExecChunk X)) (last : ExecChunk X)
      → All (λ c. is_exit c ≡ false) before
      → is_exit last ≡ true
      → let r = stream_chunks b pending v (before ++ last ∷ []) in
        RepliesOnce pending r.0 r.1.exit_code r.1.exit_err_code r.1.exit_msg
  unfolding stream_chunks
  stream_chunks-RepliesOnce pending v [] last q e =
      let r = on_exit-RepliesOnce pending v last e in
      record { before = r.before; whole = append-nil _ ∙ r.whole; none_before = r.none_before }
  stream_chunks-RepliesOnce pending v (c ∷ cs) last q e =
      behind-RepliesOnce pending (on_chunk b pending v c).0 _ _ _ _
        (on_chunk-NoResult pending v c q.0)
        (stream_chunks-RepliesOnce pending (on_chunk b pending v c).1 cs last q.1 e)

  refuse-Replies :
      (pending : ℕ) (call : ToolCall) (r : Refusal) (s : State H)
      → Replies pending (refuse b pending call r s)
  unfolding refuse
  refuse-Replies pending call r s = record { before = []; whole = refl; none_before = tt }

  pub request_approval-NoResult :
      (pending : ℕ) (c : Call) (s : State H) → NoResult (request_approval b pending c s).wires
  unfolding request_approval
  request_approval-NoResult pending c s = elim (Bool-cases (requires_approval b.policy c.tool).0) [
    | inr e ↦ rw (request_approval, e) tt
    | inl e ↦ elim (Result-cases (b.preview s.host c)) [
      | inl (preview, f) ↦ rw (request_approval, e, f) (refl, tt)
      | inr (msg, f) ↦ rw (request_approval, e, f) tt
    ]
  ]

module _ {H X : Type 0} (b : Backends H X) where
  gates-NoResult :
      (mode : Text) (pending : ℕ) (c : Call) (s : State H)
      → NoResult (gates b mode pending c s).wires
  unfolding gates
  gates-NoResult mode pending c s = elim (Option-cases (check_call b mode c)) [
    | inl e ↦ rw (gates, e) (request_approval-NoResult b pending c s)
    | inr (r, e) ↦ rw (gates, e) tt
  ]

-- What the dispatcher promises of its channels.
abbrev pub ChannelsEndOnce : {H X : Type 0} → Backends H X → Type 0
ChannelsEndOnce {H = H} {X = X} b =
    (h : H) (c : Call) (mode : Text) (chunks : List (ExecChunk X))
    → (b.dispatch h c mode).1 ≡ ok chunks
    → (last : ExecChunk X) × EndsOnce chunks last

module _ {H X : Type 0} (b : Backends H X) (channels : ChannelsEndOnce b) where
  dispatch-Replies :
      (mode : Text) (pending : ℕ) (call : ToolCall) (s : State H)
      → Replies pending (dispatch_and_stream b mode pending call s)
  unfolding dispatch_and_stream refuse
  dispatch-Replies mode pending call s = elim (Result-cases (b.dispatch s.host call.call mode).1) [
    | inr (x, e) ↦
        rw (dispatch_and_stream, e, refuse) (record { before = []; whole = refl; none_before = tt })
    | inl (chunks, e) ↦
        let (last, once) = channels s.host call.call mode chunks e in
        rw (dispatch_and_stream, e)
          (subst
            (λ cs.
              let r = stream_chunks b pending nothing_streamed cs in
              RepliesOnce pending r.0 r.1.exit_code r.1.exit_err_code r.1.exit_msg)
            (sym once.whole)
            (stream_chunks-RepliesOnce b pending nothing_streamed once.before last once.none_before
              once.ends))
  ]

-- A tool call that goes through the dispatcher, or that the checks or the approval refuse, whatever its tool, sends
-- exactly one command.result: the last of what it sends, for its own command.request, with the exit code and the error that the translator is given. The
-- dispatcher's channels are assumed to end with their one exit chunk.
pub run_tool_call-Replies :
    {H X : Type 0} (b : Backends H X) (mode : Text) (call : ToolCall) (s : State H)
    → ChannelsEndOnce b
    → (is_host_tool b call.call.tool ≡ false)
      ⊎ ((r : Refusal) × ((gates b mode s.next_id call.call
              (record s { next_id = suc s.next_id })).value
            ≡ some r))
    → Replies s.next_id (run_tool_call b mode call s)
unfolding run_tool_call execute
run_tool_call-Replies {H = H} b mode call s channels through =
    let s1 : State H = record s { next_id = suc s.next_id } in
    let asked = gates b mode s.next_id call.call s1 in
    let first = gates-NoResult b mode s.next_id call.call s1 in
    elim (Option-cases asked.value) [
      | inr (r, e) ↦
          rw (run_tool_call, e)
            (behind-RepliesOnce s.next_id (_ ∷ asked.wires) _ _ _ _ (refl, first)
              (refuse-Replies b s.next_id call r asked.state))
      | inl e ↦ elim through [
        | inr (r, f) ↦ absurd (none-≢-some (sym e ∙ f))
        | inl f ↦
            rw (run_tool_call, e, execute, f)
              (behind-RepliesOnce s.next_id (_ ∷ asked.wires) _ _ _ _ (refl, first)
                (dispatch-Replies b channels mode s.next_id call asked.state))
      ]
    ]
