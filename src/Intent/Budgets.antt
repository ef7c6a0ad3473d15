-- ===== src/Intent/Budgets.antt =====
-- Lemmas about runToolCall of internal/wsserver/middleware.go and the retry budget of its turn.
use nomad_dev.Base.{
  ℕ, suc, ◌≡◌, refl, ◌∙◌, inl, inr, Option, none, Text, Bool-cases, Option-cases, Result-cases,
}
use nomad_dev.Approval.Policy.{requires_approval}
use nomad_dev.Dispatch.{Call}
use nomad_dev.Intent.{
  save, tool_call_turn, tool_result_turn, Entry, Output, ToolCall, Backends, State,
}
use nomad_dev.Intent.ToolCalls.{
  append_tool_turns, refuse, dispatch_and_stream, is_host_tool, execute, request_approval,
  check_call, gates, run_tool_call,
}

module _ {H X : Type 0} (b : Backends H X) (mode : Text) where
  save-budget : (e : Entry) (s : State H) → (save b e s).0.budget ≡ s.budget
  save-budget e s = elim (Bool-cases (b.saves s.appends)) [
    | inl h ↦ rw (save, h) refl
    | inr h ↦ rw (save, h) refl
  ]

  append_tool_turns-budget :
      (call : ToolCall) (o : Option Output) (code msg : Text) (s : State H)
      → (append_tool_turns b call o code msg s).budget ≡ s.budget
  unfolding append_tool_turns
  append_tool_turns-budget call o code msg s =
      let first = save b (tool_call_turn call) s in
      elim (Bool-cases first.1) [
        | inl e ↦
            rw (append_tool_turns, e)
              (save-budget (tool_result_turn call o code msg) first.0
                ∙ save-budget (tool_call_turn call) s)
        | inr e ↦ rw (append_tool_turns, e) (save-budget (tool_call_turn call) s)
      ]

  execute-budget :
      (pending : ℕ) (call : ToolCall) (s : State H)
      → (execute b mode pending call s).state.budget ≡ s.budget
  unfolding execute dispatch_and_stream refuse
  execute-budget pending call s = elim (Bool-cases (is_host_tool b call.call.tool)) [
    | inl e ↦ rw (execute, e) refl
    | inr e ↦ elim (Result-cases (b.dispatch s.host call.call mode).1) [
      | inl (chunks, f) ↦
          rw (execute, e, dispatch_and_stream, f) (append_tool_turns-budget call _ _ _ _)
      | inr (x, f) ↦ rw (execute, e, dispatch_and_stream, f) (append_tool_turns-budget call _ _ _ _)
    ]
  ]

  gates-budget :
      (pending : ℕ) (c : Call) (s : State H) → (gates b mode pending c s).state.budget ≡ s.budget
  unfolding gates request_approval
  gates-budget pending c s = elim (Option-cases (check_call b mode c)) [
    | inr (r, e) ↦ rw (gates, e) refl
    | inl e ↦ elim (Bool-cases (requires_approval b.policy c.tool).0) [
      | inr f ↦ rw (gates, e, request_approval, f) refl
      | inl f ↦ elim (Result-cases (b.preview s.host c)) [
        | inr (msg, g) ↦ rw (gates, e, request_approval, f, g) refl
        | inl (preview, g) ↦ rw (gates, e, request_approval, f, g) refl
      ]
    ]
  ]

  pub run_tool_call-budget :
      (call : ToolCall) (s : State H) → (run_tool_call b mode call s).state.budget ≡ s.budget
  unfolding run_tool_call refuse
  run_tool_call-budget call s =
      let s1 : State H = record s { next_id = suc s.next_id } in
      let asked = gates b mode s.next_id call.call s1 in
      let same : asked.state.budget ≡ s.budget = gates-budget s.next_id call.call s1 in
      elim (Option-cases asked.value) [
        | inr (r, e) ↦
            rw (run_tool_call, e)
              (append_tool_turns-budget call none r.code r.noted asked.state ∙ same)
        | inl e ↦ rw (run_tool_call, e) (execute-budget s.next_id call asked.state ∙ same)
      ]
