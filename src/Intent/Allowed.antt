-- ===== src/Intent/Allowed.antt =====
-- Lemmas about the calls of runToolCall in internal/wsserver/middleware.go and what they do to the host.
use nomad_dev.Base.{
  ℕ, suc, ◌≡◌, refl, sym, ap, subst, ◌∙◌, ◌⊎◌, inl, inr, Bool, true, false, ◌&&◌, List, [], ◌∷◌,
  Option, none, Text, lit, text_eq, if◌then◌else◌, Bool-cases, Option-cases, Result-cases,
  none-≢-some, arith,
}
use nomad_dev.Auth.Scopes.{has_tool_scope}
use nomad_dev.Recovery.{should_auto_retry, consume}
use nomad_dev.Approval.Policy.{requires_approval}
use nomad_dev.Dispatch.{Call}
use nomad_dev.Dispatch.Route.{mode_audit}
use nomad_dev.Intent.{
  save, Entry, tool_call_turn, tool_result_turn, assistant_turn, Wire, Output, user_turn, ToolCall,
  FinalMessage, AssistantEvent, Stage, refused, stage, Image, ToolRun, Backends, State, Done,
}
use nomad_dev.Intent.ToolCalls.{
  is_granted, is_mutating_tool, check_call, request_approval, gates, append_tool_turns, refuse,
  dispatch_and_stream, is_host_tool, execute, run_tool_call,
}
use nomad_dev.Intent.Stages.{
  Intent, Opening, terminal, answered, closed, after_tool_call, consume_stage, error_message,
  accumulate_usage, emit_assistant_message, finish, run_stages, turn_input, window_of, fresh_turn,
  run_intent,
}

module _ {H X : Type 0} (b : Backends H X) (mode : Text) where
  -- How many approvals were asked for, and the host.
  abbrev pub Position : Type 0
  Position = ℕ × H

  abbrev pub at : State H → Position
  at s = (s.asked, s.host)

  abbrev pub is_required : Call → Bool
  is_required c = (requires_approval b.policy c.tool).0

  -- What makes a call one that may run, when `i` approvals were asked for before: its tool is in the token's scopes,
  -- its arguments are valid, it does not mutate in audit mode, and where it needs an approval the next one is granted.
  pub record IsAllowed (c : Call) (i : ℕ) : Type 0 where
    pub in_scope : has_tool_scope b.scopes c.tool ≡ true
    pub is_valid : b.validate c ≡ none
    pub keeps_audit : (text_eq mode mode_audit && is_mutating_tool b c.tool) ≡ false
    pub approved : (is_required c ≡ false) ⊎ (is_granted (b.answer i) ≡ true)

  -- The host after a call, which is the backend's own work, and the approval that it used up.
  unfoldable pub host_after : ToolCall → H → H
  host_after call h =
      if is_host_tool b call.call.tool
      then (b.host_tool h call).0
      else (b.dispatch h call.call mode).0

  abbrev pub after_call : ToolCall → Position → Position
  after_call call p = (if is_required call.call then suc p.0 else p.0, host_after call p.1)

  -- The positions that are reached by running allowed calls one after the other, and by approvals that
  -- are not granted.
  pub data Reaches : Position → Position → Type 0 where
    stays : (p : Position) → Reaches p p
    asks : (p q : Position) → Reaches (suc p.0, p.1) q → Reaches p q
    runs :
        (p q : Position) (call : ToolCall)
        → IsAllowed call.call p.0
        → Reaches (after_call call p) q
        → Reaches p q

  Reaches-trans : (p q r : Position) → Reaches p q → Reaches q r → Reaches p r
  Reaches-trans p q r (stays _) more = more
  Reaches-trans p q r (asks _ _ first) more = asks p r (Reaches-trans (suc p.0, p.1) q r first more)
  Reaches-trans p q r (runs _ _ call a first) more =
      runs p r call a (Reaches-trans (after_call call p) q r first more)

  same-Reaches : (p q : Position) → q ≡ p → Reaches p q
  same-Reaches p q e = subst (Reaches p) (sym e) (stays p)

  save-at : (e : Entry) (s : State H) → at (save b e s).0 ≡ at s
  save-at e s = elim (Bool-cases (b.saves s.appends)) [
    | inl h ↦ rw (save, h) refl
    | inr h ↦ rw (save, h) refl
  ]

  append_tool_turns-at :
      (call : ToolCall) (o : Option Output) (code msg : Text) (s : State H)
      → at (append_tool_turns b call o code msg s) ≡ at s
  unfolding append_tool_turns
  append_tool_turns-at call o code msg s =
      let first = save b (tool_call_turn call) s in
      elim (Bool-cases first.1) [
        | inl e ↦
            rw (append_tool_turns, e)
              (save-at (tool_result_turn call o code msg) first.0 ∙ save-at (tool_call_turn call) s)
        | inr e ↦ rw (append_tool_turns, e) (save-at (tool_call_turn call) s)
      ]

  check_call-none :
      (c : Call)
      → check_call b mode c ≡ none
      → (has_tool_scope b.scopes c.tool ≡ true)
        × (b.validate c ≡ none)
        × ((text_eq mode mode_audit && is_mutating_tool b c.tool) ≡ false)
  unfolding check_call
  check_call-none c h = ground arith

  execute-at :
      (pending : ℕ) (call : ToolCall) (s : State H)
      → at (execute b mode pending call s).state ≡ (s.asked, host_after call s.host)
  unfolding execute host_after dispatch_and_stream refuse
  execute-at pending call s = elim (Bool-cases (is_host_tool b call.call.tool)) [
    | inl e ↦ rw (execute, host_after, e) refl
    | inr e ↦ elim (Result-cases (b.dispatch s.host call.call mode).1) [
      | inl (chunks, f) ↦
          rw (execute, host_after, e, dispatch_and_stream, f) (append_tool_turns-at call _ _ _ _)
      | inr (x, f) ↦
          rw (execute, host_after, e, dispatch_and_stream, f) (append_tool_turns-at call _ _ _ _)
    ]
  ]

  -- The approval of a call that may run was not required, or the next one, and granted.
  pub request_approval-none :
      (pending : ℕ) (c : Call) (s : State H)
      → (request_approval b pending c s).value ≡ none
      → ((is_required c ≡ false) ⊎ (is_granted (b.answer s.asked) ≡ true))
        × (at (request_approval b pending c s).state
            ≡ (if is_required c then suc s.asked else s.asked, s.host))
  unfolding request_approval
  request_approval-none pending c s h = elim (Bool-cases (requires_approval b.policy c.tool).0) [
    | inr e ↦ (inl e, rw (request_approval, e) refl)
    | inl e ↦ elim (Result-cases (b.preview s.host c)) [
      | inr (msg, f) ↦ absurd (none-≢-some (sym (rw (request_approval, e, f) at h)))
      | inl (preview, f) ↦ elim (Bool-cases (is_granted (b.answer s.asked))) [
        | inl g ↦ (inr g, rw (request_approval, e, f) refl)
        | inr g ↦ absurd (none-≢-some (sym (rw (request_approval, e, f, g) at h)))
      ]
    ]
  ]

  request_approval-Reaches :
      (pending : ℕ) (c : Call) (s : State H)
      → Reaches (at s) (at (request_approval b pending c s).state)
  unfolding request_approval
  request_approval-Reaches pending c s = elim (Bool-cases (requires_approval b.policy c.tool).0) [
    | inr e ↦ rw (request_approval, e) (stays (at s))
    | inl e ↦ elim (Result-cases (b.preview s.host c)) [
      | inr (msg, f) ↦ rw (request_approval, e, f) (stays (at s))
      | inl (preview, f) ↦ rw (request_approval, e, f) (asks (at s) _ (stays (suc s.asked, s.host)))
    ]
  ]

  gates-Reaches :
      (pending : ℕ) (c : Call) (s : State H) → Reaches (at s) (at (gates b mode pending c s).state)
  unfolding gates
  gates-Reaches pending c s = elim (Option-cases (check_call b mode c)) [
    | inl e ↦ rw (gates, e) (request_approval-Reaches pending c s)
    | inr (r, e) ↦ rw (gates, e) (stays (at s))
  ]

  gates-IsAllowed :
      (pending : ℕ) (c : Call) (s : State H)
      → (gates b mode pending c s).value ≡ none
      → IsAllowed c s.asked
        × (at (gates b mode pending c s).state
            ≡ (if is_required c then suc s.asked else s.asked, s.host))
  unfolding gates
  gates-IsAllowed pending c s h = elim (Option-cases (check_call b mode c)) [
    | inr (r, e) ↦ absurd (none-≢-some (sym (rw (gates, e) at h)))
    | inl e ↦
        let (in_scope, is_valid, keeps_audit) = check_call-none c e in
        let (approved, where_to) = request_approval-none pending c s (rw (gates, e) at h) in
        (
          record {
            in_scope = in_scope;
            is_valid = is_valid;
            keeps_audit = keeps_audit;
            approved = approved;
          },
          rw (gates, e) where_to,
        )
  ]

  run_tool_call-Reaches :
      (call : ToolCall) (s : State H) → Reaches (at s) (at (run_tool_call b mode call s).state)
  unfolding run_tool_call refuse
  run_tool_call-Reaches call s =
      let s1 : State H = record s { next_id = suc s.next_id } in
      let asked = gates b mode s.next_id call.call s1 in
      elim (Option-cases asked.value) [
        | inr (r, e) ↦
            rw (run_tool_call, e)
              (subst (Reaches (at s))
                (sym (append_tool_turns-at call none r.code r.noted asked.state))
                (gates-Reaches s.next_id call.call s1))
        | inl e ↦
            let (allowed, there) = gates-IsAllowed s.next_id call.call s1 e in
            rw (run_tool_call, e)
              (runs (at s) _ call allowed (
                same-Reaches _ _ (
                  execute-at s.next_id call asked.state
                  ∙ ap (λ p. (p.0, host_after call p.1)) there)))
      ]

  after_tool_call-at :
      (call : ToolCall) (ran : Done H ToolRun)
      → at (after_tool_call b mode call ran).state ≡ at ran.state
  unfolding after_tool_call
  after_tool_call-at call ran = elim (Bool-cases ran.value.goes_on) [
    | inr e ↦ rw (after_tool_call, e) refl
    | inl e ↦ elim (Bool-cases (should_auto_retry ran.value.exit_code ran.value.result.error)) [
      | inr f ↦ rw (after_tool_call, e, f) refl
      | inl f ↦ elim (Bool-cases (consume ran.state.budget).1) [
        | inl g ↦ rw (after_tool_call, e, f, g) refl
        | inr g ↦ rw (after_tool_call, e, f, g) refl
      ]
    ]
  ]

  consume_stage-Reaches :
      (events : List AssistantEvent) (s : State H)
      → Reaches (at s) (at (consume_stage b mode events s).state)
  unfolding consume_stage
  consume_stage-Reaches [] s = stays (at s)
  consume_stage-Reaches (ev ∷ evs) s = elim (Option-cases ev.err) [
    | inr (x, e) ↦ rw e (stays (at s))
    | inl e ↦ elim (Bool-cases (text_eq ev.text [])) [
      | inr f ↦ rw (e, f) (consume_stage-Reaches evs (record s { seq = suc s.seq }))
      | inl f ↦ elim (Bool-cases (text_eq ev.thinking [])) [
        | inr g ↦
            rw (e, f, g)
              (consume_stage-Reaches evs (record s { thinking_seq = suc s.thinking_seq }))
        | inl g ↦ elim (Option-cases ev.usage) [
          | inr (u, h) ↦
              rw (e, f, g, h)
                (consume_stage-Reaches evs (record s { usage = accumulate_usage s.usage u }))
          | inl h ↦ elim (Option-cases ev.tool_call) [
            | inr (call, i) ↦
                rw (e, f, g, h, i)
                  (subst (Reaches (at s))
                    (sym (after_tool_call-at call (run_tool_call b mode call s)))
                    (run_tool_call-Reaches call s))
            | inl i ↦ elim (Option-cases ev.final_message) [
              | inr (m, j) ↦ rw (e, f, g, h, i, j) (stays (at s))
              | inl j ↦ rw (e, f, g, h, i, j) (consume_stage-Reaches evs s)
            ]
          ]
        ]
      ]
    ]
  ]

  finish-at : (f : FinalMessage) (s : State H) → at (finish b mode f s).0 ≡ at s
  unfolding finish
  finish-at f s = elim (Bool-cases (text_eq f.text [])) [
    | inl e ↦ rw (finish, e) refl
    | inr e ↦ rw (finish, e) (save-at (assistant_turn f.text) s)
  ]

  run_stages-Reaches : (t : Stage) (s : State H) → Reaches (at s) (at (run_stages b mode t s).0)
  unfolding run_stages
  run_stages-Reaches refused s = same-Reaches _ _ (finish-at error_message s)
  run_stages-Reaches (stage events next) s =
      let d = consume_stage b mode events s in
      Reaches-trans (at s) (at d.state) _ (consume_stage-Reaches events s)
        (elim d.value
          as (λ v. Reaches (at d.state) (
            at
              (elim v as (λ x. State H × List Wire) [
                | terminal f ↦ finish b mode f d.state
                | answered r ↦ run_stages b mode (next r) d.state
                | closed ↦ (
                  d.state,
                  emit_assistant_message [] (lit "error")
                        (lit "translator closed without final message") d.state.usage
                      ∷ [],
                )
              ]).0)) [
                | terminal f ↦ same-Reaches _ _ (finish-at f d.state)
                | answered r ↦ run_stages-Reaches (next r) d.state
                | closed ↦ stays (at d.state)
              ])

-- What an intent does to the host is what a sequence of calls does, each run by its backend: every one was in the
-- token's scopes, had valid arguments, did not mutate in audit mode, and where the policy requires an
-- approval was granted one of its own. Whatever the translator asks for.
pub run_intent-Reaches :
    {H X : Type 0} (b : Backends H X) (o : Opening) (lost : Text) (p : Intent) (images : List Image)
    (s : State H)
    → Reaches b p.mode (at b p.mode s) (at b p.mode (run_intent b o lost p images s).0)
unfolding run_intent
run_intent-Reaches b o lost p images s =
    let (s1, saved) = save b (user_turn p.text images) s in
    let same = save-at b p.mode (user_turn p.text images) s in
    elim (Bool-cases saved) [
      | inr e ↦ rw (run_intent, e) (same-Reaches b p.mode _ _ same)
      | inl e ↦ elim (Result-cases (o.load_window s1.history (window_of b o p))) [
        | inr (msg, f) ↦ rw (run_intent, e, f) (same-Reaches b p.mode _ _ same)
        | inl (window, f) ↦ elim (Result-cases (o.open_stream (turn_input b o p images window))) [
          | inr (msg, g) ↦ rw (run_intent, e, f, g) (same-Reaches b p.mode _ _ same)
          | inl (first, g) ↦
              rw (run_intent, e, f, g)
                (subst
                  (λ h.
                    Reaches b p.mode h
                      (at b p.mode (run_stages b p.mode first (fresh_turn b s1)).0))
                  same (run_stages-Reaches b p.mode first (fresh_turn b s1)))
        ]
      ]
    ]
