-- ===== src/Intent/Retries.antt =====
-- Lemmas about the retries of consumeStage and runIntent of internal/wsserver/middleware.go.
use nomad_dev.Base.{
  ℕ, suc, ◌≡◌, refl, sym, ap, subst, ◌∙◌, ◌⊎◌, inl, inr, true, false, List, [], ◌∷◌, ◌++◌,
  append_assoc, Text, lit, text_eq, All-implies, Bool-cases, Option-cases, Result-cases,
  at_least_zero, pos,
}
use nomad_dev.Recovery.{ErrorReport, should_auto_retry, consume, max_of, build_error_report}
use nomad_dev.Intent.{
  save, user_turn, ToolResult, ToolCall, FinalMessage, AssistantEvent, Stage, refused, stage, Image,
  Wire, system_error_report, ToolRun, Backends, State, Done,
}
use nomad_dev.Intent.ToolCalls.{run_tool_call}
use nomad_dev.Intent.Budgets.{run_tool_call-budget}
use nomad_dev.Intent.Sends.{is_of_call, run_tool_call-OfCall}
use nomad_dev.Intent.Stages.{
  sending, Intent, Opening, StageEnd, terminal, answered, closed, report_of, after_tool_call,
  consume_stage, accumulate_usage, emit_assistant_message, error_message, escalated_message, finish,
  run_stages, turn_input, window_of, fresh_turn, run_intent,
}
use nomad_dev.Intent.Attempts.{
  IsWithin, reset-IsWithin, consume-IsWithin, consume-spent, new_retry_budget-IsWithin,
}
use nomad_dev.Intent.Escalation.{
  is_report, NoReport, told_of, Told, Told-append, Reports, Reports-append, not_report,
}

-- What is promised of one stage.
pub record StageReports {H X : Type 0} (b : Backends H X) (mode : Text) (max : ℕ)
    (d : Done H StageEnd) : Type 0 where
  pub next_budget : (r : ToolResult) → d.value ≡ answered r → IsWithin max d.state.budget
  pub sent :
      NoReport d.wires
      ⊎ ((before : List Wire) × (report : ErrorReport) × (d.wires
            ≡ before ++ system_error_report report ∷ [])
          × NoReport before
          × Told b mode max before report
          × (d.value ≡ terminal escalated_message))

module _ {H X : Type 0} (b : Backends H X) (mode : Text) (max : ℕ) where
  after_tool_call-StageReports :
      (call : ToolCall) (s : State H) (ran : Done H ToolRun)
      → ran ≡ run_tool_call b mode call s
      → NoReport ran.wires
      → IsWithin max ran.state.budget
      → StageReports b mode max (after_tool_call b mode call ran)
  unfolding after_tool_call build_error_report
  after_tool_call-StageReports call s ran is_run q w = elim (Bool-cases ran.value.goes_on) [
    | inr e ↦ rw (after_tool_call, e) (record { next_budget = λ r h. w; sent = inl q })
    | inl e ↦ elim (Bool-cases (should_auto_retry ran.value.exit_code ran.value.result.error)) [
      | inr f ↦
          rw (after_tool_call, e, f)
            (record { next_budget = λ r h. reset-IsWithin max ran.state.budget w; sent = inl q })
      | inl f ↦ elim (Bool-cases (consume ran.state.budget).1) [
        | inl g ↦
            rw (after_tool_call, e, f, g)
              (record {
                next_budget = λ r h. consume-IsWithin max ran.state.budget w g;
                sent = inl q;
              })
        | inr g ↦
            let (last, allowed) = consume-spent max ran.state.budget w g in
            rw (after_tool_call, e, f, g)
              (record {
                next_budget = λ r h. absurd (cc h);
                sent = inr (
                  ran.wires,
                  record (report_of call ran.value (consume ran.state.budget).0) {
                    escalated = true;
                  },
                  refl,
                  q,
                  record {
                    call = call;
                    state = s;
                    ran = ran;
                    is_run = is_run;
                    earlier = [];
                    sent_last = refl;
                    retryable = f;
                    told =
                        ap
                          (λ n. record (told_of call ran.value max) {
                            attempt = pos n;
                            max_attempts = pos (suc (max_of (consume ran.state.budget).0));
                          })
                          last
                        ∙ ap
                            (λ n. record (told_of call ran.value max) {
                              max_attempts = pos (suc n);
                            })
                            allowed;
                  },
                  refl,
                );
              })
      ]
    ]
  ]

  -- An envelope that is no report, before the rest of a stage.
  sending-StageReports :
      (w : Wire) (d : Done H StageEnd)
      → is_report w ≡ false
      → StageReports b mode max d
      → StageReports b mode max (sending b mode w d)
  sending-StageReports w d e r = record {
    next_budget = r.next_budget;
    sent = elim r.sent [
      | inl q ↦ inl (e, q)
      | inr (before, report, whole, q, failure, ended) ↦ inr (
        w ∷ before,
        report,
        ap (λ t. w ∷ t) whole,
        (e, q),
        Told-append b mode max (w ∷ []) before report failure,
        ended,
      )
    ];
  }

  consume_stage-StageReports :
      (events : List AssistantEvent) (s : State H)
      → IsWithin max s.budget
      → StageReports b mode max (consume_stage b mode events s)
  unfolding consume_stage
  consume_stage-StageReports [] s w = record { next_budget = λ r h. w; sent = inl tt }
  consume_stage-StageReports (ev ∷ evs) s w = elim (Option-cases ev.err) [
    | inr (x, e) ↦ rw e (record { next_budget = λ r h. w; sent = inl tt })
    | inl e ↦ elim (Bool-cases (text_eq ev.text [])) [
      | inr f ↦
          rw (e, f)
            (sending-StageReports _ _ refl
              (consume_stage-StageReports evs (record s { seq = suc s.seq }) w))
      | inl f ↦ elim (Bool-cases (text_eq ev.thinking [])) [
        | inr g ↦
            rw (e, f, g)
              (sending-StageReports _ _ refl
                (consume_stage-StageReports evs (record s { thinking_seq = suc s.thinking_seq }) w))
        | inl g ↦ elim (Option-cases ev.usage) [
          | inr (u, h) ↦
              rw (e, f, g, h)
                (consume_stage-StageReports evs (record s { usage = accumulate_usage s.usage u }) w)
          | inl h ↦ elim (Option-cases ev.tool_call) [
            | inr (call, i) ↦
                rw (e, f, g, h, i)
                  (after_tool_call-StageReports call s (run_tool_call b mode call s) refl
                    (All-implies (λ x. is_of_call x ≡ true) (λ x. is_report x ≡ false) _ not_report
                      (run_tool_call-OfCall b mode call s))
                    (subst (IsWithin max) (sym (run_tool_call-budget b mode call s)) w))
            | inl i ↦ elim (Option-cases ev.final_message) [
              | inr (m, j) ↦
                  rw (e, f, g, h, i, j) (record { next_budget = λ r k. w; sent = inl tt })
              | inl j ↦ rw (e, f, g, h, i, j) (consume_stage-StageReports evs s w)
            ]
          ]
        ]
      ]
    ]
  ]

  finish-NoReport : (f : FinalMessage) (s : State H) → NoReport (finish b mode f s).1
  unfolding finish emit_assistant_message
  finish-NoReport f s = (refl, tt)

  run_stages-Reports :
      (t : Stage) (s : State H)
      → IsWithin max s.budget
      → Reports b mode max (run_stages b mode t s).1
  unfolding run_stages emit_assistant_message finish text_eq
  run_stages-Reports refused s w = inl (finish-NoReport error_message s)
  run_stages-Reports (stage events next) s w =
      let d = consume_stage b mode events s in
      let r = consume_stage-StageReports events s w in
      elim r.sent [
        | inr (before, report, whole, q, failure, ended) ↦
            rw (run_stages, ended)
              (inr (record {
                before = before;
                report = report;
                usage = _;
                whole =
                    ap (λ t. t ++ (finish b mode escalated_message d.state).1) whole
                    ∙ append_assoc before (system_error_report report ∷ []) _;
                none_before = q;
                failure = failure;
              }))
        | inl q ↦ Reports-append b mode max d.wires _ q (
            (elim d.value
                as (λ v.
                  d.value ≡ v
                  → Reports b mode max
                      (elim v as (λ x. State H × List Wire) [
                        | terminal f ↦ finish b mode f d.state
                        | answered a ↦ run_stages b mode (next a) d.state
                        | closed ↦ (
                          d.state,
                          emit_assistant_message [] (lit "error")
                                (lit "translator closed without final message") d.state.usage
                              ∷ [],
                        )
                      ]).1) [
                        | terminal f ↦ λ e. inl (finish-NoReport f d.state)
                        | answered a ↦ λ e. run_stages-Reports (next a) d.state (r.next_budget a e)
                        | closed ↦ λ e. inl (refl, tt)
                      ])
              refl)
      ]

-- A turn sends no system.error_report, or one. Right before it the turn has sent what a tool call sends that failed
-- in a way that may be retried, and the report gives that call's tool, id, exit code, error, message and stderr (cut
-- to 8192 bytes), as attempt max + 1 of max + 1, where max is the number of retries that the configuration allows,
-- and escalated. The next and last envelope is the message that ends the turn with it.
pub run_intent-Reports :
    {H X : Type 0} (b : Backends H X) (o : Opening) (lost : Text) (p : Intent) (images : List Image)
    (s : State H)
    → Reports b p.mode (at_least_zero b.max_auto_retries) (run_intent b o lost p images s).1
unfolding run_intent emit_assistant_message
run_intent-Reports b o lost p images s =
    let (s1, saved) = save b (user_turn p.text images) s in
    elim (Bool-cases saved) [
      | inr e ↦ rw (run_intent, e) (inl (refl, tt))
      | inl e ↦ elim (Result-cases (o.load_window s1.history (window_of b o p))) [
        | inr (msg, f) ↦ rw (run_intent, e, f) (inl (refl, tt))
        | inl (window, f) ↦ elim (Result-cases (o.open_stream (turn_input b o p images window))) [
          | inr (msg, g) ↦ rw (run_intent, e, f, g) (inl (refl, tt))
          | inl (first, g) ↦
              rw (run_intent, e, f, g)
                (run_stages-Reports b p.mode (at_least_zero b.max_auto_retries) first
                  (fresh_turn b s1) (new_retry_budget-IsWithin b.max_auto_retries))
        ]
      ]
    ]
