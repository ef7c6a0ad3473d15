-- ===== src/Intent/Stages.antt =====
-- A turn: runIntent, consumeStage, accumulateUsage and emitAssistantMessage of internal/wsserver/middleware.go. The
-- checks of handleUserIntent before it are not modelled.
use nomad_dev.Base.{
  true, suc, ◌+◌, Bool, not, ◌&&◌, List, [], ◌∷◌, ◌++◌, Option, none, some, Text, lit, text_eq,
  if◌then◌else◌, Result, ok, err, ℤ, pos, negsuc, ◌==◌, ◌%◌, ◌^◌, keep_if,
}
use nomad_dev.Recovery.{
  RetryBudget, ErrorReport, should_auto_retry, build_error_report, new_retry_budget, consume, reset,
  attempt, max_of,
}
use nomad_dev.Intent.{
  ToolCall, Output, ToolResult, Usage, FinalMessage, AssistantEvent, Stage, refused, stage, Image,
  Entry, user_turn, assistant_turn, Wire, assistant_chunk, assistant_thinking, assistant_message,
  system_error_report, ToolRun, Backends, State, Done, save,
}
use nomad_dev.Intent.ToolCalls.{is_mutating_tool, run_tool_call}
use nomad_dev.Dispatch.Route.{mode_audit}

-- How a stage ends: with a final message, with a result for the translator, or with its channel closed.
pub data StageEnd : Type 0 where
  terminal : FinalMessage → StageEnd
  answered : ToolResult → StageEnd
  closed : StageEnd

abbrev pub no_usage : Usage
no_usage = record { prompt_tokens = 0; candidates_tokens = 0; total_tokens = 0 }

abbrev pub is_unused : Usage → Bool
is_unused u = (u.prompt_tokens == 0) && ((u.candidates_tokens == 0) && (u.total_tokens == 0))

unfoldable pub accumulate_usage : Usage → Usage → Usage
accumulate_usage turn u = if is_unused u then turn else record {
  prompt_tokens = (turn.prompt_tokens + u.prompt_tokens) % 2 ^ 64;
  candidates_tokens = (turn.candidates_tokens + u.candidates_tokens) % 2 ^ 64;
  total_tokens = (turn.total_tokens + u.total_tokens) % 2 ^ 64;
}

-- The cost that is worked out from the usage is left out.
unfoldable pub emit_assistant_message : Text → Text → Text → Usage → Wire
emit_assistant_message text finish_reason err_msg usage =
    assistant_message text (if text_eq finish_reason [] then lit "stop" else finish_reason) err_msg
      (if is_unused usage then none else some usage)

abbrev pub error_message : FinalMessage
error_message = record { text = []; finish_reason = lit "error"; usage = no_usage }

abbrev pub escalated_message : FinalMessage
escalated_message = record {
  text = lit "exceeded NOMADDEV_MAX_AUTORETRIES; escalated to operator";
  finish_reason = lit "error";
  usage = no_usage;
}

-- `result.Output[ToolResultErrorReportKey] = report`, where a nil map is made first.
abbrev pub with_report : ErrorReport → ToolResult → ToolResult
with_report report r =
    let output : Output = elim r.output [
      | some o ↦ o
      | none ↦ record { exit_code = none; stdout = []; stderr = []; error_report = none }
    ] in
    record r { output = some (record output { error_report = some report }) }

abbrev pub report_of : ToolCall → ToolRun → Option RetryBudget → ErrorReport
report_of call run budget =
    build_error_report call.call.tool call.id run.exit_code run.result.error run.exit_msg
      run.stderr_buf (pos (attempt budget)) (pos (suc (max_of budget)))

module _ {H X : Type 0} (b : Backends H X) (mode : Text) where
  -- The branches behind runToolCall: retry, escalation, or a fresh budget.
  unfoldable pub after_tool_call : ToolCall → Done H ToolRun → Done H StageEnd
  after_tool_call call ran =
      let s = ran.state in
      let run = ran.value in
      let (budget, remaining) = consume s.budget in
      if not run.goes_on
      then record { state = s; wires = ran.wires; value = terminal error_message }
      else if should_auto_retry run.exit_code run.result.error
      then if remaining
        then record {
          state = record s { budget = budget };
          wires = ran.wires;
          value = answered (with_report (report_of call run budget) run.result);
        }
        else record {
          state = record s { budget = budget };
          wires =
              ran.wires
              ++ system_error_report (record (report_of call run budget) { escalated = true }) ∷ [];
          value = terminal escalated_message;
        }
      else record {
        state = record s { budget = reset s.budget };
        wires = ran.wires;
        value = answered run.result;
      }

  -- Sends an envelope before the rest of a stage.
  abbrev pub sending : Wire → Done H StageEnd → Done H StageEnd
  sending w d = record d { wires = w ∷ d.wires }

  -- consumeStage up to its call of resume, over the events on the channel.
  unfoldable pub consume_stage : List AssistantEvent → State H → Done H StageEnd
  unfolding after_tool_call accumulate_usage
  consume_stage [] s = record { state = s; wires = []; value = closed }
  consume_stage (ev ∷ evs) s = elim ev.err [
    | some e ↦ record { state = s; wires = []; value = terminal error_message }
    | none ↦
        let after_text = consume_stage evs (record s { seq = suc s.seq }) in
        let after_thinking = consume_stage evs (record s { thinking_seq = suc s.thinking_seq }) in
        if not (text_eq ev.text [])
        then sending (assistant_chunk s.seq ev.text) after_text
        else if not (text_eq ev.thinking [])
        then sending (assistant_thinking s.thinking_seq ev.thinking) after_thinking
        else elim ev.usage [
          | some u ↦ consume_stage evs (record s { usage = accumulate_usage s.usage u })
          | none ↦ elim ev.tool_call [
            | some call ↦ after_tool_call call (run_tool_call b mode call s)
            | none ↦ elim ev.final_message [
              | some f ↦ record {
                state = record s { usage = accumulate_usage s.usage f.usage };
                wires = [];
                value = terminal f;
              }
              | none ↦ consume_stage evs s
            ]
          ]
        ]
  ]

  -- The end of a turn, with its last envelope.
  unfoldable pub finish : FinalMessage → State H → State H × List Wire
  unfolding emit_assistant_message
  finish f s = (
    if text_eq f.text [] then s else (save b (assistant_turn f.text) s).0,
    emit_assistant_message f.text f.finish_reason [] s.usage ∷ [],
  )

  abbrev pub behind_wires : List Wire → State H × List Wire → State H × List Wire
  behind_wires sent (s, more) = (s, sent ++ more)

  -- The loop of runIntent, with resume.
  unfoldable pub run_stages : Stage → State H → State H × List Wire
  unfolding consume_stage finish
  run_stages refused s = finish error_message s
  run_stages (stage events next) s =
      let d = consume_stage events s in
      behind_wires d.wires (elim d.value [
        | terminal f ↦ finish f d.state
        | answered r ↦ run_stages (next r) d.state
        | closed ↦ (
          d.state,
          emit_assistant_message [] (lit "error") (lit "translator closed without final message")
                d.state.usage
              ∷ [],
        )
      ])

pub record TurnInput : Type 0 where
  pub user_text : Text
  pub window : List Entry
  pub system_prompt : Text
  pub tools : List Text
  pub mode : Text
  pub model : Text
  pub images : List Image

-- What a turn is opened with: the settings, the pinned files as rendered, the tools by their names, and the translator.
pub record Opening : Type 0 where
  pub window_turns : ℤ
  pub system_prompt : Text
  pub pinned : Text
  pub tools : List Text
  pub model : Text
  pub load_window : List Entry → ℤ → Result Text (List Entry)
  pub open_stream : TurnInput → Result Text Stage

unfoldable pub append_audit_instruction : Text → Text
append_audit_instruction base =
    let audit =
      lit
        "Audit mode: the tool catalogue has been restricted to read-only operations. Do not attempt to mutate the workspace, the host, or remote services. Use read_file, list_dir, search_syntax, and read-only github tools to analyze the codebase, and reply with a markdown report." in
    if text_eq base [] then audit else base ++ lit "\n\n" ++ audit

pub record Intent : Type 0 where
  pub text : Text
  pub mode : Text
  pub history_hint : ℤ

module _ {H X : Type 0} (b : Backends H X) where
  unfoldable pub available_tools_for : List Text → Text → List Text
  available_tools_for all mode =
      if text_eq mode mode_audit then keep_if (λ t. not (is_mutating_tool b t)) all else all

  abbrev pub failed : Text → State H → State H × List Wire
  failed msg s = (s, emit_assistant_message [] (lit "error") msg no_usage ∷ [])

  unfoldable pub turn_input : Opening → Intent → List Image → List Entry → TurnInput
  unfolding append_audit_instruction available_tools_for
  turn_input o p images window =
      let pinned = o.pinned ++ o.system_prompt in
      record {
        user_text = p.text;
        window = window;
        system_prompt =
            if text_eq p.mode mode_audit then append_audit_instruction pinned else pinned;
        tools = available_tools_for o.tools p.mode;
        mode = p.mode;
        model = o.model;
        images = images;
      }

  -- `windowN`.
  unfoldable pub window_of : Opening → Intent → ℤ
  window_of o p = elim p.history_hint [
    | pos n ↦ if n == 0 then o.window_turns else p.history_hint
    | negsuc n ↦ o.window_turns
  ]

  -- The variables of a turn.
  abbrev pub fresh_turn : State H → State H
  fresh_turn s = record s {
    budget = some (new_retry_budget b.max_auto_retries);
    seq = 0;
    thinking_seq = 0;
    usage = no_usage;
  }

  -- runIntent; `lost` is the error of an append that fails.
  unfoldable pub run_intent : Opening → Text → Intent → List Image → State H → State H × List Wire
  unfolding turn_input run_stages window_of
  run_intent o lost p images s =
      let (s1, saved) = save b (user_turn p.text images) s in
      if not saved then failed lost s1 else elim (o.load_window s1.history (window_of o p)) [
        | err msg ↦ failed msg s1
        | ok window ↦ elim (o.open_stream (turn_input o p images window)) [
          | err msg ↦ failed msg s1
          | ok first ↦ run_stages b p.mode first (fresh_turn s1)
        ]
      ]
