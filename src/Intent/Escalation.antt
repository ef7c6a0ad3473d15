-- ===== src/Intent/Escalation.antt =====
-- The system.error_report that consumeStage of internal/wsserver/middleware.go sends when a budget is exhausted.
use nomad_dev.Base.{
  ℕ, suc, ◌≡◌, refl, sym, ap, ◌∙◌, ◌⊎◌, inl, inr, Bool, true, false, List, [], ◌∷◌, ◌++◌,
  append_assoc, Option, Text, lit, All, All-append, pos,
}
use nomad_dev.Recovery.{ErrorReport, should_auto_retry, trunc_stderr}
use nomad_dev.Intent.{
  Usage, ToolCall, Wire, command_request, command_chunk, command_result, approval_request,
  assistant_chunk, assistant_thinking, assistant_message, system_error_report, from_tool, ToolRun,
  Backends, State, Done,
}
use nomad_dev.Intent.ToolCalls.{run_tool_call}
use nomad_dev.Intent.Sends.{is_of_call}
use nomad_dev.Intent.Stages.{escalated_message}

abbrev pub is_report : Wire → Bool
is_report (system_error_report r) = true
is_report (assistant_message text reason e usage) = false
is_report (command_request i tool args) = false
is_report (command_chunk i stream seq bytes) = false
is_report (command_result i code e msg) = false
is_report (approval_request i pending tool args reason preview) = false
is_report (assistant_chunk seq text) = false
is_report (assistant_thinking seq text) = false
is_report (from_tool t) = false

abbrev pub NoReport : List Wire → Type 0
NoReport = All (λ w. is_report w ≡ false)

-- The report of a run of a tool call, at attempt `max + 1` of `max + 1`.
abbrev pub told_of : ToolCall → ToolRun → ℕ → ErrorReport
told_of call run max = record {
  tool = call.call.tool;
  original_call_id = call.id;
  exit_code = run.exit_code;
  error_code = run.result.error;
  error_message = run.exit_msg;
  stderr = trunc_stderr run.stderr_buf (pos 8192);
  attempt = pos (suc max);
  max_attempts = pos (suc max);
  escalated = true;
}

-- The last thing sent was a tool call that failed in a way that may be retried, and the report tells of it.
pub record Told {H X : Type 0} (b : Backends H X) (mode : Text) (max : ℕ) (before : List Wire)
    (report : ErrorReport) : Type 0 where
  pub call : ToolCall
  pub state : State H
  pub ran : Done H ToolRun
  pub is_run : ran ≡ run_tool_call b mode call state
  pub earlier : List Wire
  pub sent_last : before ≡ earlier ++ ran.wires
  pub retryable : should_auto_retry ran.value.exit_code ran.value.result.error ≡ true
  pub told : report ≡ told_of call ran.value max

pub Told-append :
    {H X : Type 0} (b : Backends H X) (mode : Text) (max : ℕ) (sent before : List Wire)
    (report : ErrorReport)
    → Told b mode max before report
    → Told b mode max (sent ++ before) report
Told-append b mode max sent before report t = record {
  call = t.call;
  state = t.state;
  ran = t.ran;
  is_run = t.is_run;
  earlier = sent ++ t.earlier;
  sent_last = ap (λ x. sent ++ x) t.sent_last ∙ sym (append_assoc sent t.earlier t.ran.wires);
  retryable = t.retryable;
  told = t.told;
}

-- What is promised of the envelopes of a turn: no report, or one that escalates the failure behind the last retry,
-- just before the last message, which says so.
pub record Escalates {H X : Type 0} (b : Backends H X) (mode : Text) (max : ℕ) (out : List Wire)
    : Type 0 where
  pub before : List Wire
  pub report : ErrorReport
  pub usage : Option Usage
  pub whole :
      out
      ≡ before
        ++ (system_error_report report
            ∷ assistant_message escalated_message.text (lit "error") [] usage
            ∷ [])
  pub none_before : NoReport before
  pub failure : Told b mode max before report

abbrev pub Reports : {H X : Type 0} → Backends H X → Text → ℕ → List Wire → Type 0
Reports b mode max out = NoReport out ⊎ Escalates b mode max out

pub NoReport-append : (xs ys : List Wire) → NoReport xs → NoReport ys → NoReport (xs ++ ys)
NoReport-append xs ys h k = All-append (λ w. is_report w ≡ false) xs ys h k

pub Reports-append :
    {H X : Type 0} (b : Backends H X) (mode : Text) (max : ℕ) (xs ys : List Wire)
    → NoReport xs
    → Reports b mode max ys
    → Reports b mode max (xs ++ ys)
Reports-append b mode max xs ys h (inl k) = inl (NoReport-append xs ys h k)
Reports-append b mode max xs ys h (inr k) = inr (record {
  before = xs ++ k.before;
  report = k.report;
  usage = k.usage;
  whole = ap (λ t. xs ++ t) k.whole ∙ sym (append_assoc xs k.before _);
  none_before = NoReport-append xs k.before h k.none_before;
  failure = Told-append b mode max xs k.before k.report k.failure;
})

pub not_report : (w : Wire) → is_of_call w ≡ true → is_report w ≡ false
not_report (assistant_message text reason e usage) h = refl
not_report (command_request i tool args) h = refl
not_report (command_chunk i stream seq bytes) h = refl
not_report (command_result i code e msg) h = refl
not_report (approval_request i pending tool args reason preview) h = refl
not_report (assistant_chunk seq text) h = refl
not_report (assistant_thinking seq text) h = refl
not_report (system_error_report r) h = absurd (cc h)
not_report (from_tool t) h = refl
