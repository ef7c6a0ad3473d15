-- ===== src/Intent/Examples.antt =====
-- A server whose host counts the calls that write, and a conversation that asks for a failing script.
use nomad_dev.Base.{
  List, negsuc, ◌⊎◌, ℕ, zero, suc, ◌≡◌, ◌≢◌, refl, true, false, [], ◌∷◌, Option, none, some, Text,
  lit, text_eq, if◌then◌else◌, ok, pos, subst, ok-injective, inl,
}
use nomad_dev.Base.Json.{end}
use nomad_dev.Approval.Policy.{new_policy_approver, requires_approval}
use nomad_dev.Auth.Scopes.{has_tool_scope}
use nomad_dev.Recovery.{should_auto_retry, consume, new_retry_budget}
use nomad_dev.Dispatch.{Call, ExecChunk, exit}
use nomad_dev.Dispatch.Route.{is_mutating_base_tool}
use nomad_dev.Intent.{
  Wire, command_result, ToolCall, AssistantEvent, Stage, refused, stage, ToolRun, granted, Backends,
  State,
}
use nomad_dev.Intent.ToolCalls.{is_host_tool, is_granted, err_internal, run_tool_call}
use nomad_dev.Intent.Stages.{Intent, Opening, no_usage, run_intent}
use nomad_dev.Intent.Ends.{AnswersOnce, run_intent-AnswersOnce}
use nomad_dev.Intent.Allowed.{at, Reaches, run_intent-Reaches}
use nomad_dev.Intent.Escalation.{Reports}
use nomad_dev.Intent.Retries.{run_intent-Reports}
use nomad_dev.Intent.Replies.{ChannelsEndOnce, Replies, run_tool_call-Replies}
use nomad_dev.Dispatch.Verify.{EndsOnce}
use nomad_dev.Intent.Direct.{DirectServer, sends, handle_command_request}
use nomad_dev.Intent.Direct.Answered.{OneResult, handle_command_request-OneResult}
use nomad_dev.Intent.Settings.{
  UserCommand, Service, Sessions, effective_model, handle_user_command, set_model-effective_model,
}

abbrev script : ToolCall
script = record { id = lit "c1"; call = record { tool = lit "execute_script"; args = end } }

abbrev count : Call → ℕ → ℕ
count c h = if is_mutating_base_tool c.tool then suc h else h

abbrev failing : ExecChunk (Unit {0})
failing = record { stream = exit; data_of = []; exit_code = pos 1; error = none }

abbrev no_run : ToolRun
no_run = record {
  result = record { call_id = []; tool = []; output = none; error = [] };
  stderr_buf = [];
  exit_code = pos 0;
  exit_msg = [];
  goes_on = true;
}

-- Scripts need an approval, which is granted.
abbrev server : Backends ℕ (Unit {0})
server = record {
  scopes = [];
  policy = new_policy_approver (lit "execute_script" ∷ []) false 60;
  max_auto_retries = pos 1;
  validate = λ c. none;
  destructive_github = none;
  preview = λ h c. ok [];
  answer = λ i. granted;
  saves = λ i. true;
  dispatch = λ h c mode. (count c h, ok (failing ∷ []));
  host_tool = λ h call. (count call.call h, [], no_run);
  is = λ k e. false;
  message = λ e. [];
  redact_args = λ args. args;
  to_valid_utf8 = λ t. t;
}

abbrev event : AssistantEvent
event = record {
  text = [];
  thinking = [];
  tool_call = none;
  final_message = none;
  usage = none;
  err = none;
}

abbrev says : Text → AssistantEvent
says t = record event { text = t }

abbrev asks : AssistantEvent
asks = record event { tool_call = some script }

abbrev last : AssistantEvent
last = record event {
  final_message = some (record { text = lit "done"; finish_reason = []; usage = no_usage });
}

-- The model tries the script `n` times, and then gives up.
abbrev conversation : ℕ → Stage
conversation zero = stage (last ∷ []) (λ r. refused)
conversation (suc n) = stage (says (lit "running") ∷ asks ∷ []) (λ r. conversation n)

abbrev opening : Opening
opening = record {
  window_turns = pos 20;
  system_prompt = lit "You are a pair programmer.";
  pinned = [];
  tools = lit "execute_script" ∷ lit "read_file" ∷ [];
  model = lit "m";
  load_window = λ entries n. ok entries;
  open_stream = λ input. ok (conversation 2);
}

abbrev intent : Text → Intent
intent mode = record { text = lit "run the tests"; mode = mode; history_hint = pos 0 }

abbrev start : State ℕ
start = record {
  host = 0;
  history = [];
  appends = 0;
  next_id = 0;
  asked = 0;
  budget = none;
  seq = 0;
  thinking_seq = 0;
  usage = no_usage;
}

run_intent-AnswersOnce_example :
    AnswersOnce (run_intent server opening (lit "db") (intent []) [] start).1
run_intent-AnswersOnce_example =
    run_intent-AnswersOnce server opening (lit "db") (intent []) [] start

run_intent-Reaches_example :
    Reaches server []
      (at server [] start)
      (at server [] (run_intent server opening (lit "db") (intent []) [] start).0)
run_intent-Reaches_example = run_intent-Reaches server opening (lit "db") (intent []) [] start

run_intent-Reports_example :
    Reports server [] 1 (run_intent server opening (lit "db") (intent []) [] start).1
run_intent-Reports_example = run_intent-Reports server opening (lit "db") (intent []) [] start

-- Both scripts run and fail, so the second failure is reported.
ran_twice : (run_intent server opening (lit "db") (intent []) [] start).0.host ≡ 2
unfolding run_intent text_eq run_tool_call has_tool_scope requires_approval new_policy_approver
    should_auto_retry consume new_retry_budget is_mutating_base_tool
ran_twice = refl

abbrev service : Service
service = record {
  service = true;
  has_history = true;
  provider = lit "openai";
  model = lit "m";
  is_known_model = λ provider m. text_eq m (lit "n");
}

abbrev command : UserCommand
command = record { action = lit "set_model"; model = lit "n" }

abbrev sessions : Sessions (Unit {0})
sessions = record { model_overrides = []; pins = none; history = tt }

abbrev reset_history : Unit {0} → Text → Unit {0} × Option Text
reset_history h sid = (h, none)

accepted : (handle_user_command service reset_history (lit "s") (ok command) sessions).1.error ≡ []
unfolding handle_user_command text_eq
accepted = refl

set_model-effective_model_example :
    let s' = (handle_user_command service reset_history (lit "s") (ok command) sessions).0 in
    (effective_model service s' (lit "s") ≡ lit "n")
    × ((other : Text)
        → lit "s" ≢ other
        → effective_model service s' other ≡ effective_model service sessions other)
    × (s'.pins ≡ none)
    × (s'.history ≡ tt)
set_model-effective_model_example =
    set_model-effective_model service reset_history (lit "s") command sessions refl accepted

channels : ChannelsEndOnce server
channels h c mode chunks e = (
  failing,
  subst (λ cs. EndsOnce cs failing) (ok-injective e)
      (record { before = []; whole = refl; none_before = tt; ends = refl }),
)

run_tool_call-Replies_example : Replies 0 (run_tool_call server [] script start)
unfolding is_host_tool text_eq
run_tool_call-Replies_example = run_tool_call-Replies server [] script start channels (inl refl)

-- A runner that writes and closes its channel without an exit chunk.
abbrev direct : DirectServer ℕ (Unit {0})
direct = record {
  runner = some (λ h c. (suc h, ok []));
  other_command = λ h c. (h, []);
  gate_direct_commands = false;
  cap = some 2;
}

abbrev closed_early : List Wire
closed_early =
    command_result 7 (negsuc 0) err_internal (lit "runner closed channel without exit") ∷ []

sent_direct :
    (handle_command_request server direct 1 7 (ok script.call) start).1 ≡ sends closed_early
unfolding handle_command_request text_eq has_tool_scope
sent_direct = refl

handle_command_request-OneResult_example :
    OneResult server 7 closed_early
    × (((handle_command_request server direct 1 7 (ok script.call) start).0.host ≡ 0)
        ⊎ ((has_tool_scope [] (lit "execute_script") ≡ true)
            × ((false ≡ false)
                ⊎ (((requires_approval server.policy (lit "execute_script")).0 ≡ false)
                    ⊎ (is_granted granted ≡ true)))))
handle_command_request-OneResult_example =
    handle_command_request-OneResult server direct 1 7 script.call start closed_early sent_direct
