-- ===== src/Intent/Ends.antt =====
-- Lemmas about the envelopes that runIntent and consumeStage of internal/wsserver/middleware.go send.
use nomad_dev.Base.{
  ◌≡◌, refl, sym, ap, ◌∙◌, inl, inr, Bool, true, false, List, [], ◌∷◌, ◌++◌, append_assoc, Text,
  lit, text_eq, All, All-append, All-implies, Bool-cases, Option-cases, Result-cases,
}
use nomad_dev.Recovery.{should_auto_retry, consume}
use nomad_dev.Intent.{
  save, user_turn, ToolCall, FinalMessage, AssistantEvent, Stage, refused, stage, Image, Wire,
  command_request, command_chunk, command_result, approval_request, assistant_chunk,
  assistant_thinking, assistant_message, system_error_report, from_tool, ToolRun, Backends, State,
  Done,
}
use nomad_dev.Intent.ToolCalls.{run_tool_call}
use nomad_dev.Intent.Sends.{is_of_call, run_tool_call-OfCall}
use nomad_dev.Intent.Stages.{
  Intent, Opening, terminal, answered, closed, after_tool_call, consume_stage,
  emit_assistant_message, error_message, finish, run_stages, turn_input, window_of, run_intent,
}

abbrev pub is_final : Wire → Bool
is_final (assistant_message text reason e usage) = true
is_final (command_request i tool args) = false
is_final (command_chunk i stream seq bytes) = false
is_final (command_result i code e msg) = false
is_final (approval_request i pending tool args reason preview) = false
is_final (assistant_chunk seq text) = false
is_final (assistant_thinking seq text) = false
is_final (system_error_report r) = false
is_final (from_tool t) = false

abbrev pub Quiet : List Wire → Type 0
Quiet = All (λ w. is_final w ≡ false)

-- One last message, and no other before it.
pub record AnswersOnce (out : List Wire) : Type 0 where
  pub before : List Wire
  pub last : Wire
  pub whole : out ≡ before ++ last ∷ []
  pub none_before : Quiet before
  pub ends : is_final last ≡ true

Quiet-append : (xs ys : List Wire) → Quiet xs → Quiet ys → Quiet (xs ++ ys)
Quiet-append xs ys h k = All-append (λ w. is_final w ≡ false) xs ys h k

not_final : (w : Wire) → is_of_call w ≡ true → is_final w ≡ false
not_final (assistant_message text reason e usage) h = absurd (cc h)
not_final (command_request i tool args) h = refl
not_final (command_chunk i stream seq bytes) h = refl
not_final (command_result i code e msg) h = refl
not_final (approval_request i pending tool args reason preview) h = refl
not_final (assistant_chunk seq text) h = refl
not_final (assistant_thinking seq text) h = refl
not_final (system_error_report r) h = refl
not_final (from_tool t) h = refl

module _ {H X : Type 0} (b : Backends H X) where
  run_tool_call-Quiet :
      (mode : Text) (call : ToolCall) (s : State H) → Quiet (run_tool_call b mode call s).wires
  run_tool_call-Quiet mode call s =
      All-implies (λ w. is_of_call w ≡ true) (λ w. is_final w ≡ false) _ not_final
        (run_tool_call-OfCall b mode call s)

  module _ (mode : Text) where
    after_tool_call-Quiet :
        (call : ToolCall) (ran : Done H ToolRun)
        → Quiet ran.wires
        → Quiet (after_tool_call b mode call ran).wires
    unfolding after_tool_call
    after_tool_call-Quiet call ran q = elim (Bool-cases ran.value.goes_on) [
      | inr e ↦ rw (after_tool_call, e) q
      | inl e ↦ elim (Bool-cases (should_auto_retry ran.value.exit_code ran.value.result.error)) [
        | inr f ↦ rw (after_tool_call, e, f) q
        | inl f ↦ elim (Bool-cases (consume ran.state.budget).1) [
          | inl g ↦ rw (after_tool_call, e, f, g) q
          | inr g ↦ rw (after_tool_call, e, f, g) (Quiet-append ran.wires _ q (refl, tt))
        ]
      ]
    ]

    consume_stage-Quiet :
        (events : List AssistantEvent) (s : State H) → Quiet (consume_stage b mode events s).wires
    unfolding consume_stage
    consume_stage-Quiet [] s = tt
    consume_stage-Quiet (ev ∷ evs) s = elim (Option-cases ev.err) [
      | inr (x, e) ↦ rw e tt
      | inl e ↦ elim (Bool-cases (text_eq ev.text [])) [
        | inr f ↦ rw (e, f) (refl, consume_stage-Quiet evs _)
        | inl f ↦ elim (Bool-cases (text_eq ev.thinking [])) [
          | inr g ↦ rw (e, f, g) (refl, consume_stage-Quiet evs _)
          | inl g ↦ elim (Option-cases ev.usage) [
            | inr (u, h) ↦ rw (e, f, g, h) (consume_stage-Quiet evs _)
            | inl h ↦ elim (Option-cases ev.tool_call) [
              | inr (call, i) ↦
                  rw (e, f, g, h, i)
                    (after_tool_call-Quiet call (run_tool_call b mode call s)
                      (run_tool_call-Quiet mode call s))
              | inl i ↦ elim (Option-cases ev.final_message) [
                | inr (m, j) ↦ rw (e, f, g, h, i, j) tt
                | inl j ↦ rw (e, f, g, h, i, j) (consume_stage-Quiet evs s)
              ]
            ]
          ]
        ]
      ]
    ]

only_last : (w : Wire) → is_final w ≡ true → AnswersOnce (w ∷ [])
only_last w e = record { before = []; last = w; whole = refl; none_before = tt; ends = e }

behind_Quiet : (sent out : List Wire) → Quiet sent → AnswersOnce out → AnswersOnce (sent ++ out)
behind_Quiet sent out q a = record {
  before = sent ++ a.before;
  last = a.last;
  whole = ap (λ t. sent ++ t) a.whole ∙ sym (append_assoc sent a.before (a.last ∷ []));
  none_before = Quiet-append sent a.before q a.none_before;
  ends = a.ends;
}

module _ {H X : Type 0} (b : Backends H X) (mode : Text) where
  finish-AnswersOnce : (f : FinalMessage) (s : State H) → AnswersOnce (finish b mode f s).1
  unfolding finish emit_assistant_message
  finish-AnswersOnce f s = only_last _ refl

  run_stages-AnswersOnce : (t : Stage) (s : State H) → AnswersOnce (run_stages b mode t s).1
  unfolding run_stages emit_assistant_message
  run_stages-AnswersOnce refused s = finish-AnswersOnce error_message s
  run_stages-AnswersOnce (stage events next) s =
      let d = consume_stage b mode events s in
      behind_Quiet d.wires _ (consume_stage-Quiet b mode events s)
        (elim d.value
          as (λ v.
            AnswersOnce
              (elim v as (λ x. State H × List Wire) [
                | terminal f ↦ finish b mode f d.state
                | answered r ↦ run_stages b mode (next r) d.state
                | closed ↦ (
                  d.state,
                  emit_assistant_message [] (lit "error")
                        (lit "translator closed without final message") d.state.usage
                      ∷ [],
                )
              ]).1) [
                | terminal f ↦ finish-AnswersOnce f d.state
                | answered r ↦ run_stages-AnswersOnce (next r) d.state
                | closed ↦ only_last _ refl
              ])

-- A turn is answered: whatever the translator, the history and the backends do, what an intent sends ends with an
-- assistant.message, and has no other one. A translator whose conversations all end is assumed by the
-- type of its stream.
pub run_intent-AnswersOnce :
    {H X : Type 0} (b : Backends H X) (o : Opening) (lost : Text) (p : Intent) (images : List Image)
    (s : State H)
    → AnswersOnce (run_intent b o lost p images s).1
unfolding run_intent emit_assistant_message
run_intent-AnswersOnce b o lost p images s =
    let (s1, saved) = save b (user_turn p.text images) s in
    elim (Bool-cases saved) [
      | inr e ↦ rw (run_intent, e) (only_last _ refl)
      | inl e ↦ elim (Result-cases (o.load_window s1.history (window_of b o p))) [
        | inr (msg, f) ↦ rw (run_intent, e, f) (only_last _ refl)
        | inl (window, f) ↦ elim (Result-cases (o.open_stream (turn_input b o p images window))) [
          | inr (msg, g) ↦ rw (run_intent, e, f, g) (only_last _ refl)
          | inl (first, g) ↦ rw (run_intent, e, f, g) (run_stages-AnswersOnce b p.mode first _)
        ]
      ]
    ]
