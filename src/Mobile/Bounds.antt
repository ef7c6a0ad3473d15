-- ===== src/Mobile/Bounds.antt =====
-- Lemmas about the caps of Ingest in internal/mobile/state/ingest.go.
use nomad_dev.Base.{
  ℕ, ◌≤◌, ◌≡◌, refl, Bool, List, [], ◌∷◌, Option, none, some, arith, Text, text_eq, length, All,
  All-append, ℤ, Option-cases, Bool-cases, subst, sym, true, false, inl, inr,
}
use nomad_dev.Event.{Envelope}
use nomad_dev.Mobile.State.{
  State, Turn, ToolCall, CommandRequestPayload, AssistantMessagePayload, ToolApprovalRequestPayload,
  AckPayload, HelloPayload, CommandResultPayload, CommandChunkPayload, max_image_count,
}
use nomad_dev.Mobile.Turns.{at_turn, modify_turn, at_call, at_call_of_turn, modify_call}
use nomad_dev.Mobile.Chunks.Merge.{IsBounded, merge_chunk-IsBounded}
use nomad_dev.Mobile.Ingest.{
  Decoders, Kind, put_turns, new_call, dispatch, ingest, ingest_all, apply_hello,
  apply_assistant_chunk, apply_assistant_message, finish_turn, apply_command_request,
  apply_command_chunk, apply_command_result, apply_sandbox_heartbeat, apply_tool_approval_request,
  apply_error, apply_ack, kind_of,
}

abbrev pub CallsBounded : List Turn → Type 0
CallsBounded ts = All (λ t. All IsBounded t.tool_calls) ts

-- A result that is there satisfies `P` throughout.
abbrev Every : {A : Type 0} → (A → Type 0) → Option (List A) → Type 0
Every P none = Unit {0}
Every P (some xs) = All P xs

Every-cons :
    {A : Type 0} (P : A → Type 0) (x : A) (r : Option (List A))
    → P x
    → Every P r
    → Every P (elim r [ none ↦ none | some xs ↦ some (x ∷ xs) ])
Every-cons P x none p h = tt
Every-cons P x (some xs) p h = (p, h)

abbrev TurnBounded : Turn → Type 0
TurnBounded t = All IsBounded t.tool_calls

module _ (f : ToolCall → ToolCall) (keep : (c : ToolCall) → IsBounded c → IsBounded (f c)) where
  at_call-Every :
      (id : Text) (cs : List ToolCall) → All IsBounded cs → Every IsBounded (at_call id f cs)
  unfolding at_call
  at_call-Every id [] h = tt
  at_call-Every id (c ∷ cs) h = elim (Bool-cases (text_eq c.command_id id)) [
    | inl e ↦ rw e (keep c h.0, h.1)
    | inr e ↦ rw e (Every-cons IsBounded c (at_call id f cs) h.0 (at_call-Every id cs h.1))
  ]

  at_call_of_turn-Every :
      (id : Text) (ts : List Turn)
      → All TurnBounded ts
      → Every TurnBounded (at_call_of_turn id f ts)
  unfolding at_call_of_turn
  at_call_of_turn-Every id [] h = tt
  at_call_of_turn-Every id (t ∷ ts) h = elim (Option-cases (at_call id f t.tool_calls)) [
    | inl e ↦
        rw (e, at_call_of_turn)
          (Every-cons TurnBounded t (at_call_of_turn id f ts) h.0 (at_call_of_turn-Every id ts h.1))
    | inr (cs, e) ↦
        rw (e, at_call_of_turn) (subst (Every IsBounded) e (at_call-Every id t.tool_calls h.0), h.1)
  ]

  modify_call-Every :
      (id : Text) (ts : List Turn) → All TurnBounded ts → Every TurnBounded (modify_call id f ts)
  unfolding modify_call
  modify_call-Every id ts h = elim (Bool-cases (text_eq id [])) [
    | inl e ↦ rw e tt
    | inr e ↦ rw e (at_call_of_turn-Every id ts h)
  ]

module _ (f : Turn → Turn) (keep : (t : Turn) → TurnBounded t → TurnBounded (f t)) where
  at_turn-Every :
      (id : Text) (ts : List Turn) → All TurnBounded ts → Every TurnBounded (at_turn id f ts)
  unfolding at_turn
  at_turn-Every id [] h = tt
  at_turn-Every id (t ∷ ts) h = elim (Bool-cases (text_eq t.intent_id id)) [
    | inl e ↦ rw e (keep t h.0, h.1)
    | inr e ↦ rw e (Every-cons TurnBounded t (at_turn id f ts) h.0 (at_turn-Every id ts h.1))
  ]

  modify_turn-Every :
      (id : Text) (ts : List Turn) → All TurnBounded ts → Every TurnBounded (modify_turn id f ts)
  unfolding modify_turn
  modify_turn-Every id ts h = elim (Bool-cases (text_eq id [])) [
    | inl e ↦ rw e tt
    | inr e ↦ rw e (at_turn-Every id ts h)
  ]

-- Every tool call of every turn is bounded, and at most four images wait in the composer.
pub record IsSound {F : Type 0} (st : State F) : Type 0 where
  pub calls_bounded : All TurnBounded st.turns
  pub images_capped : length st.pending_images ≤ max_image_count

put_turns-IsSound :
    {F : Type 0} (st : State F) (r : Option (List Turn))
    → IsSound st
    → Every TurnBounded r
    → IsSound (put_turns st r)
put_turns-IsSound st none v h = v
put_turns-IsSound st (some ts) v h = record { calls_bounded = h; images_capped = v.images_capped }

new_call-IsBounded : (id : Text) (p : CommandRequestPayload) → IsBounded (new_call id p)
unfolding new_call
new_call-IsBounded id p = record {
  lines_capped = omega arith;
  stdout_capped = omega arith;
  stderr_capped = omega arith;
  first_seq = 0;
  numbered = refl;
}

-- A call that only changes beside its output.
beside-IsBounded :
    (c : ToolCall) (elapsed : ℤ) (result : Option CommandResultPayload) (awaiting : Bool)
    → IsBounded c
    → IsBounded (record c { elapsed_ms = elapsed; result = result; awaiting_approval = awaiting })
beside-IsBounded c elapsed result awaiting v = record {
  lines_capped = v.lines_capped;
  stdout_capped = v.stdout_capped;
  stderr_capped = v.stderr_capped;
  first_seq = v.first_seq;
  numbered = v.numbered;
}

-- A state that only changes beside its turns and images.
same-IsSound :
    {F : Type 0} (st st' : State F)
    → st'.turns ≡ st.turns
    → st'.pending_images ≡ st.pending_images
    → IsSound st
    → IsSound st'
same-IsSound st st' t i v = record {
  calls_bounded = subst (All TurnBounded) (sym t) v.calls_bounded;
  images_capped = rw i v.images_capped;
}

module _ {F : Type 0} (add_f : F → F → F) (decode : Decoders F) where
  message-IsSound :
      (st : State F) (id : Text) (p : Option (AssistantMessagePayload F))
      → IsSound st
      → IsSound (apply_assistant_message add_f st id p)
  unfolding apply_assistant_message
  message-IsSound st id none v = v
  message-IsSound st id (some p) v = elim (Option-cases (modify_turn id (finish_turn p) st.turns)) [
    | inl e ↦ rw (e, apply_assistant_message) v
    | inr (ts, e) ↦
        rw (e, apply_assistant_message)
          (record {
            calls_bounded = subst (Every TurnBounded) e (
                modify_turn-Every (finish_turn p) (λ t h. unfold finish_turn in h) id st.turns
                  v.calls_bounded);
            images_capped = v.images_capped;
          })
  ]

  request-IsSound :
      (st : State F) (env_id id : Text) (p : Option CommandRequestPayload)
      → IsSound st
      → IsSound (apply_command_request st env_id id p)
  unfolding apply_command_request
  request-IsSound st env_id id none v = v
  request-IsSound st env_id id (some p) v = put_turns-IsSound st _ v (
      modify_turn-Every _
        (λ t h.
          All-append IsBounded t.tool_calls (new_call env_id p ∷ []) h
            (new_call-IsBounded env_id p, tt))
        id st.turns v.calls_bounded)

  approval-IsSound :
      (now : ℕ) (st : State F) (env_id : Text) (p : Option ToolApprovalRequestPayload)
      → IsSound st
      → IsSound (apply_tool_approval_request now st env_id p)
  unfolding apply_tool_approval_request
  approval-IsSound now st env_id none v = v
  approval-IsSound now st env_id (some p) v =
      put_turns-IsSound _ _
        (record { calls_bounded = v.calls_bounded; images_capped = v.images_capped })
        (modify_call-Every _ (λ c. beside-IsBounded c c.elapsed_ms c.result true)
          p.pending_command_id st.turns v.calls_bounded)

  chunk-IsSound :
      (st : State F) (id : Text) (p : Option Text)
      → IsSound st
      → IsSound (apply_assistant_chunk st id p)
  unfolding apply_assistant_chunk
  chunk-IsSound st id none v = v
  chunk-IsSound st id (some text) v =
      put_turns-IsSound st _ v (modify_turn-Every _ (λ t h. h) id st.turns v.calls_bounded)

  output-IsSound :
      (st : State F) (id : Text) (p : Option CommandChunkPayload)
      → IsSound st
      → IsSound (apply_command_chunk st id p)
  unfolding apply_command_chunk
  output-IsSound st id none v = v
  output-IsSound st id (some p) v =
      put_turns-IsSound st _ v
        (modify_call-Every _ (λ c. merge_chunk-IsBounded c p) id st.turns v.calls_bounded)

  result-IsSound :
      (st : State F) (id : Text) (p : Option CommandResultPayload)
      → IsSound st
      → IsSound (apply_command_result st id p)
  unfolding apply_command_result
  result-IsSound st id none v = v
  result-IsSound st id (some p) v = put_turns-IsSound st _ v (
      modify_call-Every _ (λ c. beside-IsBounded c c.elapsed_ms (some p) false) id st.turns
        v.calls_bounded)

  heartbeat-IsSound :
      (st : State F) (id : Text) (p : Option ℤ)
      → IsSound st
      → IsSound (apply_sandbox_heartbeat st id p)
  unfolding apply_sandbox_heartbeat
  heartbeat-IsSound st id none v = v
  heartbeat-IsSound st id (some n) v = put_turns-IsSound st _ v (
      modify_call-Every _ (λ c. beside-IsBounded c n c.result c.awaiting_approval) id st.turns
        v.calls_bounded)

  hello-IsSound : (st : State F) (p : Option HelloPayload) → IsSound st → IsSound (apply_hello st p)
  unfolding apply_hello
  hello-IsSound st none v = v
  hello-IsSound st (some p) v = same-IsSound st _ refl refl v

  error-IsSound : (st : State F) (p : Option Text) → IsSound st → IsSound (apply_error st p)
  unfolding apply_error
  error-IsSound st none v = v
  error-IsSound st (some message) v = same-IsSound st _ refl refl v

  ack-IsSound : (st : State F) (p : Option AckPayload) → IsSound st → IsSound (apply_ack st p)
  unfolding apply_ack
  ack-IsSound st none v = v
  ack-IsSound st (some p) v = same-IsSound st _ (ground arith) (ground arith) v

  dispatch-IsSound :
      (now : ℕ) (k : Kind) (env : Envelope) (st : State F)
      → IsSound st
      → IsSound (dispatch add_f decode now k env st)
  unfolding dispatch
  dispatch-IsSound now Kind.hello env st v = hello-IsSound st _ v
  dispatch-IsSound now Kind.assistant_chunk env st v = chunk-IsSound st _ _ v
  dispatch-IsSound now Kind.assistant_message env st v = message-IsSound st _ _ v
  dispatch-IsSound now Kind.command_request env st v = request-IsSound st _ _ _ v
  dispatch-IsSound now Kind.command_chunk env st v = output-IsSound st _ _ v
  dispatch-IsSound now Kind.command_result env st v = result-IsSound st _ _ v
  dispatch-IsSound now Kind.sandbox_heartbeat env st v = heartbeat-IsSound st _ _ v
  dispatch-IsSound now Kind.tool_approval_request env st v = approval-IsSound now st _ _ v
  dispatch-IsSound now Kind.error env st v = error-IsSound st _ v
  dispatch-IsSound now Kind.ack env st v = ack-IsSound st _ v
  dispatch-IsSound now Kind.other env st v = v

  -- Whatever envelopes arrive, decoded by whatever decoder, the store stays bounded: every tool call
  -- keeps at most its cap of lines, numbered without a gap, and of carried output, and the composer
  -- keeps at most four images.
  pub ingest_all-IsSound :
      (envs : List (ℕ × Envelope)) (st : State F)
      → IsSound st
      → IsSound (ingest_all add_f decode envs st)
  unfolding ingest_all ingest
  ingest_all-IsSound [] st v = v
  ingest_all-IsSound ((now, env) ∷ rest) st v =
      ingest_all-IsSound rest _
        (dispatch-IsSound now (kind_of env.typ) env _ (same-IsSound st _ refl refl v))
