-- ===== src/Mobile/Examples.antt =====
-- Runs of the app's reducer.
use nomad_dev.Base.{
  ℕ, ◌≡◌, refl, ◌≢◌, ◌≤◌, List, [], ◌∷◌, map, none, some, Text, lit, text_eq, text_eq_iff, arith,
  length, pos, false,
}
use nomad_dev.Base.Json.{end}
use nomad_dev.Event.{Envelope, stream_stdout}
use nomad_dev.Mobile.State.{
  ImageInput, ApprovalRequest, State, Turn, ToolCall, CommandChunkPayload, new_state,
  partial_line_cap,
}
use nomad_dev.Mobile.Chunks.{merge_chunk_into_tool_call}
use nomad_dev.Mobile.Chunks.Lines.{lines_of}
use nomad_dev.Mobile.Chunks.Merge.{IsBounded, merge_chunk-append, merge_chunk-IsBounded}
use nomad_dev.Mobile.Ingest.{Decoders, ingest_all}
use nomad_dev.Mobile.Bounds.{IsSound, ingest_all-IsSound}
use nomad_dev.Mobile.Streaming.{turn_at, chunk_for, ingest_all-chunks}

-- A decoder that reads the payload of a chunk as its text, and nothing else.
abbrev decode : Decoders ℕ
decode = record {
  hello = λ s. none;
  assistant_chunk = λ s. some s;
  assistant_message = λ s. none;
  command_request = λ s. none;
  command_chunk = λ s. some (record { stream = stream_stdout; text = s; seq = pos 0 });
  command_result = λ s. none;
  sandbox_heartbeat = λ s. none;
  tool_approval_request = λ s. none;
  error = λ s. none;
  ack = λ s. none;
}

abbrev add : ℕ → ℕ → ℕ
add a b = a

abbrev call : ToolCall
call = record {
  command_id = lit "c";
  tool = lit "execute_script";
  args = end;
  lines = [];
  line_count = 0;
  stdout_partial = [];
  stderr_partial = [];
  elapsed_ms = pos 0;
  result = none;
  awaiting_approval = false;
}

abbrev turn : Turn
turn = record {
  intent_id = lit "i";
  user_text = lit "hi";
  user_images = [];
  assistant_text = [];
  tool_calls = call ∷ [];
  finished = false;
  finish_reason = [];
  error = [];
}

abbrev start : State ℕ
start = record (new_state 0) { turns = turn ∷ [] }

abbrev out : Text → CommandChunkPayload
out s = record { stream = stream_stdout; text = s; seq = pos 0 }

call-IsBounded : IsBounded call
call-IsBounded = record {
  lines_capped = omega arith;
  stdout_capped = omega arith;
  stderr_capped = omega arith;
  first_seq = 0;
  numbered = refl;
}

-- A chunk of output for the call.
abbrev chunk : Envelope
chunk = record {
  id = lit "e1";
  typ = lit "command.chunk";
  correlation_id = lit "c";
  payload = lit "a\nb";
}

start-IsSound : IsSound start
unfolding new_state
start-IsSound = record { calls_bounded = ((call-IsBounded, tt), tt); images_capped = omega arith }

fragment_fits : length (lines_of (lit "a\nb")).1 ≤ partial_line_cap
unfolding lines_of
fragment_fits = omega arith

differs : (s t : Text) → text_eq s t ≡ false → s ≢ t
differs s t h e = ground (arith, text_eq_iff s t, h, e)

merge_chunk-append_example :
    merge_chunk_into_tool_call
      (merge_chunk_into_tool_call call (out (lit "a\nb")))
      (out (lit "c\n"))
    ≡ merge_chunk_into_tool_call call (out (lit "a\nbc\n"))
unfolding text_eq
merge_chunk-append_example =
    merge_chunk-append call (out (lit "a\nb")) (out (lit "c\n")) (out (lit "a\nbc\n")) refl refl
      refl fragment_fits

merge_chunk-IsBounded_example : IsBounded (merge_chunk_into_tool_call call (out (lit "a\nb")))
merge_chunk-IsBounded_example = merge_chunk-IsBounded call (out (lit "a\nb")) call-IsBounded

ingest_all-IsSound_example : IsSound (ingest_all add decode ((7, chunk) ∷ []) start)
ingest_all-IsSound_example = ingest_all-IsSound add decode ((7, chunk) ∷ []) start start-IsSound

abbrev parts : List (ℕ × Text × Text)
parts = (1, lit "e1", lit "Hel") ∷ (2, lit "e2", lit "lo") ∷ []

ingest_all-chunks_example :
    (turn_at (lit "i") (ingest_all add decode (map (chunk_for (lit "i")) parts) start).turns
      ≡ some (record turn { assistant_text = lit "Hello" }))
    × (turn_at (lit "j") (ingest_all add decode (map (chunk_for (lit "i")) parts) start).turns
        ≡ turn_at (lit "j") start.turns)
unfolding turn_at text_eq
ingest_all-chunks_example =
    ingest_all-chunks add decode (lit "i") parts start turn (lit "j") (λ e. cc) refl
      (differs (lit "j") (lit "i") refl)

abbrev picture : ImageInput
picture = record { media_type = lit "image/png"; content = lit "AA==" }

abbrev ask : Text → ApprovalRequest
ask id = record {
  envelope_id = id;
  pending_command_id = [];
  tool = lit "write_patch";
  args = end;
  reason = [];
  deadline_unix_ms = 0;
  preview = none;
}
