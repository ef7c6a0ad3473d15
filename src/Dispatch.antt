-- ===== src/Dispatch.antt =====
-- internal/middleware/dispatcher.go: CompositeDispatcher. A channel is the list of all chunks that are sent on it.
-- `W` is what the backends act on, `X` their errors, `L` and `F` the limits they are given. `done i` says
-- whether the i-th select of a call finds its context done; `say` is what fmt.Sprintf makes of a notice.
pub mod Verify
pub mod Route
mod Examples
use nomad_dev.Base.{
  ℕ, zero, suc, ◌-◌, ◌*◌, Bool, true, false, not, ◌&&◌, ◌||◌, List, [], ◌∷◌, ◌++◌, map, Option,
  none, some, Text, lit, text_eq, has_prefix, length, take, drop, ltb, if◌then◌else◌, Result, ok,
  err, ℤ, pos, negsuc, is_zero, any_of,
}
use nomad_dev.Base.Json.{Json, Fields, str, end, field, get, str_or_empty}
use nomad_dev.History.Pins.{ReferenceBuffer, PinError, pin, unpin}

abbrev pub apply_verify_chunk_bytes : ℕ
apply_verify_chunk_bytes = 16 * 1024

-- What the dispatcher itself finds wrong; all but the last three wrap sandbox.ErrBadRequest.
pub data Complaint : Type 0 where
  audit_mode unknown_tool : Text → Complaint
  no_sandbox no_fsops no_pins no_docs no_github verify_needs_sandbox no_path no_url : Complaint
  read_exited : ℤ → Complaint
  pin_refused : PinError → Complaint
  read_without_exit verify_without_exit page_without_json : Complaint

pub data Error (X : Type 0) : Type 0 where
  backend : X → Error X
  context_error : Error X
  complaint : Complaint → Error X

pub data Stream : Type 0 where
  stdout stderr exit : Stream

pub record ExecChunk (X : Type 0) : Type 0 where
  pub stream : Stream
  pub data_of : Text
  pub exit_code : ℤ
  pub error : Option (Error X)

pub record Call : Type 0 where
  pub tool : Text
  pub args : Fields

pub record DispatchOptions (L F : Type 0) : Type 0 where
  pub working_dir : Text
  pub timeout : ℤ
  pub session_id : Text
  pub sandbox_limits : L
  pub fsops_limits : F
  pub max_result_bytes : ℤ
  pub mode : Text

pub record ExecRequest (L : Type 0) : Type 0 where
  pub tool : Text
  pub args : Fields
  pub working_dir : Text
  pub timeout : ℤ
  pub limits : L
  pub session_id : Text
  pub max_result_bytes : ℤ

-- What ApplyCodePatchWithSnapshot returns; `body` is its result as JSON, if that can be made.
pub record Applied : Type 0 where
  pub snapshot : Text
  pub resolved_path : Text
  pub path : Text
  pub body : Option Text

-- The engine of internal/fsops, by what the dispatcher calls of it.
pub record FsOps (W X F : Type 0) : Type 0 where
  pub run : W → Text → Call → F → W × Result (Error X) (List (ExecChunk X))
  pub apply : W → Text → Fields → F → W × Result (Error X) Applied
  pub restore : W → Text → Text → Text → W × Option (Error X)

-- A chunk of the sandbox, what the command did before it, and what it may still do where the caller's context is
-- done when the chunk is passed on: the runner is a goroutine that kills its container only when it sees the
-- context itself, so the caller may have gone on before.
pub record Step (W X : Type 0) : Type 0 where
  pub chunk : ExecChunk X
  pub work : W → W
  pub late : W → W

-- A command: its chunks in order, and what it did behind the last before the channel was closed.
pub record Run (W X : Type 0) : Type 0 where
  pub steps : List (Step W X)
  pub last_work : W → W

abbrev pub Exec : Type 0 → Type 0 → Type 0 → Type 0
Exec W X L = W → ExecRequest L → W × Result (Error X) (Run W X)

unfoldable pub work_all : {W X : Type 0} → List (Step W X) → W → W
work_all [] w = w
work_all (c ∷ cs) w = work_all cs (c.work w)

-- A command whose chunks are all taken: the state behind it, and the chunks.
abbrev pub completed :
    {W X : Type 0} → W × Result (Error X) (Run W X) → W × Result (Error X) (List (ExecChunk X))
completed (w, err e) = (w, err e)
completed (w, ok run) = (run.last_work (work_all run.steps w), ok (map (λ c. c.chunk) run.steps))

-- How the loop over the chunks of a command ends: the channel was closed, with the last exit chunk, or the context
-- was done, and the command may do more.
pub data VerifyEnd (W X : Type 0) : Type 0 where
  drained : W → Option (ExecChunk X) → VerifyEnd W X
  cut : W → (W → W) → VerifyEnd W X

pub data Notice (X : Type 0) : Type 0 where
  start_failed : Error X → Text → Notice X
  start_and_restore_failed : Error X → Error X → Notice X
  closed_without_exit : Text → Notice X
  verify_failed : ℤ → Text → Notice X
  verify_and_restore_failed : ℤ → Error X → Notice X
  pinned : Text → ℕ → Notice X
  unpinned was_not_pinned : Text → Notice X

module _ {X : Type 0} where
  abbrev pub exit_with : Error X → ExecChunk X
  exit_with e = record { stream = exit; data_of = []; exit_code = negsuc 0; error = some e }

  abbrev pub exit_zero : ExecChunk X
  exit_zero = record { stream = exit; data_of = []; exit_code = pos 0; error = none }

  abbrev pub text_on : Stream → Text → ExecChunk X
  text_on s t = record { stream = s; data_of = t; exit_code = pos 0; error = none }

  abbrev pub is_exit : ExecChunk X → Bool
  is_exit c = elim c.stream [ stdout ↦ false | stderr ↦ false | exit ↦ true ]

  -- `verifyExit.Err != nil || verifyExit.ExitCode != 0`.
  abbrev pub has_failed : ExecChunk X → Bool
  has_failed c = elim c.error [ some e ↦ true | none ↦ not (is_zero c.exit_code) ]

  -- The loop that cuts a body into chunks; each round takes at least one byte, so its length is enough fuel.
  unfoldable pub cut_body : ℕ → Text → List (ExecChunk X)
  cut_body zero body = []
  cut_body (suc fuel) body =
      let rest = cut_body fuel (drop apply_verify_chunk_bytes body) in
      if ltb 0 (length body) then text_on stdout (take apply_verify_chunk_bytes body) ∷ rest else []

  -- No chunk where the result could not be marshalled.
  abbrev pub body_chunks : Option Text → List (ExecChunk X)
  body_chunks none = []
  body_chunks (some body) = cut_body (length body) body

  -- A loop of selects: what was sent, and the number of the next select, or none where the context was done.
  unfoldable pub send_all : (ℕ → Bool) → ℕ → List (ExecChunk X) → List (ExecChunk X) × Option ℕ
  send_all done i [] = ([], some i)
  send_all done i (c ∷ cs) =
      let rest = send_all done (suc i) cs in if done i then ([], none) else (c ∷ rest.0, rest.1)

-- The loop over the verify command's chunks: what was sent, and how it ended.
unfoldable pub send_verify :
    {W X : Type 0}
    → (ℕ → Bool)
    → ℕ
    → Option (ExecChunk X)
    → W
    → List (Step W X)
    → List (ExecChunk X) × VerifyEnd W X
send_verify done i seen w [] = ([], drained w seen)
send_verify done i seen w (c ∷ cs) =
    let kept = send_verify done i (some c.chunk) (c.work w) cs in
    let rest = send_verify done (suc i) seen (c.work w) cs in
    if is_exit c.chunk
    then kept
    else if done i
    then ([], cut (c.work w) c.late)
    else (c.chunk ∷ rest.0, rest.1)

-- Sends the tail of a case behind what went out before.
abbrev pub behind :
    {W X : Type 0} → List (ExecChunk X) → W × List (ExecChunk X) → W × List (ExecChunk X)
behind sent (w, tail) = (w, sent ++ tail)

module _ {W X F : Type 0} (say : Notice X → Text) where
  module _ (fs : FsOps W X F) (sid : Text) (a : Applied) where
    abbrev pub roll_back : W → W × Option (Error X)
    roll_back w = fs.restore w sid a.resolved_path a.snapshot

    unfoldable pub interrupted : W → W × List (ExecChunk X)
    interrupted w = ((roll_back w).0, exit_with context_error ∷ [])

    unfoldable pub not_started : W → Error X → W × List (ExecChunk X)
    not_started w e = (
      (roll_back w).0,
      text_on stderr (
            say (elim (roll_back w).1 [
              | some r ↦ start_and_restore_failed e r
              | none ↦ start_failed e a.path
            ]))
          ∷ exit_with e
          ∷ [],
    )

    -- Step 4, and the end of step 3.
    unfoldable pub conclude : W → Option (ExecChunk X) → W × List (ExecChunk X)
    conclude w none = (
      (roll_back w).0,
      text_on stderr (say (closed_without_exit a.path))
          ∷ exit_with (complaint verify_without_exit)
          ∷ [],
    )
    conclude w (some c) =
        if has_failed c
        then (
          (roll_back w).0,
          text_on stderr (
                say (elim (roll_back w).1 [
                  | some r ↦ verify_and_restore_failed c.exit_code r
                  | none ↦ verify_failed c.exit_code a.path
                ]))
              ∷ c
              ∷ [],
        )
        else (w, c ∷ [])

  -- Steps 3 and 4, where the command was started in state `w` and `i` selects are behind. Where the context is
  -- done, the command may still act behind the restore.
  unfoldable pub stream_verify :
      FsOps W X F → (ℕ → Bool) → Text → Applied → ℕ → W → Run W X → W × List (ExecChunk X)
  unfolding conclude interrupted
  stream_verify fs done sid a i w run =
      let out = send_verify done i none w run.steps in
      behind out.0 (elim out.1 [
        | cut w1 late ↦ (late (interrupted fs sid a w1).0, (interrupted fs sid a w1).1)
        | drained w1 seen ↦ conclude fs sid a (run.last_work w1) seen
      ])

  unfoldable pub run_verify :
      {L : Type 0}
      → FsOps W X F
      → Exec W X L
      → (ℕ → Bool)
      → Text
      → Applied
      → ExecRequest L
      → ℕ
      → W
      → W × List (ExecChunk X)
  unfolding not_started
  run_verify fs exec done sid a request i w = elim (exec w request).1 [
    | err e ↦ not_started fs sid a (exec w request).0 e
    | ok run ↦ stream_verify fs done sid a i (exec w request).0 run
  ]

  -- Steps 1 to 4, after the patch was applied; `w` is the state after the apply.
  unfoldable pub verify_applied :
      {L : Type 0}
      → FsOps W X F
      → Exec W X L
      → (ℕ → Bool)
      → Text
      → Applied
      → ExecRequest L
      → W
      → W × List (ExecChunk X)
  unfolding interrupted
  verify_applied fs exec done sid a request w =
      let out = send_all done 0 (body_chunks a.body) in
      behind out.0 (elim out.1 [
        | none ↦ interrupted fs sid a w
        | some i ↦ run_verify fs exec done sid a request i w
      ])

module _ {L F : Type 0} where
  unfoldable pub verify_request : DispatchOptions L F → Text → ExecRequest L
  verify_request opts command = record {
    tool = lit "execute_script";
    args = field (lit "shell") (str (lit "bash")) (field (lit "script") (str command) end);
    working_dir = opts.working_dir;
    timeout = opts.timeout;
    limits = opts.sandbox_limits;
    session_id = opts.session_id;
    max_result_bytes = opts.max_result_bytes;
  }

unfoldable pub apply_code_patch_with_verify :
    {W X L F : Type 0}
    → (Notice X → Text)
    → FsOps W X F
    → Exec W X L
    → (ℕ → Bool)
    → Call
    → DispatchOptions L F
    → Text
    → W
    → W × List (ExecChunk X)
apply_code_patch_with_verify say fs exec done call opts command w =
    let (w1, applied) = fs.apply w opts.session_id call.args opts.fsops_limits in
    elim applied [
      | err e ↦ (w1, exit_with e ∷ [])
      | ok a ↦ verify_applied say fs exec done opts.session_id a (verify_request opts command) w1
    ]
