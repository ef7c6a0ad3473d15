-- ===== src/Dispatch/Route.antt =====
-- Dispatch, pinFile, unpinFile and fetchDocs of internal/middleware/dispatcher.go, and IsMutatingBaseTool of
-- internal/middleware/tools.go. A nil backend is none.
use nomad_dev.Base.{
  ℕ, Bool, not, ◌&&◌, ◌||◌, List, [], ◌∷◌, ◌++◌, Option, none, some, Text, lit, text_eq, has_prefix,
  length, if◌then◌else◌, Result, ok, err,
}
use nomad_dev.Base.Json.{str, end, field, get, str_or_empty}
use nomad_dev.History.Pins.{ReferenceBuffer, pin, unpin}
use nomad_dev.Dispatch.{
  Complaint, audit_mode, unknown_tool, no_sandbox, no_fsops, no_pins, no_docs, no_github,
  verify_needs_sandbox, no_path, no_url, read_exited, pin_refused, read_without_exit,
  page_without_json, Error, context_error, complaint, stdout, stderr, exit, ExecChunk, Call,
  DispatchOptions, FsOps, Exec, Notice, pinned, unpinned, was_not_pinned, exit_with, exit_zero,
  text_on, completed, has_failed, body_chunks, send_all, apply_code_patch_with_verify,
}

abbrev pub mode_audit : Text
mode_audit = lit "audit"

unfoldable pub is_mutating_base_tool : Text → Bool
is_mutating_base_tool name =
    (text_eq name (lit "execute_script") || text_eq name (lit "write_patch"))
    || (text_eq name (lit "apply_code_patch") || text_eq name (lit "dispatch_worker_pool"))
    || (text_eq name (lit "monitor_daemon") || text_eq name (lit "stop_daemon"))

-- The pinned files are the dispatcher's own, so they stand beside what the backends act on.
pub record World (W : Type 0) : Type 0 where
  pub host : W
  pub pins : ReferenceBuffer

-- `fetch` gives the fetched page as JSON, or none where that cannot be made.
pub record Dispatcher (W X L F : Type 0) : Type 0 where
  pub sandbox : Option (Exec W X L)
  pub fsops : Option (FsOps W X F)
  pub github : Option (W → Call → DispatchOptions L F → W × Result (Error X) (List (ExecChunk X)))
  pub has_pins : Bool
  pub docs : Option (W → Text → W × Result (Error X) (Option Text))

-- What the loop over the chunks of read_file gathers: the text, and the last exit chunk.
unfoldable pub gather :
    {X : Type 0} → List (ExecChunk X) → Text → Option (ExecChunk X) → Text × Option (ExecChunk X)
gather [] text seen = (text, seen)
gather (c ∷ cs) text seen =
    let more = gather cs (text ++ c.data_of) seen in
    let skip = gather cs text seen in
    let last = gather cs text (some c) in
    elim c.stream [ stdout ↦ more | stderr ↦ skip | exit ↦ last ]

abbrev pub fail : {W X : Type 0} → World W → Error X → World W × List (ExecChunk X)
fail w e = (w, exit_with e ∷ [])

module _ {W X : Type 0} (say : Notice X → Text) where
  unfoldable pub pin_text : World W → Text → Text → Text → World W × List (ExecChunk X)
  pin_text w sid path content = elim (pin w.pins sid path content) [
    | err e ↦ fail w (complaint (pin_refused e))
    | ok pins ↦ (
      record w { pins = pins },
      text_on stdout (say (pinned path (length content))) ∷ exit_zero ∷ [],
    )
  ]

  unfoldable pub pin_read :
      World W → Text → Text → Text × Option (ExecChunk X) → World W × List (ExecChunk X)
  unfolding pin_text
  pin_read w sid path (content, none) = fail w (complaint read_without_exit)
  pin_read w sid path (content, some c) =
      if has_failed c
      then fail w (elim c.error [ some e ↦ e | none ↦ complaint (read_exited c.exit_code) ])
      else pin_text w sid path content

module _ {W X L F : Type 0} (say : Notice X → Text) where
  unfoldable pub pin_file :
      FsOps W X F → World W → Call → DispatchOptions L F → World W × List (ExecChunk X)
  unfolding pin_read
  pin_file fs w call opts =
      let path = str_or_empty (get (lit "path") call.args) in
      let read =
        fs.run w.host opts.session_id
          (record { tool = lit "read_file"; args = field (lit "path") (str path) end })
          opts.fsops_limits in
      if text_eq path [] then fail w (complaint no_path) else elim read.1 [
        | err e ↦ fail (record w { host = read.0 }) e
        | ok chunks ↦
            pin_read say (record w { host = read.0 }) opts.session_id path (gather chunks [] none)
      ]

  unfoldable pub unpin_file : World W → Call → DispatchOptions L F → World W × List (ExecChunk X)
  unpin_file w call opts =
      let path = str_or_empty (get (lit "path") call.args) in
      if text_eq path [] then fail w (complaint no_path) else (
        record w { pins = (unpin w.pins opts.session_id path).0 },
        text_on stdout (
              say (
                if (unpin w.pins opts.session_id path).1
                then unpinned path
                else was_not_pinned path))
            ∷ exit_zero
            ∷ [],
      )

-- fetchDocsErr is part of `fetch`.
unfoldable pub fetch_docs :
    {W X : Type 0}
    → (W → Text → W × Result (Error X) (Option Text))
    → (ℕ → Bool)
    → World W
    → Call
    → World W × List (ExecChunk X)
fetch_docs fetch done w call =
    let url = str_or_empty (get (lit "url") call.args) in
    let page = fetch w.host url in
    let w' = record w { host = page.0 } in
    if text_eq url [] then fail w (complaint no_url) else elim page.1 [
      | err e ↦ fail w' e
      | ok none ↦ fail w' (complaint page_without_json)
      | ok (some body) ↦
          let out = send_all done 0 (body_chunks (some body)) in
          (w', out.0 ++ elim out.1 [ none ↦ exit_with context_error | some i ↦ exit_zero ] ∷ [])
    ]

abbrev pub refuse :
    {W X : Type 0} → World W → Complaint → World W × Result (Error X) (List (ExecChunk X))
refuse w c = (w, err (complaint c))

-- A backend that acts on the host alone.
abbrev pub on_host : {W R : Type 0} → World W → W × R → World W × R
on_host w (host, r) = (record w { host = host }, r)

abbrev pub streamed :
    {W X : Type 0} → W × List (ExecChunk X) → W × Result (Error X) (List (ExecChunk X))
streamed (w, out) = (w, ok out)

module _ {W X L F : Type 0} (say : Notice X → Text) (d : Dispatcher W X L F) (done : ℕ → Bool)
    (opts : DispatchOptions L F) where
  abbrev pub to_sandbox : World W → Call → World W × Result (Error X) (List (ExecChunk X))
  to_sandbox w call = elim d.sandbox [
    | none ↦ refuse w no_sandbox
    | some exec ↦ on_host w (
        completed (
          exec w.host (record {
            tool = call.tool;
            args = call.args;
            working_dir = opts.working_dir;
            timeout = opts.timeout;
            limits = opts.sandbox_limits;
            session_id = opts.session_id;
            max_result_bytes = opts.max_result_bytes;
          })))
  ]

  abbrev pub to_fsops : World W → Call → World W × Result (Error X) (List (ExecChunk X))
  to_fsops w call = elim d.fsops [
    | none ↦ refuse w no_fsops
    | some fs ↦
        let command = str_or_empty (get (lit "verify_command") call.args) in
        if text_eq call.tool (lit "apply_code_patch") && not (text_eq command [])
        then elim d.sandbox [
          | none ↦ refuse w verify_needs_sandbox
          | some exec ↦
              on_host w
                (streamed (apply_code_patch_with_verify say fs exec done call opts command w.host))
        ]
        else on_host w (fs.run w.host opts.session_id call opts.fsops_limits)
  ]

  abbrev pub to_pins : World W → Call → World W × Result (Error X) (List (ExecChunk X))
  to_pins w call =
      if d.has_pins
      then elim d.fsops [
        | none ↦ refuse w no_fsops
        | some fs ↦ streamed (pin_file say fs w call opts)
      ]
      else refuse w no_pins

  abbrev pub to_unpin : World W → Call → World W × Result (Error X) (List (ExecChunk X))
  to_unpin w call = if d.has_pins then streamed (unpin_file say w call opts) else refuse w no_pins

  abbrev pub to_docs : World W → Call → World W × Result (Error X) (List (ExecChunk X))
  to_docs w call = elim d.docs [
    | none ↦ refuse w no_docs
    | some fetch ↦ streamed (fetch_docs fetch done w call)
  ]

  abbrev pub to_github : World W → Call → World W × Result (Error X) (List (ExecChunk X))
  to_github w call = elim d.github [
    | none ↦ refuse w no_github
    | some run ↦ on_host w (run w.host call opts)
  ]

  -- The switch on the tool, behind the check of the mode.
  unfoldable pub route : World W → Call → World W × Result (Error X) (List (ExecChunk X))
  route w call =
      let t = call.tool in
      if text_eq t (lit "execute_script") || text_eq t (lit "search_syntax")
      then to_sandbox w call
      else if (text_eq t (lit "read_file") || text_eq t (lit "list_dir"))
          || (text_eq t (lit "write_patch") || text_eq t (lit "apply_code_patch"))
      then to_fsops w call
      else if text_eq t (lit "pin_file")
      then to_pins w call
      else if text_eq t (lit "unpin_file")
      then to_unpin w call
      else if text_eq t (lit "fetch_external_docs")
      then to_docs w call
      else if has_prefix t (lit "github_")
      then to_github w call
      else refuse w (unknown_tool t)

  unfoldable pub dispatch_call : World W → Call → World W × Result (Error X) (List (ExecChunk X))
  unfolding route
  dispatch_call w call =
      if text_eq opts.mode mode_audit && is_mutating_base_tool call.tool
      then refuse w (audit_mode call.tool)
      else route w call
