-- ===== src/Fsops/Write.antt =====
-- What changes a file: runWritePatch, computeApplyCodePatch, applyCodePatchInner and RestoreFile of
-- internal/fsops/run.go.
pub mod Contents
pub mod Asked
pub mod Wrote
use nomad_dev.Base.{
  ℕ, zero, suc, ◌+◌, ◌-◌, Bool, true, false, not, ◌&&◌, ◌||◌, List, [], ◌∷◌, ◌++◌, Option, none,
  some, Text, lit, text_eq, has_prefix, length, drop, ltb, leb, ◌==◌, if◌then◌else◌, Result, ok,
  err, ◌>>=◌, ◌>>◌, refuse_if, ℤ,
}
use nomad_dev.Base.Json.{Fields, get, str}
use nomad_dev.Dispatch.{backend, context_error, ExecChunk, exit_with, exit_zero, cut_body, send_all}
use nomad_dev.Fsops.{
  Fault, os, bad_mode, outside_root, no_such_file, is_directory, too_large, Disk, Engine,
  arg_string, arg_string_allow_empty, arg_bool, filepath_dir, within_root, root_for_ctx,
  resolve_safe,
}
use nomad_dev.Fsops.Edit.{Plan, or_default, plan_edit, default_write_file_max_bytes}

-- `strings.ToLower`, as far as its result can be a mode: of the letters beyond ASCII, two have a lower case in ASCII.
unfoldable pub lowered : Text → Text
lowered [] = []
lowered (b ∷ s) =
    let rest = lowered s in
    if leb b'A' b && leb b b'Z'
    then (b + 32) ∷ rest
    else if has_prefix (b ∷ s) (196 ∷ 176 ∷ [])
    then b'i' ∷ drop 1 rest
    else if has_prefix (b ∷ s) (226 ∷ 132 ∷ 170 ∷ [])
    then b'k' ∷ drop 2 rest
    else b ∷ rest

unfoldable pub mode_of : Fields → Text
unfolding lowered
mode_of args = elim (get (lit "mode") args) [ str s ↦ lowered s | _ ↦ lit "overwrite" ]

pub record WriteResult : Type 0 where
  pub path : Text
  pub bytes_written : ℕ
  pub mode : Text

-- ApplyCodePatchResult.
pub record PatchResult : Type 0 where
  pub path : Text
  pub bytes_written : ℕ
  pub line_number : ℕ
  pub unified_diff : Text

module _ {E : Type 0} where
  -- emitBytesResult.
  unfoldable pub emit_bytes : (ℕ → Bool) → Text → List (ExecChunk (Fault E))
  emit_bytes done body =
      let sent = send_all done 0 (cut_body (length body) body) in
      sent.0 ++ (elim sent.1 [ none ↦ exit_with context_error ∷ [] | some i ↦ exit_zero ∷ [] ])

  -- What a handler sends: its error, or its result.
  abbrev pub answer : (ℕ → Bool) → Result (Fault E) Text → List (ExecChunk (Fault E))
  answer done (err x) = exit_with (backend x) ∷ []
  answer done (ok body) = emit_bytes done body

  -- The checks of the arguments.
  unfoldable pub write_request : Fields → ℤ → Result (Fault E) (Text × Text × Text)
  unfolding mode_of
  write_request args limit = do
    path ← arg_string args (lit "path")
    content ← arg_string args (lit "content")
    let mode = mode_of args
    let max_bytes = or_default limit default_write_file_max_bytes
    refuse_if (not (text_eq mode (lit "overwrite")) && not (text_eq mode (lit "append"))) bad_mode
    refuse_if (ltb max_bytes (length content)) (too_large max_bytes)
    ok (path, content, mode)

  unfoldable pub patch_request : Fields → Result (Fault E) (Text × Text × Text)
  patch_request args = do
    path ← arg_string args (lit "file_path")
    anchor ← arg_string args (lit "search_string")
    replace ← arg_string_allow_empty args (lit "replace_string")
    ok (path, anchor, replace)

-- `real, err := f(path); if err != nil { real = path }`.
abbrev pub or_itself : {E : Type 0} → Text → Result E Text → Text
or_itself path (ok real) = real
or_itself path (err x) = path

-- One call of the file system, or what failed.
abbrev pub attempted :
    {W E A : Type 0} → W × Option E → (W → W × Result (Fault E) A) → W × Result (Fault E) A
attempted (w, none) next = next w
attempted (w, some x) next = (w, err (os x))

module _ {W E : Type 0} (disk : Disk W E) where
  -- A file that was opened, `opened`, gets a text; `done_with` is what is returned where that succeeds.
  abbrev pub fill : {A : Type 0} → W × Option E → Text → Text → A → W × Result (Fault E) A
  fill opened path text done_with =
      attempted opened (λ w1. attempted (disk.write w1 path text) (λ w2. (w2, ok done_with)))

  -- runWritePatch behind its arguments: directories where they are asked for, the file, and the content.
  unfoldable pub write_at : W → Text → Text → Text → Bool → Text → W × Result (Fault E) WriteResult
  unfolding filepath_dir
  write_at w path content mode create resolved =
      attempted (if create then disk.mkdir_all w (filepath_dir resolved) else (w, none)) (λ w1.
        fill
          (if text_eq mode (lit "append")
            then disk.open_appending w1 resolved
            else disk.open_created w1 resolved)
          resolved content (record { path = path; bytes_written = length content; mode = mode }))

  -- computeApplyCodePatch behind its path: what os.ReadFile gives, and os.Stat.
  unfoldable pub plan_of_file : W → Text → Text → Text → Text → ℕ → Result (Fault E) Plan
  unfolding plan_edit
  plan_of_file w path resolved search replace max_bytes = elim (disk.read_file w resolved) [
    | err x ↦ if disk.is_not_exist x then err (no_such_file path) else err (os x)
    | ok content ↦
        let planned = plan_edit path resolved content search replace max_bytes in
        elim (disk.is_dir w resolved) [
          | ok true ↦ err (is_directory path)
          | ok false ↦ planned
          | err x ↦ planned
        ]
  ]

module _ {W E : Type 0} (disk : Disk W E) (e : Engine) where
  unfoldable pub write_patch : W → Text → Fields → ℤ → W × Result (Fault E) WriteResult
  unfolding write_request write_at
  write_patch w sid args limit = elim (write_request args limit) [
    | err x ↦ (w, err x)
    | ok (path, content, mode) ↦
        let (w1, found) = resolve_safe disk e w sid path in
        elim found [
          | err x ↦ (w1, err x)
          | ok resolved ↦ write_at disk w1 path content mode (arg_bool args (lit "create")) resolved
        ]
  ]

  unfoldable pub compute_apply_code_patch : W → Text → Fields → ℤ → W × Result (Fault E) Plan
  unfolding patch_request plan_of_file
  compute_apply_code_patch w sid args limit = elim (patch_request args) [
    | err x ↦ (w, err x)
    | ok (path, anchor, replace) ↦
        let (w1, found) = resolve_safe disk e w sid path in
        (
          w1,
          (found >>= λ resolved.
              plan_of_file disk w1 path resolved anchor replace
                (or_default limit default_write_file_max_bytes)),
        )
  ]

  -- applyCodePatchInner: the snapshot, the resolved path and the result.
  unfoldable pub apply_code_patch_inner :
      W → Text → Fields → ℤ → W × Result (Fault E) (Text × Text × PatchResult)
  unfolding compute_apply_code_patch
  apply_code_patch_inner w sid args limit =
      let (w1, planned) = compute_apply_code_patch w sid args limit in
      elim planned [
        | err x ↦ (w1, err x)
        | ok plan ↦
            fill disk (disk.open_truncated w1 plan.resolved) plan.resolved plan.new_content (
              plan.original,
              plan.resolved,
              record {
                path = plan.path;
                bytes_written = length plan.new_content;
                line_number = plan.line_number;
                unified_diff = plan.unified_diff;
              },
            )
      ]

  -- RestoreFile.
  unfoldable pub restore_file : W → Text → Text → Text → W × Result (Fault E) (Unit {0})
  unfolding root_for_ctx within_root
  restore_file w sid resolved_path snapshot =
      let (w1, scoped) = root_for_ctx disk e w sid in
      let real = or_itself resolved_path (disk.eval_symlinks w1 resolved_path) in
      elim scoped [
        | err x ↦ (w1, err x)
        | ok root ↦
            if not (within_root root real)
            then (w1, err (outside_root resolved_path))
            else fill disk (disk.open_truncated w1 resolved_path) resolved_path snapshot tt
      ]
