-- ===== src/Fsops/Service.antt =====
-- Engine.Run of internal/fsops/run.go, and the engine as internal/middleware/dispatcher.go calls it.
pub mod Verified
use nomad_dev.Base.{
  ℕ, Bool, List, [], ◌∷◌, Option, none, some, Text, lit, text_eq, if◌then◌else◌, Result, ok, err,
  ◌>>=◌, ℤ,
}
use nomad_dev.Base.Json.{Fields}
use nomad_dev.Dispatch.{Error, backend, Call, Applied, FsOps, ExecChunk}
use nomad_dev.Fsops.{Fault, unknown_tool, Disk, Engine, arg_string}
use nomad_dev.Fsops.Read.{Reader, run_read_file}
use nomad_dev.Fsops.Listing.{ListEntry, list_dir}
use nomad_dev.Fsops.Write.{
  WriteResult, PatchResult, write_patch, apply_code_patch_inner, restore_file, answer,
}

pub record FsLimits : Type 0 where
  pub read_file_max_bytes : ℤ
  pub write_file_max_bytes : ℤ

-- What encoding/json makes of the results; it fails on none of them.
pub record Encoder : Type 0 where
  pub listing : Text → List ListEntry → Text
  pub written : WriteResult → Text
  pub patched : PatchResult → Text

-- What the handlers of one engine share: the packages that it calls, its root, and the context of a call.
pub record Host (W E H : Type 0) : Type 0 where
  pub disk : Disk W E
  pub open_file : W → Text → Result E H
  pub reader : Reader H E
  pub encoder : Encoder
  pub engine : Engine
  pub done : ℕ → Bool

-- The value of a result, by a function of it.
abbrev pub with_body : {X A B : Type 0} → (A → B) → Result X A → Result X B
with_body f (ok a) = ok (f a)
with_body f (err x) = err x

module _ {W E H : Type 0} (h : Host W E H) where
  unfoldable pub run_list_dir : W → Text → Fields → W × List (ExecChunk (Fault E))
  run_list_dir w sid args =
      let (w1, found) = list_dir h.disk h.engine w sid args in
      (
        w1,
        answer h.done
            (arg_string args (lit "path") >>= λ path. with_body (h.encoder.listing path) found),
      )

  unfoldable pub run_write_patch : W → Text → Fields → ℤ → W × List (ExecChunk (Fault E))
  run_write_patch w sid args limit =
      let (w1, made) = write_patch h.disk h.engine w sid args limit in
      (w1, answer h.done (with_body h.encoder.written made))

  unfoldable pub run_apply_code_patch : W → Text → Fields → ℤ → W × List (ExecChunk (Fault E))
  run_apply_code_patch w sid args limit =
      let (w1, made) = apply_code_patch_inner h.disk h.engine w sid args limit in
      (w1, answer h.done (with_body (λ r. h.encoder.patched r.2) made))

  -- Engine.Run. The loop of read_file ends with what was sent, so `none` does not occur.
  unfoldable pub engine_run :
      W → Text → Call → FsLimits → W × Result (Error (Fault E)) (List (ExecChunk (Fault E)))
  unfolding run_list_dir run_write_patch run_apply_code_patch
  engine_run w sid c limits =
      if text_eq c.tool (lit "read_file")
      then (let (w1, sent) =
            run_read_file h.disk h.open_file h.reader h.engine h.done w sid c.args
              limits.read_file_max_bytes in
          (w1, ok (elim sent [ some out ↦ out | none ↦ [] ])))
      else if text_eq c.tool (lit "list_dir")
      then (let (w1, out) = run_list_dir w sid c.args in (w1, ok out))
      else if text_eq c.tool (lit "write_patch")
      then (let (w1, out) = run_write_patch w sid c.args limits.write_file_max_bytes in
          (w1, ok out))
      else if text_eq c.tool (lit "apply_code_patch")
      then (let (w1, out) = run_apply_code_patch w sid c.args limits.write_file_max_bytes in
          (w1, ok out))
      else (w, err (backend (unknown_tool c.tool)))

  -- ApplyCodePatchWithSnapshot, with its result as the dispatcher sends it.
  unfoldable pub engine_apply : W → Text → Fields → FsLimits → W × Result (Error (Fault E)) Applied
  engine_apply w sid args limits =
      let (w1, made) =
        apply_code_patch_inner h.disk h.engine w sid args limits.write_file_max_bytes in
      (
        w1,
        elim made [
          | err x ↦ err (backend x)
          | ok (snapshot, resolved, r) ↦ ok (record {
            snapshot = snapshot;
            resolved_path = resolved;
            path = r.path;
            body = some (h.encoder.patched r);
          })
        ],
      )

  unfoldable pub engine_restore : W → Text → Text → Text → W × Option (Error (Fault E))
  engine_restore w sid path snapshot =
      let (w1, back) = restore_file h.disk h.engine w sid path snapshot in
      (w1, elim back [ ok _ ↦ none | err x ↦ some (backend x) ])

  abbrev pub ops : FsOps W (Fault E) FsLimits
  ops = record { run = engine_run; apply = engine_apply; restore = engine_restore }
