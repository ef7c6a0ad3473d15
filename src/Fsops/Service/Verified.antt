-- ===== src/Fsops/Service/Verified.antt =====
-- Lemmas about applyCodePatchWithVerify of internal/middleware/dispatcher.go over ApplyCodePatchWithSnapshot and
-- RestoreFile of internal/fsops/run.go.
use nomad_dev.Base.{
  ◌≡◌, refl, sym, ◌++◌, lit, inl, inr, List, Option, none, some, Text, ok, err, Result-cases,
  none-≢-some,
}
use nomad_dev.Dispatch.{Exec, ExecChunk, Call, DispatchOptions, Applied, verify_request}
use nomad_dev.Dispatch.Verify.{Restores, Settled}
use nomad_dev.Fsops.{Fault, Disk, resolve_safe, arg_string, arg_string_allow_empty}
use nomad_dev.Fsops.Edit.Unique.{Occurs}
use nomad_dev.Fsops.Write.{restore_file}
use nomad_dev.Fsops.Write.Contents.{Keeps, restore_file-read}
use nomad_dev.Fsops.Write.Asked.{Asked}
use nomad_dev.Fsops.Service.{FsLimits, Host, engine_restore, ops}

-- What a path holds, where it can be read.
abbrev pub held : {W E : Type 0} → Disk W E → W → Text → Option Text
held disk w p = elim (disk.read_file w p) [ ok s ↦ some s | err x ↦ none ]

held-some :
    {W E : Type 0} (disk : Disk W E) (w : W) (p s : Text)
    → disk.read_file w p ≡ ok s
    → held disk w p ≡ some s
held-some disk w p s h = rw (held, h) refl

-- The restore of the engine is what the dispatcher takes it for.
pub ops-Restores : {W E H : Type 0} (h : Host W E H) → Keeps h.disk → Restores (ops h) (held h.disk)
unfolding engine_restore
ops-Restores h keeps w sid path snapshot e =
    elim (Result-cases (restore_file h.disk h.engine w sid path snapshot).1) [
      | inr (x, f) ↦ absurd (none-≢-some (sym (rw (engine_restore, f) at e)))
      | inl (u, f) ↦
          held-some h.disk _ path snapshot
            (restore_file-read h.disk h.engine w sid path snapshot keeps f)
    ]

-- A call whose patch was applied: the file and the texts that the arguments name, what the file held, what it holds
-- then, and what the result promises of it.
pub record Patched {W E H L : Type 0} (h : Host W E H) (exec : Exec W (Fault E) L) (call : Call)
    (opts : DispatchOptions L FsLimits) (command : Text) (w w1 : W)
    (r : W × List (ExecChunk (Fault E))) : Type 0 where
  pub applied : Applied
  pub path : Text
  pub anchor : Text
  pub replace : Text
  pub path_asked : arg_string {E = E} call.args (lit "file_path") ≡ ok path
  pub anchor_asked : arg_string {E = E} call.args (lit "search_string") ≡ ok anchor
  pub replace_asked : arg_string_allow_empty {E = E} call.args (lit "replace_string") ≡ ok replace
  pub placed : (resolve_safe h.disk h.engine w opts.session_id path).1 ≡ ok applied.resolved_path
  pub at : Occurs anchor applied.snapshot
  pub kept : (s : Text) → h.disk.read_file w applied.resolved_path ≡ ok s → s ≡ applied.snapshot
  pub written : h.disk.read_file w1 applied.resolved_path ≡ ok (at.front ++ (replace ++ at.back))
  pub settled :
      Settled
        (ops h)
        (held h.disk)
        h.done
        opts.session_id
        applied
        (exec w1 (verify_request opts command)).1
        r
