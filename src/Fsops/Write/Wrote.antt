-- ===== src/Fsops/Write/Wrote.antt =====
-- Lemmas about runWritePatch of internal/fsops/run.go.
use nomad_dev.Base.{◌≤◌, ◌≡◌, ◌⊎◌, ◌++◌, Text, lit, length, ok, ℤ}
use nomad_dev.Base.Json.{Fields}
use nomad_dev.Fsops.{Disk, arg_string}
use nomad_dev.Fsops.Edit.{default_write_file_max_bytes, or_default}
use nomad_dev.Fsops.Write.{WriteResult}

-- What write_patch leaves of a path, from the state `w` in which it resolved it to the state `w'`: the content, in
-- the mode "append" behind what was there.
pub record Wrote {W E : Type 0} (disk : Disk W E) (w w' : W) (args : Fields) (limit : ℤ)
    (r : WriteResult) (resolved : Text) : Type 0 where
  pub content : Text
  pub given : arg_string {E = E} args (lit "content") ≡ ok content
  pub counted : r.bytes_written ≡ length content
  pub fits : length content ≤ or_default limit default_write_file_max_bytes
  pub holds :
      ((r.mode ≡ lit "overwrite") × (disk.read_file w' resolved ≡ ok content))
      ⊎ ((r.mode ≡ lit "append")
          × ((s : Text)
              → disk.read_file w resolved ≡ ok s
              → disk.read_file w' resolved ≡ ok (s ++ content)))
