-- ===== src/Fsops/Examples.antt =====
-- An engine over a directory of a few files, held as an association list.
use nomad_dev.Base.{
  ◌≢◌, ℕ, zero, suc, subst, ◌+◌, ◌≤◌, ◌<◌, ◌≡◌, refl, inl, inr, Bool, true, false, List, [], ◌∷◌,
  ◌++◌, Option, none, some, Text, lit, text_eq, has_prefix, contains, clean, has_byte, IsPlain,
  split, length, take, drop, lookup, insert, if◌then◌else◌, Result, ok, err, All, pos, arith,
  ok-injective, join, decimal,
}
use nomad_dev.Base.Json.{Fields, str, num, end, field, get, has_key}
use nomad_dev.Dispatch.{
  Notice, Exec, Step, Call, DispatchOptions, exit, apply_code_patch_with_verify, verify_applied,
  send_all, cut_body, run_verify, stream_verify, send_verify,
}
use nomad_dev.Fsops.{
  sanitize_loop, sanitize_byte, Fault, regular, DirEntry, Disk, Engine, arg_string,
  arg_string_allow_empty, arg_positive, sanitize_sid, resolve_safe,
}
use nomad_dev.Fsops.Sessions.{sanitize_sid-IsPlain, sanitize_sid-distinct, IsName}
use nomad_dev.Fsops.Read.{
  Reader, IsReader, ReadEnd, eof, Sends, run_read_file, run_read_file-Sends,
  hard_read_file_max_bytes,
}
use nomad_dev.Fsops.Listing.{ListEntry, NamesPlain, list_dir, slashes, list_dir-depth}
use nomad_dev.Fsops.Edit.{
  Plan, plan_edit, count_from, index_of, render_unified_diff, hunk_of, newlines,
}
use nomad_dev.Fsops.Edit.Unique.{Occurs, plan_edit_lem}
use nomad_dev.Fsops.Edit.Diff.{Turns, hunk_of-Turns}
use nomad_dev.Fsops.Write.{WriteResult, apply_code_patch_inner, restore_file}
use nomad_dev.Fsops.Write.Wrote.{Wrote}
use nomad_dev.Fsops.Service.{FsLimits, Host, engine_apply, engine_restore, ops}

abbrev Files : Type 0
Files = List (Text × Text)

abbrev to_result : Option Text → Result (Unit {0}) Text
to_result none = err tt
to_result (some s) = ok s

abbrev open_existing : Files → Text → Files × Option (Unit {0})
open_existing w p = elim (lookup p w) [ none ↦ (w, some tt) | some s ↦ (insert p [] w, none) ]

abbrev append_to : Files → Text → Option Text → Files
append_to w p none = w
append_to w p (some s) = insert p s w

abbrev disk : Disk Files (Unit {0})
disk = record {
  eval_symlinks = λ w p.
      if text_eq p (lit "/w") then ok p else elim (lookup p w) [ none ↦ err tt | some s ↦ ok p ];
  is_not_exist = λ e. true;
  mkdir_all = λ w d. (w, none);
  is_dir = λ w p. ok (text_eq p (lit "/w"));
  read_dir = λ w p. ok (record { name = lit "f"; kind = regular; size = 3 } ∷ []);
  read_file = λ w p. to_result (lookup p w);
  open_truncated = λ w p. open_existing w p;
  open_created = λ w p. (insert p [] w, none);
  open_appending = λ w p. (w, none);
  write = λ w p t. (elim (lookup p w) [ none ↦ w | some s ↦ insert p (s ++ t) w ], none);
}

abbrev engine : Engine
engine = record { root = lit "/w"; per_session = false }

abbrev files : Files
files = (lit "/w/f", lit "one") ∷ []

sanitize_sid-IsPlain_example :
    IsPlain (sanitize_sid (lit "../x")) × (length (sanitize_sid (lit "../x")) ≤ 64)
sanitize_sid-IsPlain_example =
    sanitize_sid-IsPlain (lit "../x") (λ e. absurd (cc e)) (λ e. absurd (cc e))

plain-IsName : IsName (lit "a.b")
plain-IsName = record {
  name_bytes = (inl (omega arith), (inr (inr (inr (inl refl))), (inl (omega arith), tt)));
  no_dots = (refl, (refl, tt));
  short = omega arith;
}

other-IsName : IsName (lit "a_b")
other-IsName = record {
  name_bytes = (inl (omega arith), (inr (inr (inr (inr (inl refl)))), (inl (omega arith), tt)));
  no_dots = (refl, (refl, tt));
  short = omega arith;
}

sanitize_sid-distinct_example : sanitize_sid (lit "a.b") ≢ sanitize_sid (lit "a_b")
sanitize_sid-distinct_example =
    sanitize_sid-distinct (lit "a.b") (lit "a_b") plain-IsName other-IsName (λ e. absurd (cc e))

-- Ids that are no names may share a directory.
shared : sanitize_sid (lit "a/b") ≡ sanitize_sid (lit "a_b")
unfolding sanitize_sid sanitize_loop sanitize_byte
shared = refl

abbrev plan : Plan
plan = record {
  resolved = lit "/w/f";
  path = lit "f";
  original = lit "a b";
  new_content = lit "a cd";
  line_number = 1;
  unified_diff = lit "--- a/f\n+++ b/f\n@@ -1,1 +1,1 @@\n-a b\n+a cd\n";
}

planned :
    plan_edit {E = Unit {0}} (lit "f") (lit "/w/f") (lit "a b") (lit "b") (lit "cd") 100 ≡ ok plan
unfolding plan_edit count_from has_prefix index_of newlines render_unified_diff decimal split
planned = refl

plan_edit_lem_example :
    (o : Occurs (lit "b") (lit "a b")) × (plan.new_content ≡ o.front ++ (lit "cd" ++ o.back))
    × (plan.line_number ≡ 1 + newlines o.front)
    × (plan.original ≡ lit "a b")
    × (length plan.new_content ≤ 100)
plan_edit_lem_example =
    plan_edit_lem {E = Unit {0}} (lit "f") (lit "/w/f") (lit "a b") b'b' [] (lit "cd") 100 plan
      planned

hunk_of-Turns_example :
    let h =
      hunk_of
        (lit "a\n" ++ (lit "b" ++ lit "\nc"))
        (lit "a\n" ++ (lit "x\ny" ++ lit "\nc"))
        (length (lit "a\n"))
        (length (lit "b"))
        (length (lit "x\ny")) in
    Turns h
      (split 10 (lit "a\n" ++ (lit "b" ++ lit "\nc")))
      (split 10 (lit "a\n" ++ (lit "x\ny" ++ lit "\nc")))
    × (length h.leading ≤ 3)
    × (length h.trailing ≤ 3)
hunk_of-Turns_example = hunk_of-Turns (lit "a\n") (lit "b") (lit "x\ny") (lit "\nc")

abbrev at_end : Text → Option (ReadEnd (Unit {0}))
at_end [] = some eof
at_end (b ∷ s) = none

abbrev reader : Reader Text (Unit {0})
reader left n = (drop n left, take n left, at_end left)

take_fits : (n : ℕ) (s : Text) → length (take n s) ≤ n
take_fits zero s = omega arith
take_fits (suc n) [] = omega arith
take_fits (suc n) (b ∷ s) = omega (arith, take_fits n s)

reader_ends : (left : Text) (n : ℕ) → 1 ≤ n → at_end left ≡ none → 1 ≤ length (take n left)
reader_ends [] n h e = absurd (cc e)
reader_ends (b ∷ s) zero h e = absurd (omega (arith, h))
reader_ends (b ∷ s) (suc n) h e = omega arith

reader-IsReader : IsReader reader
reader-IsReader = record { fits = λ left n. take_fits n left; ends = λ left n. reader_ends left n }

abbrev open_text : Files → Text → Result (Unit {0}) Text
open_text w p = to_result (lookup p w)

abbrev never : ℕ → Bool
never i = false

abbrev read_args : Fields
read_args = field (lit "path") (str (lit "f")) (field (lit "max_bytes") (num (pos 2)) end)

run_read_file-Sends_example :
    Sends
      (run_read_file disk open_text reader engine never files (lit "s") read_args (pos 0)).1
      hard_read_file_max_bytes
run_read_file-Sends_example =
    run_read_file-Sends disk open_text reader engine never files (lit "s") read_args (pos 0)
      reader-IsReader

names : NamesPlain disk
names w dir cs h =
    subst (All (λ (c : DirEntry). has_byte b'/' c.name ≡ false)) (ok-injective h) (refl, tt)

abbrev list_args : Fields
list_args = field (lit "path") (str (lit ".")) (field (lit "depth") (num (pos 2)) end)

listed :
    (list_dir disk engine files (lit "s") list_args).1
    ≡ ok (record { name = lit "f"; typ = lit "file"; size = 3 } ∷ [])
unfolding list_dir arg_string has_key text_eq get resolve_safe has_prefix clean split contains join
    arg_positive
listed = refl

asked_depth : get (lit "depth") list_args ≡ num (pos 2)
unfolding get text_eq
asked_depth = refl

list_dir-depth_example :
    All
      (λ (x : ListEntry). (slashes x.name < 2) × (slashes x.name < 4))
      (record { name = lit "f"; typ = lit "file"; size = 3 } ∷ [])
list_dir-depth_example =
    list_dir-depth disk engine files (lit "s") list_args _ 2 names (inl (asked_depth, omega arith))
      listed

abbrev write_args : Fields
write_args =
    field (lit "path") (str (lit "f"))
      (field (lit "content") (str (lit " two")) (field (lit "mode") (str (lit "APPEND")) end))

abbrev write_made : WriteResult
write_made = record { path = lit "f"; bytes_written = 4; mode = lit "append" }

abbrev host : Host Files (Unit {0}) Text
host = record {
  disk = disk;
  open_file = open_text;
  reader = reader;
  encoder = record { listing = λ p es. []; written = λ r. []; patched = λ r. lit "{}" };
  engine = engine;
  done = never;
}

abbrev failing : Step Files (Fault (Unit {0}))
failing = record {
  chunk = record { stream = exit; data_of = []; exit_code = pos 1; error = none };
  work = λ v. v;
  late = λ v. v;
}

abbrev runner : Exec Files (Fault (Unit {0})) (Unit {0})
runner w request = (w, ok (record { steps = failing ∷ []; last_work = λ v. v }))

abbrev say : Notice (Fault (Unit {0})) → Text
say n = lit "rolled back"

abbrev edit : Call
edit = record {
  tool = lit "apply_code_patch";
  args =
      field (lit "file_path") (str (lit "f"))
        (field (lit "search_string") (str (lit "ne")) (field (lit "replace_string") (str []) end));
}

abbrev opts : DispatchOptions (Unit {0}) FsLimits
opts = record {
  working_dir = [];
  timeout = pos 0;
  session_id = lit "s";
  sandbox_limits = tt;
  fsops_limits = record { read_file_max_bytes = pos 0; write_file_max_bytes = pos 0 };
  max_result_bytes = pos 0;
  mode = [];
}

patched :
    (engine_apply host files (lit "s") edit.args opts.fsops_limits).0 ≡ (lit "/w/f", lit "o") ∷ []
unfolding engine_apply apply_code_patch_inner arg_string has_key text_eq get arg_string_allow_empty
    resolve_safe has_prefix clean split join contains lookup count_from index_of insert
patched = refl

-- The command exits with 1, and the file is what it was.
undone :
    (apply_code_patch_with_verify say
      (ops host)
      runner
      host.done
      edit
      opts
      (lit "make test")
      files).0
    ≡ files
unfolding apply_code_patch_with_verify engine_apply apply_code_patch_inner arg_string has_key
    text_eq get arg_string_allow_empty resolve_safe has_prefix clean split join contains lookup
    count_from index_of insert verify_applied send_all cut_body run_verify stream_verify send_verify
    engine_restore restore_file
undone = refl
