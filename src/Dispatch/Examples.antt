-- ===== src/Dispatch/Examples.antt =====
-- A dispatcher over one file: the runner and the engine are concrete functions.
use nomad_dev.Base.{
  ℕ, ◌≡◌, refl, Bool, false, [], ◌∷◌, none, some, Option, Text, lit, text_eq, ok, pos,
  if◌then◌else◌, Result,
}
use nomad_dev.Dispatch.{
  Error, Step, Run, DispatchOptions, Applied, FsOps, Exec, Notice, stderr, exit, text_on,
  verify_applied, verify_request, send_all, cut_body, run_verify, stream_verify, send_verify,
}
use nomad_dev.Dispatch.Verify.{Settled, Restores, verify_applied-Settled}
use nomad_dev.Dispatch.Route.{mode_audit}

-- The host is the content of one file; nothing fails with an error of its own.
abbrev Host : Type 0
Host = Text

abbrev engine : FsOps Host (Unit {0}) (Unit {0})
engine = record {
  run = λ w sid c limits.
      if text_eq c.tool (lit "write_patch") then (lit "new", ok []) else (w, ok []);
  apply = λ w sid args limits. (
    lit "new",
    ok (record {
      snapshot = w;
      resolved_path = lit "/w/f";
      path = lit "f";
      body = some (lit "{}");
    }),
  );
  restore = λ w sid path snapshot. (snapshot, none);
}

abbrev read : Host → Text → Option Text
read w path = some w

-- A verify command that writes, says something, may write once more, and exits with 1.
abbrev first : Step Host (Unit {0})
first = record {
  chunk = text_on stderr (lit "no");
  work = λ v. lit "written";
  late = λ v. lit "overwritten";
}

abbrev second : Step Host (Unit {0})
second = record {
  chunk = record { stream = exit; data_of = []; exit_code = pos 1; error = none };
  work = λ v. v;
  late = λ v. v;
}

abbrev runner : Exec Host (Unit {0}) (Unit {0})
runner w request = (w, ok (record { steps = first ∷ second ∷ []; last_work = λ v. v }))

abbrev say : Notice (Unit {0}) → Text
say n = lit "rolled back"

abbrev never : ℕ → Bool
never i = false

abbrev applied : Applied
applied = record {
  snapshot = lit "old";
  resolved_path = lit "/w/f";
  path = lit "f";
  body = some (lit "{}");
}

abbrev opts : DispatchOptions (Unit {0}) (Unit {0})
opts = record {
  working_dir = [];
  timeout = pos 0;
  session_id = lit "s";
  sandbox_limits = tt;
  fsops_limits = tt;
  max_result_bytes = pos 0;
  mode = mode_audit;
}

restores : Restores engine read
restores w sid path snapshot h = refl

abbrev started : Result (Error (Unit {0})) (Run Host (Unit {0}))
started = (runner (lit "new") (verify_request opts (lit "make test"))).1

verify_applied-Settled_example : Settled engine read never (lit "s") applied started (
    verify_applied say engine runner never
      (lit "s")
      applied
      (verify_request opts (lit "make test"))
      (lit "new"))
verify_applied-Settled_example =
    verify_applied-Settled say engine read restores runner never (lit "s") applied
      (verify_request opts (lit "make test")) (lit "new")

rolled_back :
    (verify_applied say engine runner never
      (lit "s")
      applied
      (verify_request opts (lit "make test"))
      (lit "new")).0
    ≡ lit "old"
unfolding verify_applied send_all cut_body run_verify stream_verify send_verify
rolled_back = refl

-- The context is done at the second select, where the first chunk of the command is passed on.
abbrev second_select : ℕ → Bool
second_select i = text_eq (i ∷ []) (1 ∷ [])

-- The command writes behind the restore.
overwritten :
    (verify_applied say engine runner second_select
      (lit "s")
      applied
      (verify_request opts (lit "make test"))
      (lit "new")).0
    ≡ lit "overwritten"
unfolding verify_applied send_all cut_body run_verify stream_verify send_verify text_eq
overwritten = refl
