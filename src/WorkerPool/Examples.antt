-- ===== src/WorkerPool/Examples.antt =====
-- Runs of the decoder of dispatch_worker_pool's arguments.
use nomad_dev.Base.{
  ◌≡◌, refl, List, [], ◌∷◌, Text, lit, text_eq, has_prefix, contains, trim_space, clean, ok, err,
  split, join,
}
use nomad_dev.Base.Json.{Json, Fields, str, arr, obj, nil, cons, end, field, get}
use nomad_dev.WorkerPool.{
  SubTask, overlapping_paths, clean_scope_path, parse_worker_pool_args, parse_tasks, parse_task,
  parse_task_paths, clean_paths, validate_task_id, all_id_bytes, check_disjoint, check_against,
}
use nomad_dev.WorkerPool.Scopes.{scopes_overlap, conflict_with, paths_conflict}
use nomad_dev.WorkerPool.Parsed.{IsPool, parse_worker_pool_args-IsPool}

abbrev task : Text → Text → Json
task id path = obj (
    field (lit "id") (str id)
      (field (lit "prompt") (str (lit "go")) (field (lit "paths") (arr (cons (str path) nil)) end)))

abbrev args : Text → Text → Fields
args p q = field (lit "tasks") (arr (cons (task (lit "a") p) (cons (task (lit "b") q) nil))) end

abbrev accepted : List SubTask
accepted =
    record { id = lit "a"; prompt = lit "go"; paths = lit "web" ∷ [] }
    ∷ record { id = lit "b"; prompt = lit "go"; paths = lit "api" ∷ [] }
    ∷ []

accepted_run : parse_worker_pool_args (args (lit "web/") (lit "api")) 4 ≡ ok accepted
unfolding parse_worker_pool_args get text_eq parse_tasks parse_task trim_space has_prefix
    parse_task_paths clean_paths clean_scope_path clean split join validate_task_id contains
    all_id_bytes check_disjoint check_against conflict_with paths_conflict scopes_overlap
accepted_run = refl

parse_worker_pool_args-IsPool_example : IsPool 4 accepted
parse_worker_pool_args-IsPool_example =
    parse_worker_pool_args-IsPool (args (lit "web/") (lit "api")) 4 accepted accepted_run

clean_scope_path_run : clean_scope_path (lit " web/../api ") ≡ ok (lit "api")
unfolding clean_scope_path text_eq trim_space has_prefix clean split join
clean_scope_path_run = refl

overlap_refused :
    parse_worker_pool_args (args (lit "web") (lit "web/app")) 4
    ≡ err (overlapping_paths (lit "a") (lit "b") (lit "web") (lit "web/app"))
unfolding parse_worker_pool_args get text_eq parse_tasks parse_task trim_space has_prefix
    parse_task_paths clean_paths clean_scope_path clean split join validate_task_id contains
    all_id_bytes check_disjoint check_against conflict_with paths_conflict scopes_overlap
overlap_refused = refl
