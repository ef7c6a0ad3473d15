-- ===== src/WorkerPool.antt =====
-- internal/middleware/workerpool.go: the arguments of dispatch_worker_pool, decoded and validated.
-- Every error of the source wraps ErrToolValidation; here a constructor tells which one it is.
pub mod Scopes
pub mod Parsed
mod Examples
use nomad_dev.Base.{
  ℕ, suc, ◌+◌, ◌*◌, Bool, true, false, not, ◌&&◌, ◌||◌, List, [], ◌∷◌, ◌++◌, Option, none, some,
  Text, lit, text_eq, has_prefix, contains, trim_space, clean, decimal, dot, dotdot, slash, leb,
  ltb, ◌==◌, if◌then◌else◌, length, any_of, Result, ok, err, ◌>>=◌, ◌>>◌, refuse_if,
}
use nomad_dev.Base.Json.{Json, Fields, get, as_str, as_arr, as_obj, str_or_empty}
use Scopes.{scopes_overlap}

pub data PoolError : Type 0 where
  tasks_not_array : PoolError
  too_many_tasks : ℕ → PoolError
  task_not_object prompt_empty prompt_too_long paths_not_array paths_not_strings : ℕ → PoolError
  path_empty : PoolError
  path_absolute path_outside path_escapes : Text → PoolError
  id_too_long id_has_dots id_bad_char duplicate_id : Text → PoolError
  overlapping_paths : Text → Text → Text → Text → PoolError

abbrev pub Checked {ℓ} : Type ℓ → Type ℓ
Checked = Result PoolError

abbrev pub max_sub_task_prompt_bytes : ℕ
max_sub_task_prompt_bytes = 16 * 1024

pub record SubTask : Type 0 where
  pub id : Text
  pub prompt : Text
  pub paths : List Text

-- The bytes that a task id may hold; a rune outside ASCII has no byte among them.
abbrev pub is_id_byte : ℕ → Bool
is_id_byte r =
    (leb b'a' r && leb r b'z')
    || (leb b'A' r && leb r b'Z')
    || (leb b'0' r && leb r b'9')
    || r == b'.'
    || (r == b'_' || r == b'-')

unfoldable pub all_id_bytes : Text → Bool
all_id_bytes [] = true
all_id_bytes (r ∷ s) = is_id_byte r && all_id_bytes s

unfoldable pub validate_task_id : Text → Checked (Unit {0})
validate_task_id id = do
  refuse_if (ltb 64 (length id)) (id_too_long id)
  refuse_if (contains id dotdot) (id_has_dots id)
  refuse_if (not (all_id_bytes id)) (id_bad_char id)

-- Both cleaners trim, refuse the empty and the absolute path, and clean; then they differ.
unfoldable pub clean_scope_path : Text → Checked Text
clean_scope_path p = do
  let t = trim_space p
  refuse_if (text_eq t []) path_empty
  refuse_if (has_prefix t slash) (path_absolute t)
  let c = clean t
  refuse_if (text_eq c dot || (text_eq c dotdot || has_prefix c (lit "../"))) (path_outside t)
  ok c

unfoldable pub clean_workspace_path : Text → Checked Text
clean_workspace_path p = do
  let t = trim_space p
  refuse_if (text_eq t []) path_empty
  refuse_if (has_prefix t slash) (path_absolute t)
  let c = clean t
  refuse_if (text_eq c dotdot || has_prefix c (lit "../")) (path_escapes t)
  ok c

abbrev pub or_fail {ℓ} : {A : Type ℓ} → Option A → PoolError → Checked A
or_fail none e = err e
or_fail (some a) e = ok a

-- `list, ok := v.([]any); !ok || len(list) == 0`.
abbrev pub non_empty_array : Json → PoolError → Checked (List Json)
non_empty_array v e = elim (as_arr v) [
  | none ↦ err e
  | some vs ↦ elim vs [ [] ↦ err e | w ∷ ws ↦ ok (w ∷ ws) ]
]

unfoldable pub clean_paths : List Json → ℕ → Checked (List Text)
clean_paths [] task_idx = ok []
clean_paths (raw ∷ raws) task_idx = do
  s ← or_fail (as_str raw) (paths_not_strings task_idx)
  cleaned ← clean_scope_path s
  rest ← clean_paths raws task_idx
  ok (cleaned ∷ rest)

unfoldable pub parse_task_paths : Json → ℕ → Checked (List Text)
parse_task_paths v task_idx = do
  raws ← non_empty_array v (paths_not_array task_idx)
  clean_paths raws task_idx

-- `id`, or `task<i+1>` where none is given.
abbrev pub id_or_default : Text → ℕ → Text
id_or_default id i = if text_eq id [] then lit "task" ++ decimal (i + 1) else id

-- One round of the loop over `raw`.
unfoldable pub parse_task : Json → ℕ → List Text → Checked SubTask
parse_task elem i seen = do
  m ← or_fail (as_obj elem) (task_not_object i)
  let prompt = str_or_empty (get (lit "prompt") m)
  refuse_if (text_eq (trim_space prompt) []) (prompt_empty i)
  refuse_if (ltb max_sub_task_prompt_bytes (length prompt)) (prompt_too_long i)
  paths ← parse_task_paths (get (lit "paths") m) i
  let id = id_or_default (trim_space (str_or_empty (get (lit "id") m))) i
  validate_task_id id
  refuse_if (any_of (λ s. text_eq s id) seen) (duplicate_id id)
  ok (record { id = id; prompt = prompt; paths = paths })

unfoldable pub parse_tasks : List Json → ℕ → List Text → Checked (List SubTask)
parse_tasks [] i seen = ok []
parse_tasks (elem ∷ elems) i seen = do
  task ← parse_task elem i seen
  rest ← parse_tasks elems (i + 1) (task.id ∷ seen)
  ok (task ∷ rest)

-- The inner loop of the overlap check: `t` against the tasks behind it.
unfoldable pub check_against : SubTask → List SubTask → Checked (Unit {0})
check_against t [] = ok tt
check_against t (u ∷ us) = elim (scopes_overlap t.paths u.paths) [
  | some (p, q) ↦ err (overlapping_paths t.id u.id p q)
  | none ↦ check_against t us
]

unfoldable pub check_disjoint : List SubTask → Checked (Unit {0})
check_disjoint [] = ok tt
check_disjoint (t ∷ ts) = do check_against t ts; check_disjoint ts

-- `maxTasks <= 0` means no limit.
unfoldable pub parse_worker_pool_args : Fields → ℕ → Checked (List SubTask)
parse_worker_pool_args args max_tasks = do
  raw ← non_empty_array (get (lit "tasks") args) tasks_not_array
  refuse_if (ltb 0 max_tasks && ltb max_tasks (length raw)) (too_many_tasks (length raw))
  tasks ← parse_tasks raw 0 []
  check_disjoint tasks
  ok tasks

abbrev pub tool_dispatch_worker_pool : Text
tool_dispatch_worker_pool = lit "dispatch_worker_pool"

-- SubDispatcherTools, over the tools' names and what else a ToolSpec holds.
unfoldable pub sub_dispatcher_tools : {S : Type 0} → List (Text × S) → List (Text × S)
sub_dispatcher_tools [] = []
sub_dispatcher_tools ((name, spec) ∷ all) =
    let rest = sub_dispatcher_tools all in
    if text_eq name tool_dispatch_worker_pool then rest else (name, spec) ∷ rest
