-- ===== src/WorkerPool/Parsed.antt =====
-- Lemmas about ParseWorkerPoolArgs of internal/middleware/workerpool.go.
use nomad_dev.Base.{
  IsNameByte, ◌⊎◌, ℕ, ◌+◌, ◌≤◌, ◌<◌, ◌≡◌, ◌≢◌, true, false, List, [], ◌∷◌, arith, Text, text_eq,
  text_eq_iff, contains, trim_space, clean-IsInside, IsInside, dotdot, lit, ltb, length, any_of,
  All, ok, >>=-eq-ok, refuse_if, refuse_if-eq-ok, subst, sym, inl, inr, Bool-cases, true-≢-false,
  ◌&&◌, ok-injective,
}
use nomad_dev.Base.Json.{Json, Fields, get, as_str, as_obj, str_or_empty}
use nomad_dev.WorkerPool.{
  SubTask, PoolError, tasks_not_array, task_not_object, prompt_empty, prompt_too_long,
  paths_not_array, duplicate_id, id_or_default, max_sub_task_prompt_bytes, all_id_bytes, is_id_byte,
  validate_task_id, clean_scope_path, clean_paths, parse_task_paths, parse_task, parse_tasks,
  or_fail, paths_not_strings, check_against, check_disjoint, parse_worker_pool_args,
  non_empty_array,
}
use nomad_dev.WorkerPool.Scopes.{path_in_scope, scopes_overlap-none}

-- A scope entry that is accepted names something strictly inside the workspace: it is a chain of
-- plain elements, with no "..", no "." and no leading slash.
pub clean_scope_path-IsInside : (p c : Text) → clean_scope_path p ≡ ok c → IsInside c
unfolding clean_scope_path
clean_scope_path-IsInside p c h = ground (arith, clean-IsInside (trim_space p))

clean_paths-IsInside :
    (raws : List Json) (i : ℕ) (cs : List Text) → clean_paths raws i ≡ ok cs → All IsInside cs
unfolding clean_paths
clean_paths-IsInside [] i cs h = ground arith
clean_paths-IsInside (raw ∷ raws) i cs h =
    let (s, hs, k) = >>=-eq-ok (or_fail (as_str raw) (paths_not_strings i)) _ h in
    let (c, hc, k') = >>=-eq-ok (clean_scope_path s) _ k in
    let (rest, hr, e) = >>=-eq-ok (clean_paths raws i) _ k' in
    ground (arith, clean_scope_path-IsInside s c hc, clean_paths-IsInside raws i rest hr)

length-clean_paths :
    (raws : List Json) (i : ℕ) (cs : List Text)
    → clean_paths raws i ≡ ok cs
    → length cs ≡ length raws
unfolding clean_paths
length-clean_paths [] i cs h = ground arith
length-clean_paths (raw ∷ raws) i cs h =
    let (s, hs, k) = >>=-eq-ok (or_fail (as_str raw) (paths_not_strings i)) _ h in
    let (c, hc, k') = >>=-eq-ok (clean_scope_path s) _ k in
    let (rest, hr, e) = >>=-eq-ok (clean_paths raws i) _ k' in
    ground (arith, length-clean_paths raws i rest hr)

non_empty_array-ok :
    (v : Json) (e : PoolError) (vs : List Json) → non_empty_array v e ≡ ok vs → 0 < length vs
non_empty_array-ok v e vs h = ground arith

-- An id of at most 64 bytes, all of them letters, digits, '.', '_' or '-', and no two dots in a row.
pub record IsPlainId (id : Text) : Type 0 where
  pub short : length id ≤ 64
  pub no_dots : contains id dotdot ≡ false
  pub plain : All IsNameByte id

is_id_byte-IsNameByte : (r : ℕ) → is_id_byte r ≡ true → IsNameByte r
is_id_byte-IsNameByte r h = ground arith

all_id_bytes-IsNameByte : (id : Text) → all_id_bytes id ≡ true → All IsNameByte id
unfolding all_id_bytes
all_id_bytes-IsNameByte [] h = tt
all_id_bytes-IsNameByte (r ∷ id) h = elim (Bool-cases (is_id_byte r)) [
  | inl e ↦ (is_id_byte-IsNameByte r e, all_id_bytes-IsNameByte id (rw e at h))
  | inr e ↦ absurd (true-≢-false (sym (rw e at h)))
]

validate_task_id-IsPlainId : (id : Text) {u : Unit {0}} → validate_task_id id ≡ ok u → IsPlainId id
unfolding validate_task_id
validate_task_id-IsPlainId id h = record {
  short = ground arith;
  no_dots = ground arith;
  plain = all_id_bytes-IsNameByte id (ground arith);
}

-- A task whose prompt says something, fits its cap, and whose scope is not empty.
pub record IsSafeTask (t : SubTask) : Type 0 where
  pub id_plain : IsPlainId t.id
  pub prompt_given : trim_space t.prompt ≢ []
  pub prompt_short : length t.prompt ≤ max_sub_task_prompt_bytes
  pub paths_given : t.paths ≢ []
  pub paths_inside : All IsInside t.paths

parse_task_paths-IsInside :
    (v : Json) (i : ℕ) (cs : List Text) → parse_task_paths v i ≡ ok cs → (cs ≢ []) × All IsInside cs
unfolding parse_task_paths
parse_task_paths-IsInside v i cs h =
    let (raws, hv, k) = >>=-eq-ok (non_empty_array v (paths_not_array i)) _ h in
    ground (
      arith,
      non_empty_array-ok v (paths_not_array i) raws hv,
      length-clean_paths raws i cs k,
      clean_paths-IsInside raws i cs k,
    )

-- The checks of one round, each of which let the task pass.
checked-IsSafeTask :
    (i : ℕ) (seen : List Text) (v : Json) (id prompt : Text) (paths : List Text)
    {a b c d : Unit {0}}
    → refuse_if (text_eq (trim_space prompt) []) (prompt_empty i) ≡ ok a
    → refuse_if (ltb max_sub_task_prompt_bytes (length prompt)) (prompt_too_long i) ≡ ok b
    → parse_task_paths v i ≡ ok paths
    → validate_task_id id ≡ ok c
    → refuse_if (any_of (λ s. text_eq s id) seen) (duplicate_id id) ≡ ok d
    → IsSafeTask (record { id = id; prompt = prompt; paths = paths })
      × (any_of (λ s. text_eq s id) seen ≡ false)
checked-IsSafeTask i seen v id prompt paths h1 h2 h3 h4 h5 = (
  record {
    id_plain = validate_task_id-IsPlainId id h4;
    prompt_given = ground (arith, text_eq_iff (trim_space prompt) []);
    prompt_short = ground arith;
    paths_given = (parse_task_paths-IsInside v i paths h3).0;
    paths_inside = (parse_task_paths-IsInside v i paths h3).1;
  },
  refuse_if-eq-ok _ _ h5,
)

parse_task-IsSafeTask :
    (elem : Json) (i : ℕ) (seen : List Text) (t : SubTask)
    → parse_task elem i seen ≡ ok t
    → IsSafeTask t × (any_of (λ s. text_eq s t.id) seen ≡ false)
unfolding parse_task
parse_task-IsSafeTask elem i seen t h =
    let (m, hm, k) = >>=-eq-ok (or_fail (as_obj elem) (task_not_object i)) _ h in
    let prompt : Text = str_or_empty (get (lit "prompt") m) in
    let id : Text = id_or_default (trim_space (str_or_empty (get (lit "id") m))) i in
    let (_, h1, k1) = >>=-eq-ok (refuse_if (text_eq (trim_space prompt) []) (prompt_empty i)) _ k in
    let (_, h2, k2) =
      >>=-eq-ok (refuse_if (ltb max_sub_task_prompt_bytes (length prompt)) (prompt_too_long i)) _
        k1 in
    let (paths, h3, k3) = >>=-eq-ok (parse_task_paths (get (lit "paths") m) i) _ k2 in
    let (_, h4, k4) = >>=-eq-ok (validate_task_id id) _ k3 in
    let (_, h5, k5) =
      >>=-eq-ok (refuse_if (any_of (λ s. text_eq s id) seen) (duplicate_id id)) _ k4 in
    let made : record { id = id; prompt = prompt; paths = paths } ≡ t = ok-injective k5 in
    subst (λ u. IsSafeTask u × (any_of (λ s. text_eq s u.id) seen ≡ false)) made
      (checked-IsSafeTask i seen _ id prompt paths h1 h2 h3 h4 h5)

-- No two tasks carry the same id.
abbrev pub DistinctIds : List SubTask → Type 0
DistinctIds [] = Unit {0}
DistinctIds (t ∷ ts) = All (λ u. u.id ≢ t.id) ts × DistinctIds ts

-- No workspace path is in the scope of two tasks.
abbrev pub DisjointScopes : List SubTask → Type 0
DisjointScopes [] = Unit {0}
DisjointScopes (t ∷ ts) =
    All (λ u. (p : Text) → path_in_scope p t.paths ≡ true → path_in_scope p u.paths ≡ false) ts
    × DisjointScopes ts

not_seen :
    (seen : List Text) (id s : Text)
    → any_of (λ r. text_eq r id) seen ≡ false
    → any_of (λ r. text_eq r s) seen ≡ true
    → id ≢ s
not_seen seen id s f m e = cc (subst (λ u. any_of (λ r. text_eq r u) seen ≡ false) e f)

parse_tasks_seen :
    (elems : List Json) (i : ℕ) (seen : List Text) (ts : List SubTask) (s : Text)
    → parse_tasks elems i seen ≡ ok ts
    → any_of (λ r. text_eq r s) seen ≡ true
    → All (λ u. u.id ≢ s) ts
unfolding parse_tasks
parse_tasks_seen [] i seen ts s h m = ground arith
parse_tasks_seen (elem ∷ elems) i seen ts s h m =
    let (t, ht, k) = >>=-eq-ok (parse_task elem i seen) _ h in
    let (rest, hr, e) = >>=-eq-ok (parse_tasks elems (i + 1) (t.id ∷ seen)) _ k in
    ground (
      arith,
      parse_tasks_seen elems (i + 1) (t.id ∷ seen) rest s hr,
      not_seen seen t.id s (parse_task-IsSafeTask elem i seen t ht).1 m,
    )

parse_tasks-IsSafeTask :
    (elems : List Json) (i : ℕ) (seen : List Text) (ts : List SubTask)
    → parse_tasks elems i seen ≡ ok ts
    → All IsSafeTask ts × DistinctIds ts × (length ts ≡ length elems)
unfolding parse_tasks
parse_tasks-IsSafeTask [] i seen ts h = ground arith
parse_tasks-IsSafeTask (elem ∷ elems) i seen ts h =
    let (t, ht, k) = >>=-eq-ok (parse_task elem i seen) _ h in
    let (rest, hr, e) = >>=-eq-ok (parse_tasks elems (i + 1) (t.id ∷ seen)) _ k in
    ground (
      arith,
      parse_task-IsSafeTask elem i seen t ht,
      parse_tasks_seen elems (i + 1) (t.id ∷ seen) rest t.id hr,
      parse_tasks-IsSafeTask elems (i + 1) (t.id ∷ seen) rest hr,
      text_eq_iff t.id t.id,
    )

check_against-ok :
    (t : SubTask) (us : List SubTask)
    → check_against t us ≡ ok tt
    → All (λ u. (p : Text) → path_in_scope p t.paths ≡ true → path_in_scope p u.paths ≡ false) us
unfolding check_against
check_against-ok t [] h = tt
check_against-ok t (u ∷ us) h = (
  λ p. scopes_overlap-none t.paths u.paths p (ground arith),
  check_against-ok t us (ground arith),
)

check_disjoint-DisjointScopes : (ts : List SubTask) → check_disjoint ts ≡ ok tt → DisjointScopes ts
unfolding check_disjoint
check_disjoint-DisjointScopes [] h = tt
check_disjoint-DisjointScopes (t ∷ ts) h =
    (check_against-ok t ts (ground arith), check_disjoint-DisjointScopes ts (ground arith))

-- Arguments that are accepted give a non-empty pool, within the limit if there is one, of tasks with
-- distinct plain ids, with prompts that are not blank and fit the cap, and with scopes that are not
-- empty and lie inside the workspace; and no workspace path lies in the scopes of two of them.
pub record IsPool (max_tasks : ℕ) (ts : List SubTask) : Type 0 where
  pub some_tasks : ts ≢ []
  pub within_limit : (max_tasks ≡ 0) ⊎ (length ts ≤ max_tasks)
  pub tasks_safe : All IsSafeTask ts
  pub ids_distinct : DistinctIds ts
  pub scopes_disjoint : DisjointScopes ts

-- What is accepted is a pool: at least one task and at most the limit (0 for none), every task with a prompt that is
-- not blank and of bounded length, with an id of at most 64 letters, digits, '.', '_' and '-' with no two dots in a
-- row, and with scopes inside the workspace; no two tasks with one id, and no path in the scopes of two tasks.
pub parse_worker_pool_args-IsPool :
    (args : Fields) (max_tasks : ℕ) (ts : List SubTask)
    → parse_worker_pool_args args max_tasks ≡ ok ts
    → IsPool max_tasks ts
unfolding parse_worker_pool_args
parse_worker_pool_args-IsPool args max_tasks ts h =
    let (raw, hr, k) = >>=-eq-ok (non_empty_array (get (lit "tasks") args) tasks_not_array) _ h in
    let (_, hl, k1) = >>=-eq-ok (refuse_if (ltb 0 max_tasks && ltb max_tasks (length raw)) _) _ k in
    let (tasks, ht, k2) = >>=-eq-ok (parse_tasks raw 0 []) _ k1 in
    let (_, hd, k3) = >>=-eq-ok (check_disjoint tasks) _ k2 in
    let (safe, distinct, same_length) = parse_tasks-IsSafeTask raw 0 [] tasks ht in
    let given = non_empty_array-ok _ _ raw hr in
    rw (← ok-injective k3) (record {
      some_tasks = ground arith;
      within_limit = ground arith;
      tasks_safe = safe;
      ids_distinct = distinct;
      scopes_disjoint = check_disjoint-DisjointScopes tasks hd;
    })
