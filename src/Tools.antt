-- ===== src/Tools.antt =====
-- Validate of internal/middleware/tools.go: the arguments of a tool call, before it is approved or run. `parse_url` is
-- url.Parse, by the scheme and the host that it finds. The checks of search_syntax and of lsp_query, which
-- read fractions of numbers, are a parameter.
pub mod Accepted
mod Examples
use nomad_dev.Base.{
  ℕ, ◌*◌, Bool, true, false, not, ◌&&◌, ◌||◌, [], ◌∷◌, Option, none, some, Text, lit, text_eq,
  has_prefix, trim_space, length, ltb, if◌then◌else◌, Result, ok, err, ◌>>=◌, ◌>>◌, refuse_if,
}
use nomad_dev.Base.Json.{Json, Fields, str, get, has_key, str_or_empty}
use nomad_dev.Auth.Scopes.{github_prefix}
use nomad_dev.WorkerPool.{PoolError, parse_worker_pool_args}
use nomad_dev.Fsops.Write.{lowered}

-- What an error that wraps ErrToolValidation says.
pub data Invalid : Type 0 where
  missing not_nonempty_string not_string too_long bad_value : Text → Invalid
  url_unparseable : Text → Invalid
  pool_invalid : PoolError → Invalid
  unknown_tool : Text → Invalid

unfoldable pub req_string : Fields → Text → Result Invalid Text
req_string args key =
    if has_key key args
    then (elim (get key args) [
      | str s ↦ if text_eq s [] then err (not_nonempty_string key) else ok s
      | _ ↦ err (not_nonempty_string key)
    ])
    else err (missing key)

unfoldable pub validate_execute_script : Fields → Result Invalid (Unit {0})
validate_execute_script args = do
  script ← req_string args (lit "script")
  refuse_if (ltb (64 * 1024) (length script)) (too_long (lit "script"))
  let shell = str_or_empty (get (lit "shell") args)
  refuse_if
      (not (text_eq shell (lit "bash"))
        && (not (text_eq shell (lit "sh")) && not (text_eq shell [])))
      (bad_value (lit "shell"))

-- validateReadFile, validateListDir, validatePinFile, validateUnpinFile and validateStopDaemon.
unfoldable pub validate_named : Text → Fields → Result Invalid (Unit {0})
validate_named key args = req_string args key >>= λ s. ok tt

unfoldable pub validate_fetch_external_docs :
    (Text → Result Text (Text × Text)) → Fields → Result Invalid (Unit {0})
unfolding lowered
validate_fetch_external_docs parse_url args = do
  raw ← req_string args (lit "url")
  refuse_if (ltb 2048 (length raw)) (too_long (lit "url"))
  elim (parse_url (trim_space raw)) as (λ x. Result Invalid (Unit {0})) [
    | err msg ↦ err (url_unparseable msg)
    | ok (scheme, host) ↦
        refuse_if
          (not (text_eq (lowered scheme) (lit "http"))
            && not (text_eq (lowered scheme) (lit "https")))
          (bad_value (lit "url"))
        >> refuse_if (text_eq host []) (bad_value (lit "url"))
  ]

unfoldable pub validate_write_patch : Fields → Result Invalid (Unit {0})
unfolding lowered
validate_write_patch args = do
  path ← req_string args (lit "path")
  content ← req_string args (lit "content")
  let mode = lowered (str_or_empty (get (lit "mode") args))
  refuse_if
      (not (text_eq mode [])
        && (not (text_eq mode (lit "overwrite")) && not (text_eq mode (lit "append"))))
      (bad_value (lit "mode"))

-- `v, ok := args[key]; if ok { s, sok := v.(string) }`, with a bound on the length.
unfoldable pub optional_string : Text → Option ℕ → Fields → Result Invalid (Unit {0})
optional_string key bound args =
    if has_key key args
    then (elim (get key args) [
      | str s ↦ refuse_if (elim bound [ none ↦ false | some n ↦ ltb n (length s) ]) (too_long key)
      | _ ↦ err (not_string key)
    ])
    else ok tt

unfoldable pub present_string : Text → Fields → Result Invalid (Unit {0})
present_string key args =
    if has_key key args
    then (elim (get key args) [ str s ↦ ok tt | _ ↦ err (not_string key) ])
    else err (missing key)

unfoldable pub validate_apply_code_patch : Fields → Result Invalid (Unit {0})
unfolding present_string optional_string
validate_apply_code_patch args = do
  path ← req_string args (lit "file_path")
  anchor ← req_string args (lit "search_string")
  present_string (lit "replace_string") args
  optional_string (lit "verify_command") (some (8 * 1024)) args

unfoldable pub validate_monitor_daemon : Fields → Result Invalid (Unit {0})
unfolding optional_string
validate_monitor_daemon args = do
  command ← req_string args (lit "command")
  refuse_if (ltb (64 * 1024) (length command)) (too_long (lit "command"))
  optional_string (lit "working_dir") none args

unfoldable pub validate_dispatch_worker_pool : Fields → Result Invalid (Unit {0})
validate_dispatch_worker_pool args = elim (parse_worker_pool_args args 0) [
  | ok p ↦ ok tt
  | err e ↦ err (pool_invalid e)
]

-- Validate; `others` checks search_syntax and lsp_query.
unfoldable pub validate_tool :
    (Text → Result Text (Text × Text))
    → (Text → Fields → Result Invalid (Unit {0}))
    → Text
    → Fields
    → Result Invalid (Unit {0})
unfolding validate_execute_script validate_named validate_write_patch validate_apply_code_patch
    validate_fetch_external_docs validate_dispatch_worker_pool validate_monitor_daemon
validate_tool parse_url others tool args =
    if text_eq tool (lit "execute_script")
    then validate_execute_script args
    else if text_eq tool (lit "read_file") || text_eq tool (lit "list_dir")
    then validate_named (lit "path") args
    else if text_eq tool (lit "write_patch")
    then validate_write_patch args
    else if text_eq tool (lit "apply_code_patch")
    then validate_apply_code_patch args
    else if text_eq tool (lit "search_syntax") || text_eq tool (lit "lsp_query")
    then others tool args
    else if text_eq tool (lit "pin_file") || text_eq tool (lit "unpin_file")
    then validate_named (lit "path") args
    else if text_eq tool (lit "fetch_external_docs")
    then validate_fetch_external_docs parse_url args
    else if text_eq tool (lit "dispatch_worker_pool")
    then validate_dispatch_worker_pool args
    else if text_eq tool (lit "monitor_daemon")
    then validate_monitor_daemon args
    else if text_eq tool (lit "stop_daemon")
    then validate_named (lit "daemon_id") args
    else if text_eq tool (lit "list_daemons") || has_prefix tool github_prefix
    then ok tt
    else err (unknown_tool tool)
