-- ===== src/Recovery.antt =====
-- internal/middleware/recovery.go: which failures are retried, what of stderr is reported, and the budget.
pub mod Budget
pub mod Reports
mod Examples
use nomad_dev.Base.{
  ◌∷◌, ℕ, suc, ◌-◌, Bool, true, false, not, ◌||◌, List, [], ◌++◌, Option, none, some, Text, lit,
  text_eq, length, drop, leb, ◌==◌, if◌then◌else◌, ℤ, pos, negsuc, at_least_zero, is_zero,
}

abbrev pub sandbox_err_timeout : Text
sandbox_err_timeout = lit "sandbox_timeout"

abbrev pub sandbox_err_oom : Text
sandbox_err_oom = lit "sandbox_oom"

abbrev pub max_error_report_stderr_bytes : ℕ
max_error_report_stderr_bytes = 8192

unfoldable pub should_auto_retry : ℤ → Text → Bool
should_auto_retry exit_code err_code =
    if text_eq err_code []
    then not (is_zero exit_code)
    else text_eq err_code sandbox_err_timeout || text_eq err_code sandbox_err_oom

abbrev pub marker : Text
marker = lit "...[truncated]...\n"

unfoldable pub trunc_stderr : Text → ℤ → Text
trunc_stderr src (negsuc n) = []
trunc_stderr src (pos limit) =
    if (limit == 0) || (length src == 0)
    then []
    else if leb (length src) limit
    then src
    else if leb limit (length marker)
    then drop (length src - limit) src
    else marker ++ drop (length src - (limit - length marker)) src

pub record ErrorReport : Type 0 where
  pub tool : Text
  pub original_call_id : Text
  pub exit_code : ℤ
  pub error_code : Text
  pub error_message : Text
  pub stderr : Text
  pub attempt : ℤ
  pub max_attempts : ℤ
  pub escalated : Bool

unfoldable pub build_error_report : Text → Text → ℤ → Text → Text → Text → ℤ → ℤ → ErrorReport
build_error_report tool call_id exit_code err_code err_msg stderr_src attempt max_attempts =
    record {
      tool = tool;
      original_call_id = call_id;
      exit_code = exit_code;
      error_code = err_code;
      error_message = err_msg;
      stderr = trunc_stderr stderr_src (pos max_error_report_stderr_bytes);
      attempt = attempt;
      max_attempts = max_attempts;
      escalated = false;
    }

pub record RetryBudget : Type 0 where
  pub used : ℕ
  pub max : ℕ

unfoldable pub new_retry_budget : ℤ → RetryBudget
new_retry_budget max = record { used = 0; max = at_least_zero max }

-- The pointer may be nil.
unfoldable pub reset : Option RetryBudget → Option RetryBudget
reset none = none
reset (some b) = some (record b { used = 0 })

unfoldable pub consume : Option RetryBudget → Option RetryBudget × Bool
consume none = (none, false)
consume (some b) =
    if leb b.max b.used
    then (some (record b { used = suc b.used }), false)
    else (some (record b { used = suc b.used }), true)

unfoldable pub attempt : Option RetryBudget → ℕ
attempt none = 1
attempt (some b) = if b.used == 0 then 1 else b.used

unfoldable pub max_of : Option RetryBudget → ℕ
max_of none = 0
max_of (some b) = b.max

pub data Op : Type 0 where
  resets consumes : Op

unfoldable pub step : Option RetryBudget → Op → Option RetryBudget
unfolding reset consume
step b resets = reset b
step b consumes = (consume b).0

unfoldable pub run : Option RetryBudget → List Op → Option RetryBudget
run b [] = b
run b (o ∷ os) = run (step b o) os
