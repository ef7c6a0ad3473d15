-- ===== src/Recovery/Examples.antt =====
-- Runs of the retry budget and of the cut of stderr.
use nomad_dev.Base.{
  ℕ, ◌≡◌, refl, ◌⊎◌, ◌≤◌, [], ◌∷◌, ◌++◌, some, Text, lit, length, drop, ltb, true, false, pos,
  text_eq,
}
use nomad_dev.Recovery.{
  marker, trunc_stderr, new_retry_budget, consume, attempt, resets, consumes, run,
  should_auto_retry, sandbox_err_oom,
}
use nomad_dev.Recovery.Budget.{consume_budget, failures}
use nomad_dev.Recovery.Reports.{trunc_stderr_lem}

consume_budget_example :
    ((consume (run (some (new_retry_budget (pos 2))) (consumes ∷ resets ∷ failures 2))).1 ≡ ltb 2 2)
    × (attempt (consume (run (some (new_retry_budget (pos 2))) (consumes ∷ resets ∷ failures 2))).0
        ≡ 3)
consume_budget_example = consume_budget (pos 2) (consumes ∷ []) 2

trunc_stderr_lem_example :
    (length (trunc_stderr (lit "no such file") (pos 4)) ≤ 4)
    × ((k : ℕ) × (m : Text) × ((m ≡ []) ⊎ (m ≡ marker))
        × (trunc_stderr (lit "no such file") (pos 4) ≡ m ++ drop k (lit "no such file")))
trunc_stderr_lem_example = trunc_stderr_lem (lit "no such file") (pos 4)

oom_is_retried : should_auto_retry (pos 137) sandbox_err_oom ≡ true
unfolding should_auto_retry text_eq
oom_is_retried = refl

success_is_not : should_auto_retry (pos 0) [] ≡ false
unfolding should_auto_retry text_eq
success_is_not = refl

tail_is_kept : trunc_stderr (lit "no such file") (pos 4) ≡ lit "file"
unfolding trunc_stderr
tail_is_kept = refl
