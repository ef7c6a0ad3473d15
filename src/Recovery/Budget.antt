-- ===== src/Recovery/Budget.antt =====
-- Lemmas about RetryBudget of internal/middleware/recovery.go.
use nomad_dev.Base.{
  inl, inr, ◌+◌, ℕ, zero, suc, ◌≡◌, refl, ap, ◌∙◌, ltb, leb, List, [], ◌∷◌, ◌++◌, Option, some,
  arith, ℤ, at_least_zero, Bool-cases,
}
use nomad_dev.Recovery.{
  RetryBudget, new_retry_budget, reset, consume, attempt, Op, resets, consumes, step, run,
}

-- `n` retryable failures in a row.
abbrev pub failures : ℕ → List Op
failures zero = []
failures (suc n) = consumes ∷ failures n

step-consumes : (b : RetryBudget) → step (some b) consumes ≡ some (record b { used = suc b.used })
unfolding step consume
step-consumes b = elim (Bool-cases (leb b.max b.used)) [
  | inl e ↦ rw (e, step, consume) refl
  | inr e ↦ rw (e, step, consume) refl
]

run-some :
    (b : RetryBudget) (os : List Op)
    → (c : RetryBudget) × (run (some b) os ≡ some c) × (c.max ≡ b.max)
unfolding run step reset
run-some b [] = (b, refl, refl)
run-some b (resets ∷ os) = run-some (record b { used = 0 }) os
run-some b (consumes ∷ os) =
    let (c, e, f) = run-some (record b { used = suc b.used }) os in
    (c, ap (λ x. run x os) (step-consumes b) ∙ e, f)

run-failures :
    (n u m : ℕ)
    → run (some (record { used = u; max = m })) (failures n)
      ≡ some (record { used = n + u; max = m })
unfolding run
run-failures zero u m = ap (λ k. some (record { used = k; max = m })) (omega arith)
run-failures (suc n) u m =
    ap (λ x. run x (failures n)) (step-consumes (record { used = u; max = m }))
    ∙ run-failures n (suc u) m
    ∙ ap (λ k. some (record { used = k; max = m })) (omega arith)

run-append : (b : Option RetryBudget) (os ps : List Op) → run b (os ++ ps) ≡ run (run b os) ps
unfolding run
run-append b [] ps = refl
run-append b (o ∷ os) ps = run-append (step b o) os ps

after-reset :
    (max : ℤ) (os : List Op) (n : ℕ)
    → run (some (new_retry_budget max)) (os ++ (resets ∷ failures n))
      ≡ some (record { used = n; max = at_least_zero max })
unfolding new_retry_budget run step reset
after-reset max os n =
    let (c, e, f) = run-some (new_retry_budget max) os in
    run-append (some (new_retry_budget max)) os (resets ∷ failures n)
    ∙ ap (λ b. run b (resets ∷ failures n)) e
    ∙ run-failures n 0 c.max
    ∙ (ground (arith, f))

-- On a budget of any maximum, whatever failures and resets came before the last reset, the failure after
-- `n` failures in a row is given another attempt exactly when `n` is below the maximum (0 when it is
-- negative), and its attempt number is `n + 1`.
pub consume_budget :
    (max : ℤ) (os : List Op) (n : ℕ)
    → ((consume (run (some (new_retry_budget max)) (os ++ (resets ∷ failures n)))).1
        ≡ ltb n (at_least_zero max))
      × (attempt (consume (run (some (new_retry_budget max)) (os ++ (resets ∷ failures n)))).0
          ≡ suc n)
unfolding consume attempt
consume_budget max os n = rw (after-reset max os n) elim (Bool-cases (leb (at_least_zero max) n)) [
  | inl e ↦ rw e (ground (arith, e), ground arith)
  | inr e ↦ rw e (ground (arith, e), ground arith)
]
