-- ===== src/Intent/Attempts.antt =====
-- Lemmas about RetryBudget of internal/middleware/recovery.go in a turn.
use nomad_dev.Base.{
  ℕ, suc, ◌≤◌, ◌≡◌, refl, sym, inl, inr, true, false, Option, some, leb, Bool-cases, true-≢-false,
  at_least_zero, ℤ, arith,
}
use nomad_dev.Recovery.{RetryBudget, consume, reset, attempt, max_of, new_retry_budget}

-- A budget of `max` retries, of which some may be used.
pub record IsWithin (max : ℕ) (budget : Option RetryBudget) : Type 0 where
  pub inner : RetryBudget
  pub there : budget ≡ some inner
  pub capped : inner.max ≡ max
  pub unspent : inner.used ≤ max

pub reset-IsWithin :
    (max : ℕ) (budget : Option RetryBudget) → IsWithin max budget → IsWithin max (reset budget)
unfolding reset
reset-IsWithin max budget w = record {
  inner = record { used = 0; max = w.inner.max };
  there = rw (w.there) refl;
  capped = w.capped;
  unspent = omega arith;
}

pub consume-IsWithin :
    (max : ℕ) (budget : Option RetryBudget)
    → IsWithin max budget
    → (consume budget).1 ≡ true
    → IsWithin max (consume budget).0
unfolding consume
consume-IsWithin max budget w h =
    let spent = w.inner.used in
    elim (Bool-cases (leb w.inner.max spent)) [
      | inl e ↦ absurd (true-≢-false (sym (rw (w.there, consume, e) at h)))
      | inr e ↦ record {
        inner = record { used = suc spent; max = w.inner.max };
        there = rw (w.there, consume, e) refl;
        capped = w.capped;
        unspent = ground (arith, e, w.capped, w.unspent);
      }
    ]

-- A retry that the budget does not allow is the one behind the last.
pub consume-spent :
    (max : ℕ) (budget : Option RetryBudget)
    → IsWithin max budget
    → (consume budget).1 ≡ false
    → (attempt (consume budget).0 ≡ suc max) × (max_of (consume budget).0 ≡ max)
unfolding consume attempt max_of
consume-spent max budget w h = elim (Bool-cases (leb w.inner.max w.inner.used)) [
  | inr e ↦ absurd (true-≢-false (rw (w.there, consume, e) at h))
  | inl e ↦ rw (w.there, consume, e) (ground (arith, e, w.capped, w.unspent), w.capped)
]

pub new_retry_budget-IsWithin :
    (max : ℤ) → IsWithin (at_least_zero max) (some (new_retry_budget max))
unfolding new_retry_budget
new_retry_budget-IsWithin max = record {
  inner = record { used = 0; max = at_least_zero max };
  there = refl;
  capped = refl;
  unspent = omega arith;
}
