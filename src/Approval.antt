-- ===== src/Approval.antt =====
-- internal/middleware/approver.go: PolicyApprover. Its channels hold one answer each; they are shared
-- between the map and the goroutine that waits, so they live on a heap and the map holds addresses.
pub mod Policy
pub mod Answers
mod Examples
use nomad_dev.Base.{
  ℕ, suc, Bool, true, false, List, [], ◌∷◌, Option, none, some, Text, lookup, insert, delete,
  text_eq, ◌==◌, if◌then◌else◌,
}

pub record Pending : Type 0 where
  pub channels : ℕ → Option Bool
  pub pending : List (Text × ℕ)
  pub next : ℕ

unfoldable pub new_pending : Pending
new_pending = record { channels = λ p. none; pending = []; next = 0 }

abbrev pub set_channel : (ℕ → Option Bool) → ℕ → Option Bool → ℕ → Option Bool
set_channel channels p v q = if p == q then v else channels q

-- Register: a fresh channel, unless one is there.
unfoldable pub reserve : Pending → Text → Pending
reserve s id = elim (lookup id s.pending) [
  | some p ↦ s
  | none ↦ record {
    channels = set_channel s.channels s.next none;
    pending = insert id s.next s.pending;
    next = suc s.next;
  }
]

-- Signal: the send does not block, and a second answer is dropped.
unfoldable pub signal : Pending → Text → Bool → Pending
signal s id granted = elim (lookup id s.pending) [
  | none ↦ s
  | some p ↦ elim (s.channels p) [
    | some first ↦ s
    | none ↦ record s { channels = set_channel s.channels p (some granted) }
  ]
]

unfoldable pub cancel : Pending → Text → Pending
cancel s id = record s { pending = delete id s.pending }

-- Await takes the channel under the lock, and then waits for the first of three events.
unfoldable pub await_start : Pending → Text → Option ℕ
await_start s id = lookup id s.pending

pub data Wake : Type 0 where
  answered timed_out context_done : Wake

pub data Outcome : Type 0 where
  granted denied timeout context_error unknown_id : Outcome

-- What Await returns, and the channel after a receive. A receive from an empty channel is not ready.
unfoldable pub await_wake : Pending → ℕ → Wake → Option (Pending × Outcome)
await_wake s p timed_out = some (s, timeout)
await_wake s p context_done = some (s, context_error)
await_wake s p answered = elim (s.channels p) [
  | none ↦ none
  | some g ↦
      some (record s { channels = set_channel s.channels p none }, if g then granted else denied)
]

pub data Op : Type 0 where
  reserves cancels : Text → Op
  signals : Text → Bool → Op
  wakes : ℕ → Wake → Op

unfoldable pub step : Pending → Op → Pending
unfolding reserve signal cancel
step s (reserves id) = reserve s id
step s (cancels id) = cancel s id
step s (signals id g) = signal s id g
step s (wakes p w) = elim (await_wake s p w) [ none ↦ s | some (s', outcome) ↦ s' ]

-- The operations so far, the latest first.
unfoldable pub run_back : List Op → Pending
run_back [] = new_pending
run_back (o ∷ os) = step (run_back os) o
