-- ===== src/Approval/Examples.antt =====
-- A call that is gated, answered and answered again.
use nomad_dev.Base.{
  ◌≡◌, refl, ◌↔◌, ◌⊎◌, inl, ◌≢◌, List, [], ◌∷◌, none, lit, lookup, insert, text_eq, true, false, In,
}
use nomad_dev.Approval.{
  Pending, Op, reserves, signals, reserve, signal, await_wake, step, run_back, new_pending,
  set_channel,
}
use nomad_dev.Approval.Answers.{answer_needs_signal}
use nomad_dev.Approval.Policy.{
  new_policy_approver, add_required, requires_approval, requires_approval_iff,
}

-- The latest first: a grant for the call, which was reserved.
abbrev calls : List Op
calls = signals (lit "call") true ∷ reserves (lit "call") ∷ []

abbrev taken : Pending
taken = record (run_back calls) { channels = set_channel (run_back calls).channels 0 none }

answer_needs_signal_example : In (signals (lit "call") true) calls
unfolding run_back step reserve signal lookup insert text_eq new_pending await_wake
answer_needs_signal_example = answer_needs_signal calls (lit "call") 0 taken true (inl refl) refl

requires_approval_iff_example :
    ((requires_approval
        (add_required
          (new_policy_approver (lit "write_patch" ∷ []) false 0)
          (lit "github_merge" ∷ []))
        (lit "github_merge")).0
      ≡ true)
    ↔ ((false ≡ false)
        × (lit "github_merge" ≢ [])
        × (In (lit "github_merge") (lit "github_merge" ∷ [])
            ⊎ In (lit "github_merge") (lit "write_patch" ∷ [])))
requires_approval_iff_example =
    requires_approval_iff (lit "write_patch" ∷ []) (lit "github_merge" ∷ []) false 0
      (lit "github_merge")
