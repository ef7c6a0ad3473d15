-- ===== src/Intent/Direct/Answered.antt =====
-- Lemmas about handleCommandRequest of internal/wsserver/sandbox.go.
use nomad_dev.Base.{
  ℕ, ◌≡◌, refl, subst, ◌⊎◌, inl, inr, Bool, true, false, List, [], ◌∷◌, ◌++◌, none, Text, lit,
  text_eq, length, Result, ok, Bool-cases, Option-cases, Result-cases, ℤ,
}
use nomad_dev.Auth.Scopes.{has_tool_scope}
use nomad_dev.Approval.Policy.{requires_approval}
use nomad_dev.Dispatch.{Call, Error, ExecChunk, stdout, stderr, exit}
use nomad_dev.Intent.{Wire, command_result, Backends, State}
use nomad_dev.Intent.ToolCalls.{is_granted, emit_chunk, request_approval}
use nomad_dev.Intent.Allowed.{request_approval-none}
use nomad_dev.Intent.Replies.{
  RepliesOnce, NoResult, behind-RepliesOnce, emit_chunk-NoResult, request_approval-NoResult,
}
use nomad_dev.Intent.Direct.{
  sends, DirectServer, exec_chunks, run_exec, gate_direct_command, is_at_capacity, bypasses_runner,
  gate_and_run, handle_command_request,
}

module _ {H X : Type 0} (b : Backends H X) where
  -- One command.result, at the end, whatever it says.
  abbrev pub OneResult : ℕ → List Wire → Type 0
  OneResult pending out = (code : ℤ) × (error msg : Text) × RepliesOnce pending out code error msg

  only_result :
      (pending : ℕ) (code : ℤ) (error msg : Text)
      → OneResult pending (command_result pending code error msg ∷ [])
  only_result pending code error msg =
      (code, error, msg, record { before = []; whole = refl; none_before = tt })

  behind-OneResult :
      (pending : ℕ) (sent out : List Wire)
      → NoResult sent
      → OneResult pending out
      → OneResult pending (sent ++ out)
  behind-OneResult pending sent out q (code, error, msg, r) =
      (code, error, msg, behind-RepliesOnce pending sent out code error msg q r)

  exec_chunks-OneResult :
      (pending out_seq err_seq : ℕ) (cs : List (ExecChunk X))
      → OneResult pending (exec_chunks b pending out_seq err_seq cs)
  unfolding exec_chunks
  exec_chunks-OneResult pending out_seq err_seq [] = only_result pending _ _ _
  exec_chunks-OneResult pending out_seq err_seq (c ∷ cs) =
      elim c.stream
        as (λ x.
          OneResult pending
            (exec_chunks b pending out_seq err_seq (record c { stream = x } ∷ cs))) [
              | stdout ↦
                  behind-OneResult pending _ _
                    (emit_chunk-NoResult b (length c.data_of) pending (lit "stdout") out_seq
                      c.data_of)
                    (exec_chunks-OneResult pending
                      (emit_chunk b (length c.data_of) pending (lit "stdout") out_seq c.data_of).1
                      err_seq cs)
              | stderr ↦
                  behind-OneResult pending _ _
                    (emit_chunk-NoResult b (length c.data_of) pending (lit "stderr") err_seq
                      c.data_of)
                    (exec_chunks-OneResult pending out_seq
                      (emit_chunk b (length c.data_of) pending (lit "stderr") err_seq c.data_of).1
                      cs)
              | exit ↦ only_result pending _ _ _
            ]

  module _ (runner : H → Call → H × Result (Error X) (List (ExecChunk X))) where
    run_exec-OneResult :
        (pending : ℕ) (c : Call) (s : State H) → OneResult pending (run_exec b runner pending c s).1
    unfolding run_exec
    run_exec-OneResult pending c s = elim (Result-cases (runner s.host c).1) [
      | inl (chunks, e) ↦ rw (run_exec, e) (exec_chunks-OneResult pending 0 0 chunks)
      | inr (x, e) ↦ rw (run_exec, e) (only_result pending _ _ _)
    ]

    gate-NoResult :
        (gated : Bool) (pending : ℕ) (c : Call) (s : State H)
        → NoResult (gate_direct_command b gated pending c s).wires
    unfolding gate_direct_command
    gate-NoResult true pending c s = request_approval-NoResult b pending c s
    gate-NoResult false pending c s = tt

    gate_and_run-OneResult :
        (gated : Bool) (pending : ℕ) (c : Call) (s : State H)
        → OneResult pending (gate_and_run b runner gated pending c s).1
    unfolding gate_and_run
    gate_and_run-OneResult gated pending c s =
        let asked = gate_direct_command b gated pending c s in
        let quiet = gate-NoResult gated pending c s in
        elim (Option-cases asked.value) [
          | inr (r, e) ↦
              rw (gate_and_run, e)
                (behind-OneResult pending asked.wires _ quiet (only_result pending _ _ _))
          | inl e ↦
              rw (gate_and_run, e)
                (behind-OneResult pending asked.wires _ quiet
                  (run_exec-OneResult pending c asked.state))
        ]

    -- What must hold for the runner to be called: no approval is asked for, none is required, or the next is granted.
    abbrev pub Passed : Bool → Call → State H → Type 0
    Passed gated c s =
        (gated ≡ false)
        ⊎ (((requires_approval b.policy c.tool).0 ≡ false) ⊎ (is_granted (b.answer s.asked) ≡ true))

    gate-host :
        (gated : Bool) (pending : ℕ) (c : Call) (s : State H)
        → (gate_direct_command b gated pending c s).state.host ≡ s.host
    unfolding gate_direct_command request_approval
    gate-host false pending c s = refl
    gate-host true pending c s = elim (Bool-cases (requires_approval b.policy c.tool).0) [
      | inr e ↦ rw (request_approval, e) refl
      | inl e ↦ elim (Result-cases (b.preview s.host c)) [
        | inr (msg, f) ↦ rw (request_approval, e, f) refl
        | inl (preview, f) ↦ rw (request_approval, e, f) refl
      ]
    ]

    gate-Passed :
        (gated : Bool) (pending : ℕ) (c : Call) (s : State H)
        → (gate_direct_command b gated pending c s).value ≡ none
        → Passed gated c s
    unfolding gate_direct_command
    gate-Passed false pending c s h = inl refl
    gate-Passed true pending c s h = inr (request_approval-none b [] pending c s h).0

    gate_and_run-Passed :
        (gated : Bool) (pending : ℕ) (c : Call) (s : State H)
        → ((gate_and_run b runner gated pending c s).0.host ≡ s.host) ⊎ Passed gated c s
    unfolding gate_and_run
    gate_and_run-Passed gated pending c s =
        elim (Option-cases (gate_direct_command b gated pending c s).value) [
          | inr (r, e) ↦ inl (rw (gate_and_run, e) (gate-host gated pending c s))
          | inl e ↦ inr (gate-Passed gated pending c s e)
        ]

sends-injective : {xs ys : List Wire} → sends xs ≡ sends ys → xs ≡ ys
sends-injective e = cc

-- A command that a client sends and that is not for a daemon or the language server. When envelopes are sent for it,
-- one command.result ends them, whatever the runner's channel does, also where it is closed without an
-- exit chunk. And it leaves the host as it was, or its tool is in the token's scopes and, where direct commands are
-- gated, its approval is not required or granted.
pub handle_command_request-OneResult :
    {H X : Type 0} (b : Backends H X) (v : DirectServer H X) (busy pending : ℕ) (c : Call)
    (s : State H) (wires : List Wire)
    → (handle_command_request b v busy pending (ok c) s).1 ≡ sends wires
    → OneResult b pending wires
      × (((handle_command_request b v busy pending (ok c) s).0.host ≡ s.host)
          ⊎ ((has_tool_scope b.scopes c.tool ≡ true)
              × ((v.gate_direct_commands ≡ false)
                  ⊎ (((requires_approval b.policy c.tool).0 ≡ false)
                      ⊎ (is_granted (b.answer s.asked) ≡ true)))))
unfolding handle_command_request
handle_command_request-OneResult b v busy pending c s wires h =
    elim (Bool-cases (text_eq c.tool [])) [
      | inl e ↦
          let k = sends-injective (rw (handle_command_request, e) at h) in
          (
            subst (OneResult b pending) k (only_result b pending _ _ _),
            inl (rw (handle_command_request, e) refl),
          )
      | inr e ↦ elim (Bool-cases (has_tool_scope b.scopes c.tool)) [
        | inr f ↦
            let k = sends-injective (rw (handle_command_request, e, f) at h) in
            (
              subst (OneResult b pending) k (only_result b pending _ _ _),
              inl (rw (handle_command_request, e, f) refl),
            )
        | inl f ↦ elim (Bool-cases (bypasses_runner b c.tool)) [
          | inl g ↦ absurd (cc (rw (handle_command_request, e, f, g) at h))
          | inr g ↦ elim (Option-cases v.runner) [
            | inl i ↦ absurd (cc (rw (handle_command_request, e, f, g, i) at h))
            | inr (runner, i) ↦ elim (Bool-cases (is_at_capacity b v.cap busy)) [
              | inl j ↦
                  let k = sends-injective (rw (handle_command_request, e, f, g, i, j) at h) in
                  (
                    subst (OneResult b pending) k (only_result b pending _ _ _),
                    inl (rw (handle_command_request, e, f, g, i, j) refl),
                  )
              | inr j ↦
                  let k = sends-injective (rw (handle_command_request, e, f, g, i, j) at h) in
                  (
                    subst (OneResult b pending) k
                        (gate_and_run-OneResult b runner v.gate_direct_commands pending c s),
                    (elim (gate_and_run-Passed b runner v.gate_direct_commands pending c s) [
                      | inl same ↦ inl (rw (handle_command_request, e, f, g, i, j) same)
                      | inr passed ↦ inr (f, passed)
                    ]),
                  )
            ]
          ]
        ]
      ]
    ]
