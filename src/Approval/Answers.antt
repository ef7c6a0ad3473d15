-- ===== src/Approval/Answers.antt =====
-- Lemmas about Register, Signal, Cancel and Await of internal/middleware/approver.go.
use nomad_dev.Base.{
  ℕ, suc, ◌≡◌, refl, sym, ap, ◌∙◌, ◌≤◌, ◌<◌, ◌⊎◌, inl, inr, Bool, true, false, List, [], ◌∷◌, none,
  some, arith, Text, text_eq_iff, ==_iff, lookup, lookup-insert, lookup-delete, if◌then◌else◌, ◌==◌,
  In, Bool-cases, Option-cases, none-≢-some,
}
use nomad_dev.Approval.{
  Pending, new_pending, reserve, signal, cancel, await_wake, answered, timed_out, context_done,
  granted, denied, Op, reserves, cancels, signals, wakes, step, run_back,
}

-- The goroutines that wait on channel `p` asked for `id`: the map led from `id` to `p` at some point.
abbrev pub Held : List Op → Text → ℕ → Type 0
Held [] id p = ⊥
Held (o ∷ os) id p = (lookup id (run_back (o ∷ os)).pending ≡ some p) ⊎ Held os id p

current-Held :
    (os : List Op) (id : Text) (p : ℕ) → lookup id (run_back os).pending ≡ some p → Held os id p
unfolding run_back new_pending lookup
current-Held [] id p h = cc
current-Held (o ∷ os) id p h = inl h

-- A binding is old, or was made by a reservation of that very id.
step-lookup :
    (s : Pending) (o : Op) (id : Text) (p : ℕ)
    → lookup id (step s o).pending ≡ some p
    → (lookup id s.pending ≡ some p)
      ⊎ ((o ≡ reserves id)
          × (p ≡ s.next)
          × ((step s o).channels p ≡ none)
          × ((step s o).next ≡ suc s.next))
unfolding step reserve signal cancel await_wake
step-lookup s (reserves i) id p h =
    ground (arith, lookup-insert i id s.next s.pending, text_eq_iff i id)
step-lookup s (cancels i) id p h = inl (ground (arith, lookup-delete i id s.pending))
step-lookup s (signals i g) id p h = inl (ground arith)
step-lookup s (wakes q answered) id p h = inl (ground arith)
step-lookup s (wakes q timed_out) id p h = inl h
step-lookup s (wakes q context_done) id p h = inl h

step-next : (s : Pending) (o : Op) → s.next ≤ (step s o).next
unfolding step reserve signal cancel await_wake
step-next s (reserves i) = ground arith
step-next s (cancels i) = omega arith
step-next s (signals i g) = ground arith
step-next s (wakes q answered) = ground arith
step-next s (wakes q timed_out) = omega arith
step-next s (wakes q context_done) = omega arith

signal-channel :
    (s : Pending) (i : Text) (x : Bool) (p : ℕ) (g : Bool)
    → (signal s i x).channels p ≡ some g
    → (s.channels p ≡ some g)
      ⊎ ((j : Text) × (signals i x ≡ signals j g) × (lookup j s.pending ≡ some p))
unfolding signal
signal-channel s i x p g h = elim (Option-cases (lookup i s.pending)) [
  | inl e ↦ inl (ground (arith, e))
  | inr (q, e) ↦ elim (Option-cases (s.channels q)) [
    | inr (y, f) ↦ inl (ground (arith, e, f))
    | inl f ↦ elim (Bool-cases (p == q)) [
      | inl d ↦ inr (i, ground (arith, e, f, d), ground (arith, e, d, ==_iff p q))
      | inr d ↦ inl (ground (arith, e, f, d))
    ]
  ]
]

-- An answer in a channel was there, or came by a signal to an id bound to it.
step-channel :
    (s : Pending) (o : Op) (p : ℕ) (g : Bool)
    → (step s o).channels p ≡ some g
    → (s.channels p ≡ some g) ⊎ ((i : Text) × (o ≡ signals i g) × (lookup i s.pending ≡ some p))
unfolding step reserve signal cancel await_wake
step-channel s (reserves i) p g h = inl (ground arith)
step-channel s (cancels i) p g h = inl h
step-channel s (signals i x) p g h = signal-channel s i x p g h
step-channel s (wakes q answered) p g h = inl (ground arith)
step-channel s (wakes q timed_out) p g h = inl h
step-channel s (wakes q context_done) p g h = inl h

reserves-injective : {i j : Text} → reserves i ≡ reserves j → i ≡ j
reserves-injective e = cc

wait_step :
    (o : Op) (os : List Op) (id : Text) (p : ℕ)
    → Held (o ∷ os) id p
    → Held os id p
      ⊎ ((o ≡ reserves id)
          × (p ≡ (run_back os).next)
          × ((run_back (o ∷ os)).channels p ≡ none)
          × ((run_back (o ∷ os)).next ≡ suc (run_back os).next))
unfolding run_back
wait_step o os id p (inr h) = inl h
wait_step o os id p (inl e) = elim (step-lookup (run_back os) o id p e) [
  | inl old ↦ inl (current-Held os id p old)
  | inr new ↦ inr new
]

wait_fresh : (os : List Op) (id : Text) (p : ℕ) → Held os id p → p < (run_back os).next
unfolding run_back
wait_fresh [] id p h = absurd h
wait_fresh (o ∷ os) id p h = elim (wait_step o os id p h) [
  | inl old ↦ omega (arith, wait_fresh os id p old, step-next (run_back os) o)
  | inr (_, f, _, n) ↦ omega (arith, f, n)
]

-- One channel serves one id, over the whole run.
wait_unique : (os : List Op) (i j : Text) (p : ℕ) → Held os i p → Held os j p → i ≡ j
wait_unique [] i j p h k = absurd h
wait_unique (o ∷ os) i j p h k = elim (wait_step o os i p h) [
  | inl a ↦ elim (wait_step o os j p k) [
    | inl b ↦ wait_unique os i j p a b
    | inr (_, f, _, _) ↦ absurd (omega (arith, f, wait_fresh os i p a))
  ]
  | inr (e, f, _, _) ↦ elim (wait_step o os j p k) [
    | inl b ↦ absurd (omega (arith, f, wait_fresh os j p b))
    | inr (d, _, _, _) ↦ reserves-injective (sym e ∙ d)
  ]
]

wait_signal :
    (os : List Op) (id : Text) (p : ℕ) (g : Bool)
    → Held os id p
    → (run_back os).channels p ≡ some g
    → In (signals id g) os
unfolding run_back
wait_signal [] id p g h c = absurd h
wait_signal (o ∷ os) id p g h c = elim (wait_step o os id p h) [
  | inr (_, _, f, _) ↦ absurd (none-≢-some (sym f ∙ c))
  | inl a ↦ elim (step-channel (run_back os) o p g c) [
    | inl d ↦ inr (wait_signal os id p g a d)
    | inr (i, e, l) ↦
        inl (sym (e ∙ ap (λ x. signals x g) (wait_unique os i id p (current-Held os i p l) a)))
  ]
]

outcome-injective :
    (x g : Bool) → (if x then granted else denied) ≡ (if g then granted else denied) → x ≡ g
outcome-injective true true e = refl
outcome-injective true false e = cc
outcome-injective false true e = cc
outcome-injective false false e = refl

-- After any run of registrations, signals, cancellations and waits, on any ids and in any order: when a
-- goroutine that waits for `id` returns from Await with a grant, an operator's grant for that very id
-- was signalled before; when it returns with a denial, a denial for that id was.
pub answer_needs_signal :
    (os : List Op) (id : Text) (p : ℕ) (s : Pending) (g : Bool)
    → Held os id p
    → await_wake (run_back os) p answered ≡ some (s, if g then granted else denied)
    → In (signals id g) os
unfolding await_wake
answer_needs_signal os id p s g h w = elim (Option-cases ((run_back os).channels p)) [
  | inl e ↦ absurd (ground (arith, e, w))
  | inr (x, e) ↦
      wait_signal os id p g h (e ∙ ap some (outcome-injective x g (ground (arith, e, w))))
]
