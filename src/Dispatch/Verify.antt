-- ===== src/Dispatch/Verify.antt =====
-- Lemmas about applyCodePatchWithVerify of internal/middleware/dispatcher.go.
use nomad_dev.Base.{
  ℕ, zero, suc, ◌≡◌, refl, sym, ap, ◌≢◌, ◌∙◌, subst, ◌⊎◌, inl, inr, Bool, true, false, List, [],
  ◌∷◌, ◌++◌, append_assoc, Option, none, some, Text, length, ltb, ok, err, All, All-append,
  Bool-cases, Option-cases, none-≢-some, some-injective, In, Result,
}
use nomad_dev.Dispatch.{
  Error, context_error, ExecChunk, Step, Run, VerifyEnd, drained, cut, exit_with, ExecRequest,
  Applied, FsOps, Exec, Notice, is_exit, has_failed, behind, body_chunks, stream_verify, run_verify,
  cut_body, send_all, send_verify, interrupted, not_started, conclude, verify_applied,
}

-- One terminal exit chunk, behind chunks that are none.
pub record EndsOnce {X : Type 0} (out : List (ExecChunk X)) (last : ExecChunk X) : Type 0 where
  pub before : List (ExecChunk X)
  pub whole : out ≡ before ++ last ∷ []
  pub none_before : All (λ c. is_exit c ≡ false) before
  pub ends : is_exit last ≡ true

cut_body-quiet :
    (X : Type 0) (fuel : ℕ) (body : Text)
    → All (λ c. is_exit c ≡ false) (cut_body {X = X} fuel body)
unfolding cut_body
cut_body-quiet X zero body = tt
cut_body-quiet X (suc fuel) body = elim (Bool-cases (ltb 0 (length body))) [
  | inl e ↦ rw e (refl, cut_body-quiet X fuel _)
  | inr e ↦ rw e tt
]

body_chunks-quiet :
    (X : Type 0) (body : Option Text) → All (λ c. is_exit c ≡ false) (body_chunks {X = X} body)
body_chunks-quiet X none = tt
body_chunks-quiet X (some body) = cut_body-quiet X (length body) body

module _ {X : Type 0} where
  send_all-quiet :
      (done : ℕ → Bool) (i : ℕ) (cs : List (ExecChunk X))
      → All (λ c. is_exit c ≡ false) cs
      → All (λ c. is_exit c ≡ false) (send_all done i cs).0
  unfolding send_all
  send_all-quiet done i [] q = tt
  send_all-quiet done i (c ∷ cs) q = elim (Bool-cases (done i)) [
    | inl e ↦ rw e tt
    | inr e ↦ rw e (q.0, send_all-quiet done (suc i) cs q.1)
  ]

  quiet-EndsOnce :
      (sent tail : List (ExecChunk X)) (last : ExecChunk X)
      → All (λ c. is_exit c ≡ false) sent
      → EndsOnce tail last
      → EndsOnce (sent ++ tail) last
  quiet-EndsOnce sent tail last q e = record {
    before = sent ++ e.before;
    whole = ap (λ t. sent ++ t) e.whole ∙ sym (append_assoc sent e.before (last ∷ []));
    none_before = All-append _ sent e.before q e.none_before;
    ends = e.ends;
  }

module _ {W X : Type 0} where
  send_verify-quiet :
      (done : ℕ → Bool) (i : ℕ) (seen : Option (ExecChunk X)) (w : W) (cs : List (Step W X))
      → All (λ c. is_exit c ≡ false) (send_verify done i seen w cs).0
  unfolding send_verify
  send_verify-quiet done i seen w [] = tt
  send_verify-quiet done i seen w (c ∷ cs) = elim (Bool-cases (is_exit c.chunk)) [
    | inl e ↦ rw e (send_verify-quiet done i (some c.chunk) (c.work w) cs)
    | inr e ↦ elim (Bool-cases (done i)) [
      | inl f ↦ rw (e, f) tt
      | inr f ↦ rw (e, f) (e, send_verify-quiet done (suc i) seen (c.work w) cs)
    ]
  ]

  -- What is known of an end: a captured exit chunk is one, and a cut comes from a step whose select found the
  -- context done.
  pub record CutAt (done : ℕ → Bool) (cs : List (Step W X)) (late : W → W) : Type 0 where
    pub step : Step W X
    pub taken : In step cs
    pub select : ℕ
    pub context_done : done select ≡ true
    pub is_late : late ≡ step.late

  abbrev EndKnown : (ℕ → Bool) → List (Step W X) → VerifyEnd W X → Type 0
  EndKnown done cs (drained w seen) = (c : ExecChunk X) → seen ≡ some c → is_exit c ≡ true
  EndKnown done cs (cut w late) = CutAt done cs late

  EndKnown-cons :
      (done : ℕ → Bool) (c : Step W X) (cs : List (Step W X)) (e : VerifyEnd W X)
      → EndKnown done cs e
      → EndKnown done (c ∷ cs) e
  EndKnown-cons done c cs (drained w seen) k = k
  EndKnown-cons done c cs (cut w late) k = record {
    step = k.step;
    taken = inr k.taken;
    select = k.select;
    context_done = k.context_done;
    is_late = k.is_late;
  }

  send_verify-EndKnown :
      (done : ℕ → Bool) (i : ℕ) (seen : Option (ExecChunk X)) (w : W) (cs : List (Step W X))
      → ((d : ExecChunk X) → seen ≡ some d → is_exit d ≡ true)
      → EndKnown done cs (send_verify done i seen w cs).1
  unfolding send_verify
  send_verify-EndKnown done i seen w [] h = h
  send_verify-EndKnown done i seen w (c ∷ cs) h = elim (Bool-cases (is_exit c.chunk)) [
    | inl e ↦ rw e (
        EndKnown-cons done c cs _ (
          send_verify-EndKnown done i (some c.chunk) (c.work w) cs
            (λ x s. subst (λ y. is_exit y ≡ true) (some-injective s) e)))
    | inr e ↦ elim (Bool-cases (done i)) [
      | inl f ↦
          rw (e, f)
            (record { step = c; taken = inl refl; select = i; context_done = f; is_late = refl })
      | inr f ↦
          rw (e, f)
            (EndKnown-cons done c cs _ (send_verify-EndKnown done (suc i) seen (c.work w) cs h))
    ]
  ]

module _ {W X F : Type 0} (fs : FsOps W X F) (read : W → Text → Option Text) where
  -- The file is what it was before the patch, or the engine reported that it could not restore it.
  abbrev Undone : Text → Applied → W → Type 0
  Undone sid a w =
      (read w a.resolved_path ≡ some a.snapshot)
      ⊎ ((v : W) × (w ≡ (fs.restore v sid a.resolved_path a.snapshot).0)
          × ((fs.restore v sid a.resolved_path a.snapshot).1 ≢ none))

  -- The context was done while the command ran: the patch was undone, and then the command did what it still had
  -- to do at that chunk.
  pub record Overtaken (done : ℕ → Bool) (sid : Text) (a : Applied)
      (started : Result (Error X) (Run W X)) (last : ExecChunk X) (w : W) : Type 0 where
    pub run : Run W X
    pub is_started : started ≡ ok run
    pub restored : W
    pub undone : Undone sid a restored
    pub late : W → W
    pub cut_at : CutAt done run.steps late
    pub after : w ≡ late restored
    pub is_context_error : last ≡ exit_with context_error

  -- What is promised of a result: it ends once, and with a failure the patch is undone, but for what a command whose
  -- context was done did behind the restore.
  pub record Settled (done : ℕ → Bool) (sid : Text) (a : Applied)
      (started : Result (Error X) (Run W X)) (r : W × List (ExecChunk X)) : Type 0 where
    pub last : ExecChunk X
    pub ends_once : EndsOnce r.1 last
    pub outcome :
        (has_failed last ≡ false) ⊎ (Undone sid a r.0 ⊎ Overtaken done sid a started last r.0)

  behind-Settled :
      (done : ℕ → Bool) (sid : Text) (a : Applied) (started : Result (Error X) (Run W X))
      (sent : List (ExecChunk X)) (r : W × List (ExecChunk X))
      → All (λ c. is_exit c ≡ false) sent
      → Settled done sid a started r
      → Settled done sid a started (behind sent r)
  behind-Settled done sid a started sent (w, tail) q s = record {
    last = s.last;
    ends_once = quiet-EndsOnce sent tail s.last q s.ends_once;
    outcome = s.outcome;
  }

-- A successful restore brings the snapshot back.
abbrev pub Restores : {W X F : Type 0} → FsOps W X F → (W → Text → Option Text) → Type 0
Restores {W = W} fs read =
    (w : W) (sid path snapshot : Text)
    → (fs.restore w sid path snapshot).1 ≡ none
    → read (fs.restore w sid path snapshot).0 path ≡ some snapshot

module _ {W X F : Type 0} (say : Notice X → Text) (fs : FsOps W X F) (read : W → Text → Option Text)
    (restores : Restores fs read) where
  roll_back-Undone :
      (sid : Text) (a : Applied) (w : W)
      → Undone fs read sid a (fs.restore w sid a.resolved_path a.snapshot).0
  roll_back-Undone sid a w = elim (Option-cases (fs.restore w sid a.resolved_path a.snapshot).1) [
    | inl e ↦ inl (restores w sid a.resolved_path a.snapshot e)
    | inr (x, e) ↦ inr (w, refl, λ k. none-≢-some (sym k ∙ e))
  ]

  module _ (done : ℕ → Bool) (sid : Text) (a : Applied) (started : Result (Error X) (Run W X)) where
    interrupted-Settled : (w : W) → Settled fs read done sid a started (interrupted say fs sid a w)
    unfolding interrupted
    interrupted-Settled w = record {
      last = _;
      ends_once = record { before = []; whole = refl; none_before = tt; ends = refl };
      outcome = inr (inl (roll_back-Undone sid a w));
    }

    overtaken-Settled :
        (run : Run W X) (w : W) (late : W → W)
        → started ≡ ok run
        → CutAt done run.steps late
        → Settled fs read done sid a started
            (late (interrupted say fs sid a w).0, (interrupted say fs sid a w).1)
    unfolding interrupted
    overtaken-Settled run w late e c = record {
      last = _;
      ends_once = record { before = []; whole = refl; none_before = tt; ends = refl };
      outcome = inr (
          inr (record {
            run = run;
            is_started = e;
            restored = _;
            undone = roll_back-Undone sid a w;
            late = late;
            cut_at = c;
            after = refl;
            is_context_error = refl;
          }));
    }

    not_started-Settled :
        (w : W) (e : Error X) → Settled fs read done sid a started (not_started say fs sid a w e)
    unfolding not_started
    not_started-Settled w e = record {
      last = _;
      ends_once = record { before = _ ∷ []; whole = refl; none_before = (refl, tt); ends = refl };
      outcome = inr (inl (roll_back-Undone sid a w));
    }

    conclude-Settled :
        (w : W) (seen : Option (ExecChunk X))
        → ((c : ExecChunk X) → seen ≡ some c → is_exit c ≡ true)
        → Settled fs read done sid a started (conclude say fs sid a w seen)
    unfolding conclude
    conclude-Settled w none h = record {
      last = _;
      ends_once = record { before = _ ∷ []; whole = refl; none_before = (refl, tt); ends = refl };
      outcome = inr (inl (roll_back-Undone sid a w));
    }
    conclude-Settled w (some c) h = elim (Bool-cases (has_failed c)) [
      | inl e ↦ rw e (record {
        last = c;
        ends_once = record {
          before = _ ∷ [];
          whole = refl;
          none_before = (refl, tt);
          ends = h c refl;
        };
        outcome = inr (inl (roll_back-Undone sid a w));
      })
      | inr e ↦ rw e (record {
        last = c;
        ends_once = record { before = []; whole = refl; none_before = tt; ends = h c refl };
        outcome = inl e;
      })
    ]

    -- Either end of the loop.
    ended-Settled :
        (run : Run W X) (end : VerifyEnd W X)
        → started ≡ ok run
        → EndKnown done run.steps end
        → Settled fs read done sid a started (elim end [
          | cut w1 late ↦ (late (interrupted say fs sid a w1).0, (interrupted say fs sid a w1).1)
          | drained w1 seen ↦ conclude say fs sid a (run.last_work w1) seen
        ])
    ended-Settled run (cut w late) e k = overtaken-Settled run w late e k
    ended-Settled run (drained w seen) e k = conclude-Settled (run.last_work w) seen k

    stream_verify-Settled :
        (i : ℕ) (w : W) (run : Run W X)
        → started ≡ ok run
        → Settled fs read done sid a started (stream_verify say fs done sid a i w run)
    unfolding stream_verify
    stream_verify-Settled i w run e =
        behind-Settled fs read done sid a started _ _ (send_verify-quiet done i none w run.steps) (
          ended-Settled run _ e
            (send_verify-EndKnown done i none w run.steps (λ d n. absurd (none-≢-some n))))

  run_verify-Settled :
      {L : Type 0} (exec : Exec W X L) (done : ℕ → Bool) (sid : Text) (a : Applied)
      (request : ExecRequest L) (i : ℕ) (w : W)
      → Settled fs read done sid a
          (exec w request).1
          (run_verify say fs exec done sid a request i w)
  unfolding run_verify
  run_verify-Settled exec done sid a request i w =
      let (w1, started) = exec w request in
      (elim started
          as (λ r.
            started ≡ r
            → Settled fs read done sid a started (elim r [
              | err e ↦ not_started say fs sid a w1 e
              | ok run ↦ stream_verify say fs done sid a i w1 run
            ])) [
              | err e ↦ λ h. not_started-Settled done sid a started w1 e
              | ok run ↦ λ h. stream_verify-Settled done sid a started i w1 run h
            ])
        refl

  -- A verified patch, for any command and whatever it sends (no exit chunk, several, a failed start): exactly one
  -- exit chunk ends the channel, and one of three things holds. It reports success; or the patched file is its
  -- snapshot again, or the engine has reported that it could not restore it; or the chunk carries the error of the
  -- context, which a select found done while the command ran, and the state is what the command, which may still
  -- act then, makes of the restored one. The engine's restore is assumed to write the snapshot where it reports no
  -- error.
  pub verify_applied-Settled :
      {L : Type 0} (exec : Exec W X L) (done : ℕ → Bool) (sid : Text) (a : Applied)
      (request : ExecRequest L) (w : W)
      → Settled fs read done sid a
          (exec w request).1
          (verify_applied say fs exec done sid a request w)
  unfolding verify_applied
  verify_applied-Settled exec done sid a request w =
      behind-Settled fs read done sid a _ _ _
        (send_all-quiet done 0 (body_chunks a.body) (body_chunks-quiet X a.body))
        (elim (Option-cases (send_all {X = X} done 0 (body_chunks a.body)).1) [
          | inl e ↦ rw e (interrupted-Settled done sid a _ w)
          | inr (i, e) ↦ rw e (run_verify-Settled exec done sid a request i w)
        ])
