-- ===== src/Session/Store/Sharing.antt =====
-- Lemmas about what the methods of MemoryStore in internal/session/session.go do to one session id.
use nomad_dev.Base.{
  ℕ, ◌+◌, ◌≤◌, ◌<◌, ◌⊎◌, inl, inr, Option-cases, Bool-cases, ◌≡◌, refl, not, List, [], ◌∷◌, none,
  some, arith, Text, text_eq_iff, lookup, lookup-insert, lookup-keep_values, ◌==◌, if◌then◌else◌,
  lookup-insert_self,
}
use nomad_dev.Session.RingBuffer.{RingBuffer, push}
use nomad_dev.Session.Store.{
  MemoryStore, get, get_or_create, step, run, sweep_idle, is_idle, Op, creates, drops, touches,
  appends, sweeps,
}
use nomad_dev.Session.Store.Invariant.{IsValid, step-IsValid}

-- The calls that remove no session.
abbrev pub Keeps : Op → Type 0
Keeps (drops sid) = ⊥
Keeps (sweeps ttl now) = ⊥
Keeps (creates sid now) = Unit {0}
Keeps (touches p now) = Unit {0}
Keeps (appends p env size now) = Unit {0}

abbrev pub AllKeep : List Op → Type 0
AllKeep [] = Unit {0}
AllKeep (o ∷ os) = Keeps o × AllKeep os

-- The specification of one session: its buffer sees the appends made through its own pointer.
abbrev pub own_push : ℕ → RingBuffer → Op → RingBuffer
own_push p b (appends q env size now) = if q == p then push b env size else b
own_push p b (creates sid now) = b
own_push p b (touches q now) = b
own_push p b (drops sid) = b
own_push p b (sweeps ttl now) = b

unfoldable pub own_pushes : ℕ → RingBuffer → List Op → RingBuffer
own_pushes p b [] = b
own_pushes p b (o ∷ os) = own_pushes p (own_push p b o) os

step_own :
    (m : MemoryStore) (o : Op) (sid : Text) (p : ℕ)
    → IsValid m
    → Keeps o
    → lookup sid m.sessions ≡ some p
    → (lookup sid (step m o).sessions ≡ some p)
      × (((step m o).heap p).buffer ≡ own_push p (m.heap p).buffer o)
unfolding step get_or_create
step_own m (creates sid' now) sid p v k h =
    ground
      (arith, v.entries sid p h, lookup-insert sid' sid m.next m.sessions, text_eq_iff sid' sid)
step_own m (drops sid') sid p v k h = absurd k
step_own m (touches q now) sid p v k h = (h, ground arith)
step_own m (appends q env size now) sid p v k h = (h, ground arith)
step_own m (sweeps ttl now) sid p v k h = absurd k

-- While no call removes sessions, an id keeps its session, and the session's buffer is what the
-- appends through its own pointer make of it: creations, touches and appends of others change nothing.
pub run_own :
    (m : MemoryStore) (os : List Op) (sid : Text) (p : ℕ)
    → IsValid m
    → AllKeep os
    → lookup sid m.sessions ≡ some p
    → (lookup sid (run m os).sessions ≡ some p)
      × (((run m os).heap p).buffer ≡ own_pushes p (m.heap p).buffer os)
unfolding run own_pushes
run_own m [] sid p v k h = (h, refl)
run_own m (o ∷ os) sid p v k h =
    let (found, same) = step_own m o sid p v k.0 h in
    let (there, equal) = run_own (step m o) os sid p (step-IsValid m o v) k.1 found in
    (there, rw same at equal)

-- `GetOrCreate` is idempotent: a second call, at any later time, gives the pointer of the first, which
-- is then in the map, and leaves the session's buffer as it was.
pub get_or_create-twice :
    (m : MemoryStore) (sid : Text) (now later : ℕ)
    → let (m', p) = get_or_create m sid now in
      let (m'', p') = get_or_create m' sid later in
      (p' ≡ p) × (get m' sid ≡ some p) × ((m''.heap p).buffer ≡ (m'.heap p).buffer)
unfolding get_or_create get
get_or_create-twice m sid now later = ground (arith, lookup-insert_self sid m.next m.sessions)

-- What a sweep at `now` makes of an id: one that is not in the map stays out of it, and a session stays up to its
-- last use plus the limit, and is gone behind that.
abbrev pub Swept : MemoryStore → ℕ → ℕ → Text → Type 0
Swept m ttl now sid =
    let m' = (sweep_idle m ttl now).0 in
    ((get m sid ≡ none) × (get m' sid ≡ none))
    ⊎ ((p : ℕ) × (get m sid ≡ some p)
        × (((now ≤ (m.heap p).last_seen + ttl) × (get m' sid ≡ some p))
            ⊎ (((m.heap p).last_seen + ttl < now) × (get m' sid ≡ none))))

-- In a store that is well-formed, a sweep at `now` drops from the map exactly the ids whose session was last used
-- before `now` by more than the limit, keeps the others with their sessions, and touches no session on the heap.
pub sweep_idle_lem :
    (m : MemoryStore) (ttl now : ℕ) (sid : Text)
    → IsValid m
    → Swept m ttl now sid × ((sweep_idle m ttl now).0.heap ≡ m.heap)
unfolding sweep_idle get
sweep_idle_lem m ttl now sid v =
    let kept = lookup-keep_values (λ p. not (is_idle m ttl now p)) sid m.sessions v.nodup in
    (
      elim (Option-cases (lookup sid m.sessions)) [
        | inl e ↦ inl (e, ground (arith, kept))
        | inr (p, e) ↦ inr (
          p,
          e,
          elim (Bool-cases (is_idle m ttl now p)) [
            | inl f ↦ inr (ground arith, ground (arith, kept))
            | inr f ↦ inl (ground arith, ground (arith, kept))
          ],
        )
      ],
      refl,
    )
