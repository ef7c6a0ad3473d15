-- ===== src/Session/Store.antt =====
-- internal/session/session.go: sessions are shared by pointer, so they live on a heap, and the map of
-- the store holds addresses. Instants and durations are numbers of one unit; the clock readings
-- inside one call are taken as one. A mutex makes each method one step.
pub mod Invariant
pub mod Sharing
use nomad_dev.Base.{
  ℕ, suc, ◌+◌, ◌-◌, Bool, true, false, not, List, [], ◌∷◌, Option, none, some, Text, lookup, insert,
  delete, keep_values, ltb, ◌==◌, if◌then◌else◌, length, ℤ,
}
use nomad_dev.Event.{Envelope}
use nomad_dev.Session.RingBuffer.{RingBuffer, new_ring_buffer, push, since, first_id, last_id}

-- `persist` says whether a hook is installed; what it is called with is a result of `append`.
pub record Session : Type 0 where
  pub sid : Text
  pub created_at : ℕ
  pub last_seen : ℕ
  pub buffer : RingBuffer
  pub persist : Bool

pub record MemoryStore : Type 0 where
  pub buffer_size : ℤ
  pub max_bytes : ℤ
  pub sessions : List (Text × ℕ)
  pub heap : ℕ → Session
  pub next : ℕ

abbrev pub update : (ℕ → Session) → ℕ → Session → ℕ → Session
update heap p s q = if p == q then s else heap q

-- The heap before the first allocation is never read through the map.
unfoldable pub new_memory_store : ℤ → ℤ → (ℕ → Session) → MemoryStore
new_memory_store buffer_size max_bytes heap = record {
  buffer_size = buffer_size;
  max_bytes = max_bytes;
  sessions = [];
  heap = heap;
  next = 0;
}

-- Get: the pointer, or nil.
unfoldable pub get : MemoryStore → Text → Option ℕ
get m sid = lookup sid m.sessions

fresh_session : MemoryStore → Text → ℕ → Session
fresh_session m sid now = record {
  sid = sid;
  created_at = now;
  last_seen = now;
  buffer = new_ring_buffer m.buffer_size m.max_bytes;
  persist = false;
}

unfoldable pub get_or_create : MemoryStore → Text → ℕ → MemoryStore × ℕ
unfolding fresh_session
get_or_create m sid now = elim (lookup sid m.sessions) [
  | some p ↦ (record m { heap = update m.heap p (record (m.heap p) { last_seen = now }) }, p)
  | none ↦ (
    record m {
      sessions = insert sid m.next m.sessions;
      heap = update m.heap m.next (fresh_session m sid now);
      next = suc m.next;
    },
    m.next,
  )
]

unfoldable pub drop_session : MemoryStore → Text → MemoryStore
drop_session m sid = record m { sessions = delete sid m.sessions }

unfoldable pub touch : MemoryStore → ℕ → ℕ → MemoryStore
touch m p now = record m { heap = update m.heap p (record (m.heap p) { last_seen = now }) }

-- Append, and the call of the persist hook that it makes.
unfoldable pub append : MemoryStore → ℕ → Envelope → ℕ → ℕ → MemoryStore × Option (Envelope × ℕ)
append m p env size now = (
  record m {
    heap =
        update m.heap p
          (record (m.heap p) { buffer = push (m.heap p).buffer env size; last_seen = now });
  },
  if (m.heap p).persist then some (env, size) else none,
)

unfoldable pub events_since : MemoryStore → ℕ → Text → List Envelope × Bool
events_since m p last = since (m.heap p).buffer last

unfoldable pub buffer_bounds : MemoryStore → ℕ → Text × Text
buffer_bounds m p = (first_id (m.heap p).buffer, last_id (m.heap p).buffer)

-- `s.LastSeen().Before(now.Add(-ttl))`, without the subtraction.
abbrev pub is_idle : MemoryStore → ℕ → ℕ → ℕ → Bool
is_idle m ttl now p = ltb ((m.heap p).last_seen + ttl) now

unfoldable pub sweep_idle : MemoryStore → ℕ → ℕ → MemoryStore × ℕ
sweep_idle m ttl now =
    let kept = keep_values (λ p. not (is_idle m ttl now p)) m.sessions in
    (record m { sessions = kept }, length m.sessions - length kept)

-- The calls that change a store. A pointer in a call is one that some goroutine still holds.
pub data Op : Type 0 where
  creates : Text → ℕ → Op
  drops : Text → Op
  touches : ℕ → ℕ → Op
  appends : ℕ → Envelope → ℕ → ℕ → Op
  sweeps : ℕ → ℕ → Op

unfoldable pub step : MemoryStore → Op → MemoryStore
unfolding get_or_create drop_session touch append sweep_idle
step m (creates sid now) = (get_or_create m sid now).0
step m (drops sid) = drop_session m sid
step m (touches p now) = touch m p now
step m (appends p env size now) = (append m p env size now).0
step m (sweeps ttl now) = (sweep_idle m ttl now).0

unfoldable pub run : MemoryStore → List Op → MemoryStore
run m [] = m
run m (o ∷ os) = run (step m o) os
