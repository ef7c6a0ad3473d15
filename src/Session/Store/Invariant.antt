-- ===== src/Session/Store/Invariant.antt =====
-- Lemmas about the heap and the map of MemoryStore in internal/session/session.go.
use nomad_dev.Base.{
  ℕ, suc, ◌<◌, ◌≡◌, refl, not, List, [], ◌∷◌, some, arith, Text, text_eq, text_eq_iff, lookup,
  insert, lookup-insert, lookup-delete, lookup-keep_values, keep_values-NodupKeys, insert-NodupKeys,
  delete-NodupKeys, NodupKeys, inl, inr, ◌==◌, ℤ, ◌∙◌, ==_iff, Bool-cases, Option-cases,
}
use nomad_dev.Session.RingBuffer.Bounds
use nomad_dev.Session.Store.{
  Session, MemoryStore, update, new_memory_store, fresh_session, get_or_create, step, run, Op,
  creates, drops, touches, appends, sweeps, is_idle,
}

-- What a map entry promises: an allocated session of that very id, whose buffer is well-formed. So
-- two ids never share a session.
pub record IsEntry (next : ℕ) (heap : ℕ → Session) (sid : Text) (p : ℕ) : Type 0 where
  pub allocated : p < next
  pub named : (heap p).sid ≡ sid
  pub buffered : Bounds.IsValid (heap p).buffer

pub record IsValid (m : MemoryStore) : Type 0 where
  pub nodup : NodupKeys m.sessions
  pub entries : (sid : Text) (p : ℕ) → lookup sid m.sessions ≡ some p → IsEntry m.next m.heap sid p

pub new_memory_store-IsValid :
    (buffer_size max_bytes : ℤ) (heap : ℕ → Session)
    → IsValid (new_memory_store buffer_size max_bytes heap)
unfolding new_memory_store lookup
new_memory_store-IsValid buffer_size max_bytes heap = record { nodup = tt; entries = λ sid p h. cc }

-- A write through a pointer that leaves the id alone and keeps the buffer sound.
update-IsEntry :
    (next : ℕ) (heap : ℕ → Session) (p : ℕ) (s : Session) (sid : Text) (q : ℕ)
    → s.sid ≡ (heap p).sid
    → (Bounds.IsValid (heap p).buffer → Bounds.IsValid s.buffer)
    → IsEntry next heap sid q
    → IsEntry next (update heap p s) sid q
update-IsEntry next heap p s sid q same sound w = elim (Bool-cases (p == q)) [
  | inl hit ↦
      let e : p ≡ q = (==_iff p q).0 hit in
      record {
        allocated = w.allocated;
        named = rw hit (same ∙ (rw e w.named));
        buffered = rw hit (sound (rw e w.buffered));
      }
  | inr miss ↦ record {
    allocated = w.allocated;
    named = rw miss w.named;
    buffered = rw miss w.buffered;
  }
]

create-IsEntry :
    (m : MemoryStore) (sid : Text) (now : ℕ) (sid' : Text) (p : ℕ)
    → IsValid m
    → lookup sid' (insert sid m.next m.sessions) ≡ some p
    → IsEntry (suc m.next) (update m.heap m.next (fresh_session m sid now)) sid' p
unfolding fresh_session
create-IsEntry m sid now sid' p v h = elim (Bool-cases (text_eq sid sid')) [
  | inl same ↦
      let e : m.next ≡ p = ground (arith, lookup-insert sid sid' m.next m.sessions) in
      rw (← e) (record {
        allocated = omega arith;
        named = ground (arith, text_eq_iff sid sid');
        buffered = ground (arith, Bounds.new_ring_buffer-IsValid m.buffer_size m.max_bytes);
      })
  | inr other ↦
      let w : IsEntry m.next m.heap sid' p =
        v.entries sid' p (rw (lookup-insert sid sid' m.next m.sessions, other) at h) in
      record { allocated = omega arith; named = ground arith; buffered = ground arith }
]

create-IsValid :
    (m : MemoryStore) (sid : Text) (now : ℕ) → IsValid m → IsValid (get_or_create m sid now).0
unfolding get_or_create
create-IsValid m sid now v = elim (Option-cases (lookup sid m.sessions)) [
  | inl e ↦
      rw (e, get_or_create)
        (record {
          nodup = insert-NodupKeys sid m.next m.sessions v.nodup;
          entries = λ sid' p h. create-IsEntry m sid now sid' p v h;
        })
  | inr (p, e) ↦
      rw (e, get_or_create)
        (record {
          nodup = v.nodup;
          entries = λ sid' q h.
              update-IsEntry m.next m.heap p _ sid' q refl (λ b. b) (v.entries sid' q h);
        })
]

-- Every call of the store keeps it well-formed: no id stands twice in the map, each id leads to an
-- allocated session of that id, and every buffer reached so is well-formed.
pub step-IsValid : (m : MemoryStore) (o : Op) → IsValid m → IsValid (step m o)
unfolding step
step-IsValid m (creates sid now) v = create-IsValid m sid now v
step-IsValid m (drops sid) v = record {
  nodup = delete-NodupKeys sid m.sessions v.nodup;
  entries = λ sid' p h. v.entries sid' p (ground (arith, lookup-delete sid sid' m.sessions));
}
step-IsValid m (touches p now) v = record {
  nodup = v.nodup;
  entries = λ sid' q h. update-IsEntry m.next m.heap p _ sid' q refl (λ b. b) (v.entries sid' q h);
}
step-IsValid m (appends p env size now) v = record {
  nodup = v.nodup;
  entries = λ sid' q h.
      update-IsEntry m.next m.heap p _ sid' q refl (Bounds.push-IsValid (m.heap p).buffer env size)
        (v.entries sid' q h);
}
step-IsValid m (sweeps ttl now) v = record {
  nodup = keep_values-NodupKeys _ m.sessions v.nodup;
  entries = λ sid' p h.
      v.entries sid' p (
        ground
          (arith, lookup-keep_values (λ q. not (is_idle m ttl now q)) sid' m.sessions v.nodup));
}

-- After any calls on a well-formed store it is well-formed: every id leads to an allocated session of
-- that id, with a well-formed buffer.
pub run-IsValid : (m : MemoryStore) (os : List Op) → IsValid m → IsValid (run m os)
unfolding run
run-IsValid m [] v = v
run-IsValid m (o ∷ os) v = run-IsValid (step m o) os (step-IsValid m o v)
