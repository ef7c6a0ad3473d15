-- ===== src/Session/Examples.antt =====
-- Runs of the replay buffer and of the session store.
use nomad_dev.Base.{
  ℕ, ◌≡◌, refl, ◌≢◌, ◌⊎◌, inl, ◌≤◌, List, [], ◌∷◌, ◌++◌, some, Text, lit, lookup, insert, text_eq,
  text_eq_iff, text_lt, true, false, arith, length, pos,
}
use nomad_dev.Event.{Envelope}
use nomad_dev.Session.RingBuffer.{RingBuffer, Entry, push, since, since_items, scan, last_of}
use nomad_dev.Session.RingBuffer.Bounds.{
  new_ring_buffer-IsValid, push-IsValid, push_keeps_longest, Overflows, total,
}
use nomad_dev.Session.RingBuffer.Replay.{since-hit, since-push}
use nomad_dev.Session.Store.{
  MemoryStore, Session, new_memory_store, Op, creates, appends, run, step, get_or_create,
  sweep_idle,
}
use nomad_dev.Session.Store.Invariant.{new_memory_store-IsValid, run-IsValid}
use nomad_dev.Session.Store.Sharing.{run_own, sweep_idle_lem, Swept, own_pushes}
use nomad_dev.Session.RingBuffer.Bounds
use nomad_dev.Session.Store.Invariant

abbrev event : Text → Envelope
event id = record { id = id; typ = lit "ack"; correlation_id = []; payload = [] }

abbrev entry : Text → Entry
entry id = record { env = event id; size = 4 }

-- Room for two entries and ten bytes, both entries taken.
abbrev two : RingBuffer
two = record { cap = 2; max_bytes = 10; bytes = 8; items = entry (lit "a") ∷ entry (lit "b") ∷ [] }

two-IsValid : Bounds.IsValid two
two-IsValid = record {
  cap_positive = omega arith;
  max_bytes_positive = omega arith;
  exact = refl;
  counted = omega arith;
  bounded = inl (omega arith);
}

push-IsValid_example : Bounds.IsValid (push two (event (lit "c")) 4)
push-IsValid_example = push-IsValid two (event (lit "c")) 4 two-IsValid

push_keeps_longest_example :
    (dropped : List Entry) × (two.items ++ entry (lit "c") ∷ []
      ≡ dropped ++ (push two (event (lit "c")) 4).items)
    × Overflows 2 10 dropped (push two (event (lit "c")) 4).items
    × (1 ≤ length (push two (event (lit "c")) 4).items)
    × (length (push two (event (lit "c")) 4).items ≤ 2)
    × ((total (push two (event (lit "c")) 4).items ≤ 10)
        ⊎ (length (push two (event (lit "c")) 4).items ≡ 1))
push_keeps_longest_example = push_keeps_longest two (event (lit "c")) 4 two-IsValid

since-hit_example : since two (lit "a") ≡ (event (lit "b") ∷ [], false)
unfolding text_lt
since-hit_example =
    since-hit two [] (entry (lit "a")) (entry (lit "b") ∷ []) refl ((refl, tt), (tt, tt)) (λ e. cc)

differs : (s t : Text) → text_eq s t ≡ false → s ≢ t
differs s t h e = ground (arith, text_eq_iff s t, h, e)

since-push_example :
    (since (push two (event (lit "c")) 4) (lit "a")
      ≡ ((since two (lit "a")).0 ++ event (lit "c") ∷ [], false))
    ⊎ (since (push two (event (lit "c")) 4) (lit "a") ≡ ([], true))
unfolding since since_items scan text_lt text_eq last_of
since-push_example =
    since-push two (event (lit "c")) 4 (lit "a") two-IsValid
      ((refl, (refl, tt)), ((refl, tt), (tt, tt))) (λ e. cc) refl

abbrev any_session : ℕ → Session
any_session p = record { sid = []; created_at = 0; last_seen = 0; buffer = two; persist = false }

abbrev empty : MemoryStore
empty = new_memory_store (pos 2) (pos 10) any_session

abbrev calls : List Op
calls = creates (lit "ann") 1 ∷ creates (lit "bob") 2 ∷ appends 0 (event (lit "a")) 4 7 ∷ []

run-IsValid_example : Invariant.IsValid (run empty calls)
run-IsValid_example =
    run-IsValid empty calls (new_memory_store-IsValid (pos 2) (pos 10) any_session)

run_own_example :
    (lookup (lit "ann") (run (run empty calls) (appends 1 (event (lit "b")) 4 7 ∷ [])).sessions
      ≡ some 0)
    × (((run (run empty calls) (appends 1 (event (lit "b")) 4 7 ∷ [])).heap 0).buffer
        ≡ own_pushes 0 ((run empty calls).heap 0).buffer (appends 1 (event (lit "b")) 4 7 ∷ []))
unfolding run step get_or_create new_memory_store lookup insert text_eq
run_own_example =
    run_own (run empty calls) (appends 1 (event (lit "b")) 4 7 ∷ []) (lit "ann") 0
      (run-IsValid empty calls (new_memory_store-IsValid (pos 2) (pos 10) any_session)) (tt, tt)
      refl

sweep_idle_lem_example :
    Swept (run empty calls) 3 9 (lit "ann")
    × ((sweep_idle (run empty calls) 3 9).0.heap ≡ (run empty calls).heap)
sweep_idle_lem_example =
    sweep_idle_lem (run empty calls) 3 9 (lit "ann")
      (run-IsValid empty calls (new_memory_store-IsValid (pos 2) (pos 10) any_session))
