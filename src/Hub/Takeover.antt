-- ===== src/Hub/Takeover.antt =====
-- Lemmas about Register and Unregister of internal/hub/hub.go for one session.
use nomad_dev.Base.{
  ℕ, ◌≡◌, refl, ap, ◌≢◌, true, false, Option, none, some, arith, text_eq, text_eq_iff, ==_iff,
  lookup, insert, delete, lookup-insert, lookup-delete_self, lookup-insert_self,
}
use nomad_dev.Event.{Envelope}
use nomad_dev.Hub.{Hub, close, replace, bind, register, unregister}
use nomad_dev.Hub.Registry.{ids, sids, IsSound}
use nomad_dev.Hub.Steps.{notify-id, notify-sid, ids-update, sids-update}

bind_bound : (h : Hub) (p : ℕ) → lookup (h.heap p).sid (bind h p).by_sid ≡ some p
bind_bound h p = lookup-insert_self (h.heap p).sid p h.by_sid

unregister-absent : (h : Hub) (q : ℕ) → lookup (h.heap q).id h.clients ≡ none → unregister h q ≡ h
unfolding unregister
unregister-absent h q e = rw (e, unregister)

register-taken :
    (h : Hub) (p q : ℕ) (r : Option Envelope)
    → lookup (h.heap p).sid h.by_sid ≡ some q
    → text_eq (h.heap q).id (h.heap p).id ≡ false
    → register h p r ≡ bind (replace h q r) p
unfolding register
register-taken h p q r e other = rw (e, register, other)

-- The heap after a replacement: `q` is closed, and the ids and sessions are the old ones.
replace-heap :
    (h : Hub) (q : ℕ) (r : Option Envelope)
    → (((replace h q r).heap q).closed ≡ true)
      × (ids (replace h q r).heap ≡ ids h.heap)
      × (sids (replace h q r).heap ≡ sids h.heap)
unfolding replace close
replace-heap h q r = (
  rw ((==_iff q q).1 refl) refl,
  ids-update h.heap q _ (notify-id (h.heap q) r),
  sids-update h.heap q _ (notify-sid (h.heap q) r),
)

replaced-clients :
    (h : Hub) (p q : ℕ) (r : Option Envelope)
    → text_eq (h.heap q).id (h.heap p).id ≡ false
    → lookup (h.heap q).id (insert (h.heap p).id p (replace h q r).clients) ≡ none
unfolding replace
replaced-clients h p q r other = ground (
  arith,
  lookup-insert (h.heap p).id (h.heap q).id p (delete (h.heap q).id h.clients),
  lookup-delete_self (h.heap q).id h.clients,
  text_eq_iff (h.heap q).id (h.heap p).id,
  text_eq_iff (h.heap p).id (h.heap q).id,
)

-- In a sound hub, a client that reconnects takes its session over: the session is bound to the new client, the old
-- one is closed and no longer registered, and when its socket is unregistered later nothing changes,
-- so the new client keeps the session.
pub register_takes_over :
    (h : Hub) (p q : ℕ) (r : Option Envelope)
    → IsSound h
    → lookup (h.heap p).sid h.by_sid ≡ some q
    → q ≢ p
    → let h' = register h p r in
      (lookup (h.heap p).sid h'.by_sid ≡ some p)
      × ((h'.heap q).closed ≡ true)
      × (unregister h' q ≡ h')
register_takes_over h p q r v e d =
    let other : text_eq (h.heap q).id (h.heap p).id ≡ false =
      ground (arith, v.distinct q p, text_eq_iff (h.heap q).id (h.heap p).id) in
    let (closed, i, s) = replace-heap h q r in
    let h' = bind (replace h q r) p in
    rw (register-taken h p q r e other) (
      rw (← ap (λ f. f p) s) (bind_bound (replace h q r) p),
      closed,
      unregister-absent h' q
          (rw (ap (λ f. f q) i, ap (λ f. f p) i) (replaced-clients h p q r other)),
    )
