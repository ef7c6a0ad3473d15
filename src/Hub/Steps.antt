-- ===== src/Hub/Steps.antt =====
-- Lemmas about the messages of Hub.Run in internal/hub/hub.go.
use mathlib.Core.Path.{fun_ext}
use nomad_dev.Base.{
  ℕ, ◌≡◌, refl, sym, ap, subst, ◌∙◌, true, List, [], ◌∷◌, Option, none, some, arith, Text, text_eq,
  text_eq_iff, text_eq_refl, ==_iff, lookup, Bool-cases, Option-cases, inl, inr, length, ltb,
}
use nomad_dev.Event.{Envelope}
use nomad_dev.Hub.{
  Client, Hub, close, try_send, notify, update, replace, bind, register, is_current, unregister,
  send_to_session, Message, registers, unregisters, sends, step, run,
}
use nomad_dev.Hub.Registry.{
  Agree, ids, sids, IsSound, bind_free-Agree, bind_taken-Agree, unbind-Agree,
}

pub notify-id : (c : Client) (r : Option Envelope) → (close (notify c r)).id ≡ c.id
unfolding close try_send
notify-id c none = refl
notify-id c (some env) = ground arith

pub notify-sid : (c : Client) (r : Option Envelope) → (close (notify c r)).sid ≡ c.sid
unfolding close try_send
notify-sid c none = refl
notify-sid c (some env) = ground arith

pub ids-update :
    (heap : ℕ → Client) (p : ℕ) (c : Client) → c.id ≡ (heap p).id → ids (update heap p c) ≡ ids heap
ids-update heap p c e = fun_ext λ q. ground (arith, ==_iff p q)

pub sids-update :
    (heap : ℕ → Client) (p : ℕ) (c : Client)
    → c.sid ≡ (heap p).sid
    → sids (update heap p c) ≡ sids heap
sids-update heap p c e = fun_ext λ q. ground (arith, ==_iff p q)

-- New maps over clients that keep their ids and sessions.
rebuild :
    (h : Hub) (heap : ℕ → Client) (clients by_sid : List (Text × ℕ))
    → IsSound h
    → ids heap ≡ ids h.heap
    → sids heap ≡ sids h.heap
    → Agree (ids h.heap) (sids h.heap) clients by_sid
    → IsSound (record { heap = heap; clients = clients; by_sid = by_sid })
rebuild h heap clients by_sid v i s a = record {
  agree = rw (i, s) a;
  distinct = subst (λ f. (p q : ℕ) → f p ≡ f q → p ≡ q) (sym i) v.distinct;
}

bind-IsSound :
    (h : Hub) (p : ℕ)
    → IsSound h
    → ((q : ℕ) → lookup (h.heap p).sid h.by_sid ≡ some q → q ≡ p)
    → IsSound (bind h p)
bind-IsSound h p v free =
    rebuild h h.heap _ _ v refl refl
      (bind_free-Agree (ids h.heap) (sids h.heap) v.distinct h.clients h.by_sid p v.agree free)

replace-IsSound :
    (h : Hub) (p q : ℕ) (r : Option Envelope)
    → IsSound h
    → lookup (h.heap p).sid h.by_sid ≡ some q
    → IsSound (bind (replace h q r) p)
unfolding replace
replace-IsSound h p q r v taken =
    let i = ids-update h.heap q _ (notify-id (h.heap q) r) in
    let s = sids-update h.heap q _ (notify-sid (h.heap q) r) in
    rebuild h _ _ _ v i s (
      rw (ap (λ f. f p) i, ap (λ f. f p) s)
        (bind_taken-Agree (ids h.heap) (sids h.heap) v.distinct h.clients h.by_sid p q v.agree
          taken))

register-IsSound : (h : Hub) (p : ℕ) (r : Option Envelope) → IsSound h → IsSound (register h p r)
unfolding register
register-IsSound h p r v = elim (Option-cases (lookup (h.heap p).sid h.by_sid)) [
  | inl e ↦ rw (e, register) (bind-IsSound h p v (λ q k. cc))
  | inr (q, e) ↦ elim (Bool-cases (text_eq (h.heap q).id (h.heap p).id)) [
    | inl same ↦
        let one = v.distinct q p ((text_eq_iff (h.heap q).id (h.heap p).id).0 same) in
        rw (e, register, same) (bind-IsSound h p v (λ r k. cc))
    | inr other ↦ rw (e, register, other) (replace-IsSound h p q r v e)
  ]
]

-- The client that is registered under the id of `p` is `p`, and its session is bound to it.
own-current :
    (h : Hub) (p q : ℕ)
    → IsSound h
    → lookup (h.heap p).id h.clients ≡ some q
    → (lookup (h.heap p).id h.clients ≡ some p) × (is_current h p ≡ true)
own-current h p q v e =
    let same = v.distinct q p (v.agree.of_client (h.heap p).id q e).0 in
    let here = e ∙ ap some same in
    (here, rw ((v.agree.of_client (h.heap p).id p here).1, is_current) (text_eq_refl (h.heap p).id))

unregister-IsSound : (h : Hub) (p : ℕ) → IsSound h → IsSound (unregister h p)
unfolding unregister close
unregister-IsSound h p v = elim (Option-cases (lookup (h.heap p).id h.clients)) [
  | inl e ↦ rw (e, unregister) v
  | inr (q, e) ↦
      let (here, current) = own-current h p q v e in
      rw (e, unregister, current)
        (rebuild h _ _ _ v (ids-update h.heap p _ refl) (sids-update h.heap p _ refl)
          (unbind-Agree (ids h.heap) (sids h.heap) v.distinct h.clients h.by_sid p v.agree here))
]

send-IsSound :
    (h : Hub) (sid : Text) (env : Envelope) → IsSound h → IsSound (send_to_session h sid env).0
unfolding send_to_session
send-IsSound h sid env v = elim (Option-cases (lookup sid h.by_sid)) [
  | inl e ↦ rw (e, send_to_session) v
  | inr (p, e) ↦ elim (Bool-cases (ltb (length (h.heap p).send) (h.heap p).send_buf)) [
    | inl room ↦
        rw (e, send_to_session, room)
          (rebuild h _ _ _ v (ids-update h.heap p _ refl) (sids-update h.heap p _ refl) v.agree)
    | inr full ↦ rw (e, send_to_session, full) v
  ]
]

-- Every message keeps the registry sound: each registered client is the one its session is bound to,
-- each bound client is registered, and no two sessions or ids share a client. So a session never has
-- two registered clients.
pub hub_step-IsSound : (h : Hub) (m : Message) → IsSound h → IsSound (step h m)
unfolding step
hub_step-IsSound h (registers p r) v = register-IsSound h p r v
hub_step-IsSound h (unregisters p) v = unregister-IsSound h p v
hub_step-IsSound h (sends sid env) v = send-IsSound h sid env v

-- After any messages to a sound hub, it is sound: a session is bound to a registered client of that
-- session, every registered client is bound, and each map leads an id to the client that has it.
pub hub_run-IsSound : (h : Hub) (ms : List Message) → IsSound h → IsSound (run h ms)
unfolding run
hub_run-IsSound h [] v = v
hub_run-IsSound h (m ∷ ms) v = hub_run-IsSound (step h m) ms (hub_step-IsSound h m v)
