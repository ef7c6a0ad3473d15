-- ===== src/Hub/Examples.antt =====
-- Runs of the hub: a session that reconnects, and a full buffer.
use nomad_dev.Base.{ℕ, ◌≡◌, refl, [], ◌∷◌, none, some, lit, lookup, insert, text_eq, true, arith}
use nomad_dev.Event.{Envelope}
use nomad_dev.Hub.{
  Client, Hub, new_client_with_scopes, registers, unregisters, sends, run, step, register,
  unregister, send_to_session, buffer_full,
}
use nomad_dev.Hub.Registry.{IsSound}
use nomad_dev.Hub.Steps.{hub_run-IsSound}
use nomad_dev.Hub.Takeover.{register_takes_over}

-- The clients p of one session, with the id `p` and room for one envelope.
abbrev phone : ℕ → Client
phone p = new_client_with_scopes (p ∷ []) (lit "phone") (lit "ann") [] 1

abbrev start : Hub
start = record { heap = phone; clients = []; by_sid = [] }

abbrev hello : Envelope
hello = record { id = lit "1"; typ = lit "hello"; correlation_id = []; payload = [] }

abbrev first : Hub
first = run start (registers 0 none ∷ [])

first_bound : lookup (lit "phone") first.by_sid ≡ some 0
unfolding run step register lookup insert text_eq new_client_with_scopes
first_bound = refl

start-IsSound : IsSound start
unfolding lookup new_client_with_scopes
start-IsSound = record {
  agree = record { of_client = λ i p h. cc; of_session = λ i p h. cc };
  distinct = λ p q e. cc;
}

hub_run-IsSound_example :
    IsSound (run start (registers 0 none ∷ registers 1 (some hello) ∷ unregisters 0 ∷ []))
hub_run-IsSound_example =
    hub_run-IsSound start (registers 0 none ∷ registers 1 (some hello) ∷ unregisters 0 ∷ [])
      start-IsSound

register_takes_over_example :
    (lookup (lit "phone") (register first 1 (some hello)).by_sid ≡ some 1)
    × (((register first 1 (some hello)).heap 0).closed ≡ true)
    × (unregister (register first 1 (some hello)) 0 ≡ register first 1 (some hello))
unfolding run step register lookup new_client_with_scopes
register_takes_over_example =
    register_takes_over first 1 0 (some hello)
      (hub_run-IsSound start (registers 0 none ∷ []) start-IsSound) first_bound (omega arith)

-- The second envelope finds the buffer full.
second_send :
    (send_to_session (step first (sends (lit "phone") hello)) (lit "phone") hello).1 ≡ buffer_full
unfolding run step register send_to_session lookup text_eq new_client_with_scopes insert
second_send = refl
