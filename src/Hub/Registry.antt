-- ===== src/Hub/Registry.antt =====
-- Lemmas about the two maps of the hub in internal/hub/hub.go.
use nomad_dev.Base.{
  ℕ, ◌≡◌, ap, subst, ◌≢◌, List, some, arith, Text, text_eq_iff, lookup, insert, delete,
  lookup-insert, lookup-delete,
}
use nomad_dev.Hub.{Client, Hub}

-- Over the ids and sessions of the clients, which no step changes.
pub record Agree (id sid : ℕ → Text) (clients by_sid : List (Text × ℕ)) : Type 0 where
  pub of_client :
      (i : Text) (p : ℕ) → lookup i clients ≡ some p → (id p ≡ i) × (lookup (sid p) by_sid ≡ some p)
  pub of_session :
      (s : Text) (p : ℕ) → lookup s by_sid ≡ some p → (sid p ≡ s) × (lookup (id p) clients ≡ some p)

abbrev pub ids : (ℕ → Client) → ℕ → Text
ids heap p = (heap p).id

abbrev pub sids : (ℕ → Client) → ℕ → Text
sids heap p = (heap p).sid

-- The registry of a hub is sound, and no two sockets share an id.
pub record IsSound (h : Hub) : Type 0 where
  pub agree : Agree (ids h.heap) (sids h.heap) h.clients h.by_sid
  pub distinct : (p q : ℕ) → (h.heap p).id ≡ (h.heap q).id → p ≡ q

module _ (id sid : ℕ → Text) (distinct : (p q : ℕ) → id p ≡ id q → p ≡ q) where
  -- Binding `p` restores agreement where only its own session may be off.
  bind-Agree :
      (clients by_sid : List (Text × ℕ)) (p : ℕ)
      → ((i : Text) (q : ℕ)
          → lookup i clients ≡ some q
          → (id q ≡ i) × (lookup (sid q) by_sid ≡ some q) × (sid q ≡ sid p → q ≡ p))
      → ((s : Text) (q : ℕ)
          → lookup s by_sid ≡ some q
          → s ≢ sid p
          → (sid q ≡ s) × (lookup (id q) clients ≡ some q))
      → Agree id sid (insert (id p) p clients) (insert (sid p) p by_sid)
  bind-Agree clients by_sid p hc hs = record {
    of_client = λ i q h. ground (
      arith,
      hc i q,
      lookup-insert (id p) i p clients,
      lookup-insert (sid p) (sid q) p by_sid,
      text_eq_iff (id p) i,
      text_eq_iff (sid p) (sid q),
    );
    of_session = λ s q h. ground (
      arith,
      hs s q,
      lookup-insert (id p) (id q) p clients,
      lookup-insert (sid p) s p by_sid,
      text_eq_iff (id p) (id q),
      text_eq_iff (sid p) s,
      distinct p q,
    );
  }

  -- A session that is free, or bound to `p` itself.
  pub bind_free-Agree :
      (clients by_sid : List (Text × ℕ)) (p : ℕ)
      → Agree id sid clients by_sid
      → ((q : ℕ) → lookup (sid p) by_sid ≡ some q → q ≡ p)
      → Agree id sid (insert (id p) p clients) (insert (sid p) p by_sid)
  bind_free-Agree clients by_sid p a free =
      bind-Agree clients by_sid p
        (λ i q h. (
          (a.of_client i q h).0,
          (a.of_client i q h).1,
          λ e. free q (subst (λ s. lookup s by_sid ≡ some q) e (a.of_client i q h).1),
        ))
        (λ s q h n. a.of_session s q h)

  -- A session bound to another client `q`, which leaves the map of clients first.
  pub bind_taken-Agree :
      (clients by_sid : List (Text × ℕ)) (p q : ℕ)
      → Agree id sid clients by_sid
      → lookup (sid p) by_sid ≡ some q
      → Agree id sid (insert (id p) p (delete (id q) clients)) (insert (sid p) p by_sid)
  bind_taken-Agree clients by_sid p q a taken =
      bind-Agree (delete (id q) clients) by_sid p
        (λ i r h. ground (
          arith,
          a.of_client i r,
          lookup-delete (id q) i clients,
          text_eq_iff (id q) i,
          ap (λ s. lookup s by_sid) {x = sid r} {y = sid p},
        ))
        (λ s r h n. ground (
          arith,
          a.of_session s r h,
          a.of_session (sid p) q taken,
          lookup-delete (id q) (id r) clients,
          text_eq_iff (id q) (id r),
          distinct q r,
        ))

  pub unbind-Agree :
      (clients by_sid : List (Text × ℕ)) (p : ℕ)
      → Agree id sid clients by_sid
      → lookup (id p) clients ≡ some p
      → Agree id sid (delete (id p) clients) (delete (sid p) by_sid)
  unbind-Agree clients by_sid p a here = record {
    of_client = λ i q h. ground (
      arith,
      a.of_client i q,
      a.of_client (id p) p here,
      lookup-delete (id p) i clients,
      lookup-delete (sid p) (sid q) by_sid,
      text_eq_iff (id p) i,
      text_eq_iff (sid p) (sid q),
    );
    of_session = λ s q h. ground (
      arith,
      a.of_session s q,
      lookup-delete (id p) (id q) clients,
      lookup-delete (sid p) s by_sid,
      text_eq_iff (id p) (id q),
      text_eq_iff (sid p) s,
      distinct p q,
    );
  }
