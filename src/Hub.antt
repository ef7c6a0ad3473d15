-- ===== src/Hub.antt =====
-- internal/hub: the registry of connections. One goroutine owns the maps and takes one message at a
-- time, so each message is one step. Clients are shared with their pumps by pointer: they live on a
-- heap, and the maps hold addresses.
pub mod Registry
pub mod Steps
pub mod Takeover
mod Examples
use nomad_dev.Base.{
  ℕ, Bool, true, false, not, List, [], ◌∷◌, ◌++◌, Option, none, some, Text, lookup, insert, delete,
  text_eq, ltb, ◌==◌, if◌then◌else◌, length,
}
use nomad_dev.Event.{Envelope}

-- `send` is what the buffered channel Send holds; `closed` says whether Done() is closed.
pub record Client : Type 0 where
  pub id : Text
  pub sid : Text
  pub sub : Text
  pub scopes : List Text
  pub send : List Envelope
  pub send_buf : ℕ
  pub closed : Bool

unfoldable pub new_client_with_scopes : Text → Text → Text → List Text → ℕ → Client
new_client_with_scopes id sid sub scopes send_buf = record {
  id = id;
  sid = sid;
  sub = sub;
  scopes = scopes;
  send = [];
  send_buf = send_buf;
  closed = false;
}

-- Close is idempotent and leaves Send open.
unfoldable pub close : Client → Client
close c = record c { closed = true }

-- `select { case c.Send <- env: ... default: ... }`: a send on the buffered channel goes through while it has room. The
-- test is the language's, not one of the code.
unfoldable pub try_send : Client → Envelope → Client × Bool
try_send c env =
    if ltb (length c.send) c.send_buf
    then (record c { send = c.send ++ env ∷ [] }, true)
    else (c, false)

pub record Hub : Type 0 where
  pub heap : ℕ → Client
  pub clients : List (Text × ℕ)
  pub by_sid : List (Text × ℕ)

abbrev pub update : (ℕ → Client) → ℕ → Client → ℕ → Client
update heap p c q = if p == q then c else heap q

-- The notice to a replaced client, which is lost if its envelope could not be made or Send is full.
abbrev pub notify : Client → Option Envelope → Client
notify c none = c
notify c (some env) = (try_send c env).0

unfoldable pub replace : Hub → ℕ → Option Envelope → Hub
unfolding close
replace h q replaced = record h {
  heap = update h.heap q (close (notify (h.heap q) replaced));
  clients = delete (h.heap q).id h.clients;
}

abbrev pub bind : Hub → ℕ → Hub
bind h p = record h {
  clients = insert (h.heap p).id p h.clients;
  by_sid = insert (h.heap p).sid p h.by_sid;
}

-- `replaced` is the session.replaced envelope, or none where NewEnvelope fails.
unfoldable pub register : Hub → ℕ → Option Envelope → Hub
unfolding replace
register h p replaced = elim (lookup (h.heap p).sid h.by_sid) [
  | none ↦ bind h p
  | some q ↦ if text_eq (h.heap q).id (h.heap p).id then bind h p else bind (replace h q replaced) p
]

-- Whether the session of `p` is still bound to a client of this id.
abbrev pub is_current : Hub → ℕ → Bool
is_current h p = elim (lookup (h.heap p).sid h.by_sid) [
  | none ↦ false
  | some q ↦ text_eq (h.heap q).id (h.heap p).id
]

unfoldable pub unregister : Hub → ℕ → Hub
unfolding close
unregister h p = elim (lookup (h.heap p).id h.clients) [
  | none ↦ h
  | some q ↦ record h {
    heap = update h.heap p (close (h.heap p));
    clients = delete (h.heap p).id h.clients;
    by_sid = if is_current h p then delete (h.heap p).sid h.by_sid else h.by_sid;
  }
]

pub data SendResult : Type 0 where
  sent unknown_session buffer_full : SendResult

unfoldable pub send_to_session : Hub → Text → Envelope → Hub × SendResult
unfolding try_send
send_to_session h sid env = elim (lookup sid h.by_sid) [
  | none ↦ (h, unknown_session)
  | some p ↦
      let (c, done) = try_send (h.heap p) env in
      if done then (record h { heap = update h.heap p c }, sent) else (h, buffer_full)
]

-- On the end of the context every registered client is closed.
unfoldable pub close_all : (ℕ → Client) → List (Text × ℕ) → ℕ → Client
unfolding close
close_all heap [] = heap
close_all heap ((id, p) ∷ rest) = close_all (update heap p (close (heap p))) rest

unfoldable pub shutdown : Hub → Hub
shutdown h = record h { heap = close_all h.heap h.clients }

pub data Message : Type 0 where
  registers : ℕ → Option Envelope → Message
  unregisters : ℕ → Message
  sends : Text → Envelope → Message

unfoldable pub step : Hub → Message → Hub
step h (registers p replaced) = register h p replaced
step h (unregisters p) = unregister h p
step h (sends sid env) = (send_to_session h sid env).0

unfoldable pub run : Hub → List Message → Hub
run h [] = h
run h (m ∷ ms) = run (step h m) ms
