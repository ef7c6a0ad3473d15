-- ===== src/Session/RingBuffer.antt =====
-- internal/session/ringbuf.go. `int` sizes are the lengths of serialized envelopes, so they are
-- naturals; the caps of the constructor may be negative.
pub mod Bounds
pub mod Replay
use nomad_dev.Base.{
  ℕ, suc, ◌+◌, ◌-◌, Bool, true, false, ◌||◌, List, [], ◌∷◌, ◌++◌, map, Text, text_eq, text_lt, ltb,
  if◌then◌else◌, length, ℤ, at_least_one,
}
use nomad_dev.Event.{Envelope}

pub record Entry : Type 0 where
  pub env : Envelope
  pub size : ℕ

pub record RingBuffer : Type 0 where
  pub cap : ℕ
  pub max_bytes : ℕ
  pub bytes : ℕ
  pub items : List Entry

unfoldable pub new_ring_buffer : ℤ → ℤ → RingBuffer
new_ring_buffer cap max_bytes = record {
  cap = at_least_one cap;
  max_bytes = at_least_one max_bytes;
  bytes = 0;
  items = [];
}

-- `len(b.items) > b.cap || b.bytes > b.maxBytes`.
abbrev pub is_over : ℕ → ℕ → ℕ → List Entry → Bool
is_over cap max_bytes bytes items = ltb cap (length items) || ltb max_bytes bytes

-- The loop of Push: the bytes and entries that are left. The loop never meets an empty slice.
unfoldable pub evict : ℕ → ℕ → ℕ → List Entry → ℕ × List Entry
evict cap max_bytes bytes [] = (bytes, [])
evict cap max_bytes bytes (x ∷ []) = (bytes, x ∷ [])
evict cap max_bytes bytes (x ∷ y ∷ rest) =
    let smaller = evict cap max_bytes (bytes - x.size) (y ∷ rest) in
    if is_over cap max_bytes bytes (x ∷ y ∷ rest) then smaller else (bytes, x ∷ y ∷ rest)

unfoldable pub push : RingBuffer → Envelope → ℕ → RingBuffer
push b env size =
    let (bytes, items) =
      evict b.cap b.max_bytes (b.bytes + size)
        (b.items ++ record { env = env; size = size } ∷ []) in
    record b { bytes = bytes; items = items }

unfoldable pub len : RingBuffer → ℕ
len b = length b.items

unfoldable pub first_id : RingBuffer → Text
first_id b = elim b.items [ [] ↦ [] | x ∷ xs ↦ x.env.id ]

-- The id of the last of `x ∷ xs`.
unfoldable pub last_of : Entry → List Entry → Text
last_of x [] = x.env.id
last_of x (y ∷ ys) = last_of y ys

unfoldable pub last_id : RingBuffer → Text
last_id b = elim b.items [ [] ↦ [] | x ∷ xs ↦ last_of x xs ]

abbrev pub envs : List Entry → List Envelope
envs = map λ x. x.env

-- The loop of Since, and the return under it.
unfoldable pub scan : Text → List Entry → List Envelope × Bool
scan last [] = ([], true)
scan last (x ∷ xs) = if text_eq x.env.id last then (envs xs, false) else scan last xs

unfoldable pub since_items : Text → List Entry → List Envelope × Bool
since_items last [] = ([], true)
since_items last (x ∷ xs) =
    if text_lt last x.env.id
    then ([], true)
    else if text_lt (last_of x xs) last
    then ([], true)
    else scan last (x ∷ xs)

-- The envelopes after `last`, and whether the request is stale.
unfoldable pub since : RingBuffer → Text → List Envelope × Bool
since b last = if text_eq last [] then ([], false) else since_items last b.items
