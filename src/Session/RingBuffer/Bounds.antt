-- ===== src/Session/RingBuffer/Bounds.antt =====
-- Lemmas about NewRingBuffer and Push of internal/session/ringbuf.go.
use nomad_dev.Base.{
  ℕ, ◌+◌, ◌-◌, ◌≤◌, ◌<◌, ◌≡◌, refl, sym, ap, ◌⊎◌, inl, inr, List, [], ◌∷◌, ◌++◌, arith, length,
  Bool-cases, ℤ, pos, negsuc,
}
use nomad_dev.Event.{Envelope}
use nomad_dev.Session.RingBuffer.{Entry, RingBuffer, new_ring_buffer, is_over, evict, push}

abbrev pub total : List Entry → ℕ
total [] = 0
total (x ∷ xs) = x.size + total xs

pub total-append : (xs ys : List Entry) → total (xs ++ ys) ≡ total xs + total ys
total-append [] ys = omega arith
total-append (x ∷ xs) ys = omega (arith, total-append xs ys)

-- The byte count is exact, and both caps hold, except that one entry may exceed the byte cap.
pub record IsValid (b : RingBuffer) : Type 0 where
  pub cap_positive : 1 ≤ b.cap
  pub max_bytes_positive : 1 ≤ b.max_bytes
  pub exact : b.bytes ≡ total b.items
  pub counted : length b.items ≤ b.cap
  pub bounded : (b.bytes ≤ b.max_bytes) ⊎ (length b.items ≡ 1)

pub new_ring_buffer-IsValid : (cap max_bytes : ℤ) → IsValid (new_ring_buffer cap max_bytes)
unfolding new_ring_buffer
new_ring_buffer-IsValid (pos c) (pos m) = ground arith
new_ring_buffer-IsValid (pos c) (negsuc m) = ground arith
new_ring_buffer-IsValid (negsuc c) (pos m) = ground arith
new_ring_buffer-IsValid (negsuc c) (negsuc m) = ground arith

module _ (cap max_bytes : ℕ) where
  evict-exact :
      (bytes : ℕ) (items : List Entry)
      → bytes ≡ total items
      → (evict cap max_bytes bytes items).0 ≡ total (evict cap max_bytes bytes items).1
  unfolding evict
  evict-exact bytes [] e = e
  evict-exact bytes (x ∷ []) e = e
  evict-exact bytes (x ∷ y ∷ rest) e =
      ground (arith, evict-exact (bytes - x.size) (y ∷ rest) (omega arith))

  evict-bounded :
      (bytes : ℕ) (items : List Entry)
      → let r = evict cap max_bytes bytes items in
        ((length r.1 ≤ cap) × (r.0 ≤ max_bytes)) ⊎ (length r.1 ≤ 1)
  unfolding evict
  evict-bounded bytes [] = inr (omega arith)
  evict-bounded bytes (x ∷ []) = inr (omega arith)
  evict-bounded bytes (x ∷ y ∷ rest) = ground (arith, evict-bounded (bytes - x.size) (y ∷ rest))

  evict-nonempty :
      (bytes : ℕ) (x : Entry) (items : List Entry)
      → 1 ≤ length (evict cap max_bytes bytes (x ∷ items)).1
  unfolding evict
  evict-nonempty bytes x [] = omega arith
  evict-nonempty bytes x (y ∷ rest) = ground (arith, evict-nonempty (bytes - x.size) y rest)

  evict-nonempty_append :
      (bytes : ℕ) (xs : List Entry) (x : Entry)
      → 1 ≤ length (evict cap max_bytes bytes (xs ++ x ∷ [])).1
  evict-nonempty_append bytes [] x = evict-nonempty bytes x []
  evict-nonempty_append bytes (y ∷ xs) x = evict-nonempty bytes y (xs ++ x ∷ [])

  -- What was dropped stood in front, and every entry of it was over a cap together with its rest.
  abbrev pub Overflows : List Entry → List Entry → Type 0
  Overflows [] kept = Unit {0}
  Overflows (x ∷ dropped) kept =
      ((cap < length (x ∷ dropped ++ kept)) ⊎ (max_bytes < total (x ∷ dropped ++ kept)))
      × Overflows dropped kept

  pub evict-split :
      (bytes : ℕ) (items : List Entry)
      → bytes ≡ total items
      → (dropped : List Entry) × (items ≡ dropped ++ (evict cap max_bytes bytes items).1)
        × Overflows dropped (evict cap max_bytes bytes items).1
  unfolding evict
  evict-split bytes [] e = ([], refl, tt)
  evict-split bytes (x ∷ []) e = ([], refl, tt)
  evict-split bytes (x ∷ y ∷ rest) e =
      elim (Bool-cases (is_over cap max_bytes bytes (x ∷ y ∷ rest))) [
        | inr fits ↦ rw fits ([], refl, tt)
        | inl over ↦
            let (dropped, eq, os) = evict-split (bytes - x.size) (y ∷ rest) (omega arith) in
            rw over (x ∷ dropped, ap (◌∷◌ x) eq, (rw (← eq) (ground arith), os))
      ]

module _ (b : RingBuffer) (env : Envelope) (size : ℕ) (v : IsValid b) where
  appended-total : b.bytes + size ≡ total (b.items ++ record { env = env; size = size } ∷ [])
  appended-total =
      omega (arith, v.exact, total-append b.items (record { env = env; size = size } ∷ []))

-- A push keeps the buffer well-formed: the byte count stays exact, and afterwards both caps hold,
-- except that a single entry may be larger than the byte cap.
pub push-IsValid :
    (b : RingBuffer) (env : Envelope) (size : ℕ) → IsValid b → IsValid (push b env size)
unfolding push
push-IsValid b env size v = record {
  cap_positive = v.cap_positive;
  max_bytes_positive = v.max_bytes_positive;
  exact = evict-exact b.cap b.max_bytes _ _ (appended-total b env size v);
  counted = ground (
    arith,
    evict-bounded b.cap b.max_bytes (b.bytes + size)
        (b.items ++ record { env = env; size = size } ∷ []),
    evict-nonempty_append b.cap b.max_bytes (b.bytes + size) b.items
        (record { env = env; size = size }),
    v.cap_positive,
  );
  bounded = ground (
    arith,
    evict-bounded b.cap b.max_bytes (b.bytes + size)
        (b.items ++ record { env = env; size = size } ∷ []),
    evict-nonempty_append b.cap b.max_bytes (b.bytes + size) b.items
        (record { env = env; size = size }),
  );
}

-- A push keeps a suffix of the old entries and the new one. The suffix is not empty and fits both caps, except that
-- a single entry may be larger than the byte cap; and an entry is dropped only if it and all that stood behind it
-- would exceed a cap, so that the suffix is the longest that fits.
pub push_keeps_longest :
    (b : RingBuffer) (env : Envelope) (size : ℕ)
    → IsValid b
    → let b' = push b env size in
      (dropped : List Entry) × (b.items ++ record { env = env; size = size } ∷ []
        ≡ dropped ++ b'.items)
      × Overflows b.cap b.max_bytes dropped b'.items
      × (1 ≤ length b'.items)
      × (length b'.items ≤ b.cap)
      × ((total b'.items ≤ b.max_bytes) ⊎ (length b'.items ≡ 1))
unfolding push
push_keeps_longest b env size v =
    let (dropped, eq, os) = evict-split b.cap b.max_bytes _ _ (appended-total b env size v) in
    let after = push-IsValid b env size v in
    (
      dropped,
      eq,
      os,
      evict-nonempty_append b.cap b.max_bytes _ b.items _,
      after.counted,
      elim after.bounded [ inl k ↦ inl (rw (sym after.exact) k) | inr one ↦ inr one ],
    )
