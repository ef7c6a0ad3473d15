-- ===== src/Session/RingBuffer/Replay.antt =====
-- Lemmas about Since and Push of internal/session/ringbuf.go.
use nomad_dev.Base.{
  ℕ, ◌≡◌, refl, sym, ap, subst, ◌∙◌, ◌⊎◌, inl, inr, ◌≢◌, true, false, List, [], ◌∷◌, ◌++◌, arith,
  Text, text_eq, text_eq_iff, text_eq_refl, text_lt, text_lt_irrefl, text_lt_asym, All, Bool-cases,
  append_assoc, map-append,
}
use nomad_dev.Event.{Envelope}
use nomad_dev.Session.RingBuffer.{Entry, RingBuffer, push, last_of, envs, scan, since_items, since}
use nomad_dev.Session.RingBuffer.Bounds.{IsValid, push_keeps_longest}

-- The ids grow along the buffer, as those that event.NewID mints do.
abbrev pub Ascending : List Entry → Type 0
Ascending [] = Unit {0}
Ascending (x ∷ xs) = All (λ y. text_lt x.env.id y.env.id ≡ true) xs × Ascending xs

abbrev pub HasId : Text → List Entry → Type 0
HasId t [] = ⊥
HasId t (x ∷ xs) = (x.env.id ≡ t) ⊎ HasId t xs

All-middle :
    (P : Entry → Type 0) (pre : List Entry) (e : Entry) (post : List Entry)
    → All P (pre ++ e ∷ post)
    → P e
All-middle P [] e post h = h.0
All-middle P (x ∷ pre) e post h = All-middle P pre e post h.1

last_of-All :
    (Q : Text → Type 0) (x : Entry) (xs : List Entry)
    → All (λ y. Q y.env.id) (x ∷ xs)
    → Q (last_of x xs)
unfolding last_of
last_of-All Q x [] h = h.0
last_of-All Q x (y ∷ ys) h = last_of-All Q y ys h.1

last_of-append :
    (x : Entry) (pre : List Entry) (e : Entry) (post : List Entry)
    → last_of x (pre ++ e ∷ post) ≡ last_of e post
unfolding last_of
last_of-append x [] e post = refl
last_of-append x (y ∷ pre) e post = last_of-append y pre e post

last_not_before :
    (e : Entry) (post : List Entry)
    → All (λ y. text_lt e.env.id y.env.id ≡ true) post
    → text_lt (last_of e post) e.env.id ≡ false
unfolding last_of
last_not_before e [] h = text_lt_irrefl e.env.id
last_not_before e (y ∷ ys) h =
    text_lt_asym e.env.id (last_of y ys) (last_of-All (λ t. text_lt e.env.id t ≡ true) y ys h)

All-prefix : (P : Entry → Type 0) (xs ys : List Entry) → All P (xs ++ ys) → All P xs
All-prefix P [] ys h = tt
All-prefix P (x ∷ xs) ys h = (h.0, All-prefix P xs ys h.1)

Ascending-suffix : (pre post : List Entry) → Ascending (pre ++ post) → Ascending post
Ascending-suffix [] post a = a
Ascending-suffix (x ∷ pre) post a = Ascending-suffix pre post a.1

text_lt-ne : (s t : Text) → text_lt s t ≡ true → text_eq s t ≡ false
text_lt-ne s t h = ground (arith, text_eq_iff s t, text_lt_irrefl s)

scan-hit :
    (pre : List Entry) (e : Entry) (post : List Entry)
    → Ascending (pre ++ e ∷ post)
    → scan e.env.id (pre ++ e ∷ post) ≡ (envs post, false)
unfolding scan
scan-hit [] e post a = rw (text_eq_refl e.env.id)
scan-hit (x ∷ pre) e post a =
    rw (text_lt-ne x.env.id e.env.id (All-middle _ pre e post a.0)) (scan-hit pre e post a.1)

since_items-hit :
    (pre : List Entry) (e : Entry) (post : List Entry)
    → Ascending (pre ++ e ∷ post)
    → since_items e.env.id (pre ++ e ∷ post) ≡ (envs post, false)
unfolding since_items
since_items-hit [] e post a =
    rw (text_lt_irrefl e.env.id, last_not_before e post a.0) (scan-hit [] e post a)
since_items-hit (x ∷ pre) e post a =
    rw
      (
        text_lt_asym x.env.id e.env.id (All-middle _ pre e post a.0),
        last_of-append x pre e post,
        last_not_before e post (Ascending-suffix (x ∷ pre) (e ∷ post) a).0,
      )
      (scan-hit (x ∷ pre) e post a)

scan-miss : (last : Text) (xs : List Entry) → ¬ HasId last xs → scan last xs ≡ ([], true)
unfolding scan
scan-miss last [] h = refl
scan-miss last (x ∷ xs) h = elim (Bool-cases (text_eq x.env.id last)) [
  | inl e ↦ absurd (h (inl ((text_eq_iff x.env.id last).0 e)))
  | inr e ↦ rw e (scan-miss last xs (λ m. h (inr m)))
]

since_items-miss :
    (last : Text) (xs : List Entry) → ¬ HasId last xs → since_items last xs ≡ ([], true)
unfolding since_items
since_items-miss last [] h = refl
since_items-miss last (x ∷ xs) h = ground (arith, scan-miss last (x ∷ xs) h)

text_eq-nil : (t : Text) → t ≢ [] → text_eq t [] ≡ false
text_eq-nil t h = ground (arith, text_eq_iff t [])

-- A client whose last event is still in the buffer is sent exactly the envelopes behind it, in
-- order; if the buffer ids grow.
pub since-hit :
    (b : RingBuffer) (pre : List Entry) (e : Entry) (post : List Entry)
    → b.items ≡ pre ++ e ∷ post
    → Ascending b.items
    → e.env.id ≢ []
    → since b e.env.id ≡ (envs post, false)
unfolding since
since-hit b pre e post eq a h =
    rw (text_eq-nil e.env.id h, eq) (since_items-hit pre e post (subst Ascending eq a))

-- An id that the buffer does not hold (evicted, or never minted) is reported stale, with nothing to
-- replay; whatever the order of the buffer.
pub since-miss :
    (b : RingBuffer) (last : Text) → last ≢ [] → ¬ HasId last b.items → since b last ≡ ([], true)
unfolding since
since-miss b last h m = rw (text_eq-nil last h) (since_items-miss last b.items m)

HasId-cases :
    (t : Text) (xs : List Entry)
    → (¬ HasId t xs)
      ⊎ ((pre : List Entry) × (e : Entry) × (post : List Entry) × (xs ≡ pre ++ e ∷ post)
          × (e.env.id ≡ t))
HasId-cases t [] = inl (λ h. h)
HasId-cases t (x ∷ xs) = elim (Bool-cases (text_eq x.env.id t)) [
  | inl e ↦ inr ([], x, xs, refl, (text_eq_iff x.env.id t).0 e)
  | inr n ↦ elim (HasId-cases t xs) [
    | inl none ↦ inl (λ h. elim h [ inl e ↦ cc ((text_eq_iff x.env.id t).1 e) | inr m ↦ none m ])
    | inr (pre, e, post, eq, same) ↦ inr (x ∷ pre, e, post, ap (◌∷◌ x) eq, same)
  ]
]

-- A hit names one place: however the list is split around an entry of that id, what follows is the same.
scan_of_split :
    (last : Text) (xs pre : List Entry) (e : Entry) (post : List Entry)
    → xs ≡ pre ++ e ∷ post
    → e.env.id ≡ last
    → Ascending xs
    → scan last xs ≡ (envs post, false)
scan_of_split last xs pre e post eq same a =
    rw (← same, eq) (scan-hit pre e post (subst Ascending eq a))

since_of_split :
    (b : RingBuffer) (last : Text) (pre : List Entry) (e : Entry) (post : List Entry)
    → b.items ≡ pre ++ e ∷ post
    → e.env.id ≡ last
    → Ascending b.items
    → last ≢ []
    → since b last ≡ (envs post, false)
since_of_split b last pre e post eq same a h =
    rw (← same) (since-hit b pre e post eq a (λ n. h (sym same ∙ n)))

Ascending-prefix : (pre post : List Entry) → Ascending (pre ++ post) → Ascending pre
Ascending-prefix [] post a = tt
Ascending-prefix (x ∷ pre) post a = (All-prefix _ pre post a.0, Ascending-prefix pre post a.1)

-- The entries left after a push, and those before it, agree on what stands behind an id.
behind_agree :
    (b : RingBuffer) (new : Entry) (kept dropped : List Entry) (last : Text)
    → b.items ++ new ∷ [] ≡ dropped ++ kept
    → Ascending (b.items ++ new ∷ [])
    → (pre : List Entry) (e : Entry) (post : List Entry) → b.items ≡ pre ++ e ∷ post
    → e.env.id ≡ last
    → (pre' : List Entry) (e' : Entry) (post' : List Entry) → kept ≡ pre' ++ e' ∷ post'
    → e'.env.id ≡ last
    → envs post' ≡ envs post ++ new.env ∷ []
behind_agree b new kept dropped last split a pre e post eq same pre' e' post' eq' same' =
    cc (old_way, new_way, map-append (λ (x : Entry). x.env) post (new ∷ []))
  where
    old_way : scan last (b.items ++ new ∷ []) ≡ (envs (post ++ new ∷ []), false)
    old_way =
        scan_of_split last _ pre e (post ++ new ∷ [])
          (ap (λ xs. xs ++ new ∷ []) eq ∙ append_assoc pre (e ∷ post) (new ∷ [])) same a

    new_way : scan last (b.items ++ new ∷ []) ≡ (envs post', false)
    new_way =
        scan_of_split last _ (dropped ++ pre') e' post'
          (split ∙ ap (λ xs. dropped ++ xs) eq' ∙ sym (append_assoc dropped pre' (e' ∷ post')))
          same' a

-- No gap: a client that could be replayed before a push is afterwards sent the same envelopes and
-- the new one behind them, or is told that it is stale; it is never sent a list with a hole. The ids
-- grow up to and including the new one.
pub since-push :
    (b : RingBuffer) (env : Envelope) (size : ℕ) (last : Text)
    → IsValid b
    → Ascending (b.items ++ record { env = env; size = size } ∷ [])
    → last ≢ []
    → (since b last).1 ≡ false
    → (since (push b env size) last ≡ ((since b last).0 ++ env ∷ [], false))
      ⊎ (since (push b env size) last ≡ ([], true))
since-push b env size last v a h fresh = elim (HasId-cases last (push b env size).items) [
  | inl gone ↦ inr (since-miss (push b env size) last h gone)
  | inr (pre', e', post', eq', same') ↦ elim (HasId-cases last b.items) [
    | inl never ↦ cc (since-miss b last h never)
    | inr (pre, e, post, eq, same) ↦ inl (
        let (dropped, split, _, _, _, _) = push_keeps_longest b env size v in
        cc (
          since_of_split (push b env size) last pre' e' post' eq' same'
              (Ascending-suffix dropped _ (subst Ascending split a)) h,
          since_of_split b last pre e post eq same (Ascending-prefix b.items _ a) h,
          behind_agree b _ _ dropped last split a pre e post eq same pre' e' post' eq' same',
        ))
  ]
]
