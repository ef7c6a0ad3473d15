-- ===== src/History/Pins/Bounds.antt =====
-- Lemmas about the ceilings of ReferenceBuffer in internal/history/pins.go.
use nomad_dev.Base.{
  Result-cases, ℕ, suc, ◌+◌, ◌≤◌, ◌≡◌, refl, ◌≢◌, true, ◌⊎◌, inl, inr, List, [], ◌∷◌, none, some,
  arith, Text, text_eq, text_eq_iff, lookup, insert, delete, lookup-insert, lookup-delete,
  insert-NodupKeys, delete-NodupKeys, NodupKeys, length, ◌==◌, ok, Bool-cases, Option-cases,
  if◌then◌else◌, ap, subst,
}
use nomad_dev.History.Pins.{
  ReferenceBuffer, Files, files_of, is_pinned, bytes_besides, pin, unpin, reset, Op, pins, unpins,
  resets, step, run, max_pinned_file_bytes, max_pinned_files_per_sid, max_pinned_session_bytes,
}

abbrev pub total_bytes : Files → ℕ
total_bytes [] = 0
total_bytes ((p, c) ∷ files) = length c + total_bytes files

bytes_besides-none :
    (p : Text) (files : Files) → lookup p files ≡ none → bytes_besides p files ≡ total_bytes files
unfolding bytes_besides lookup
bytes_besides-none p [] h = refl
bytes_besides-none p ((q, d) ∷ files) h =
    ground (arith, bytes_besides-none p files, text_eq_iff q p)

total_bytes-insert :
    (p c : Text) (files : Files)
    → NodupKeys files
    → total_bytes (insert p c files) ≡ length c + bytes_besides p files
unfolding bytes_besides insert
total_bytes-insert p c [] n = omega arith
total_bytes-insert p c ((q, d) ∷ files) n =
    ground (arith, total_bytes-insert p c files n.1, bytes_besides-none p files, text_eq_iff q p)

total_bytes-delete : (p : Text) (files : Files) → total_bytes (delete p files) ≤ total_bytes files
unfolding delete
total_bytes-delete p [] = omega arith
total_bytes-delete p ((q, d) ∷ files) = ground (arith, total_bytes-delete p files)

length-delete : (p : Text) (files : Files) → length (delete p files) ≤ length files
unfolding delete
length-delete p [] = omega arith
length-delete p ((q, d) ∷ files) = ground (arith, length-delete p files)

length-insert :
    (p c : Text) (files : Files)
    → length (insert p c files) ≡ (if is_pinned p files then length files else suc (length files))
unfolding is_pinned insert lookup
length-insert p c [] = refl
length-insert p c ((q, d) ∷ files) = ground (arith, length-insert p c files)

-- The ceilings for one session; a map is kept only while it has a file.
pub record IsSession (files : Files) : Type 0 where
  pub nodup : NodupKeys files
  pub some_file : files ≢ []
  pub each :
      (path content : Text)
      → lookup path files ≡ some content
      → length content ≤ max_pinned_file_bytes
  pub count : length files ≤ max_pinned_files_per_sid
  pub total : total_bytes files ≤ max_pinned_session_bytes

pub record IsValid (b : ReferenceBuffer) : Type 0 where
  pub sessions : (sid : Text) (files : Files) → lookup sid b ≡ some files → IsSession files

-- What a nil map and a kept map have in common.
record IsBounded (files : Files) : Type 0 where
  nodup : NodupKeys files
  each :
      (path content : Text)
      → lookup path files ≡ some content
      → length content ≤ max_pinned_file_bytes
  count : length files ≤ max_pinned_files_per_sid
  total : total_bytes files ≤ max_pinned_session_bytes

files_of-IsBounded : (b : ReferenceBuffer) (sid : Text) → IsValid b → IsBounded (files_of b sid)
unfolding files_of lookup
files_of-IsBounded b sid v = elim (Option-cases (lookup sid b)) [
  | inl e ↦
      rw (e, files_of)
        record { nodup = tt; each = λ p c h. cc; count = omega arith; total = omega arith }
  | inr (files, e) ↦
      let w = v.sessions sid files e in
      rw (e, files_of) record { nodup = w.nodup; each = w.each; count = w.count; total = w.total }
]

pub pin-eq-ok :
    (b b' : ReferenceBuffer) (sid path content : Text)
    → pin b sid path content ≡ ok b'
    → (length content ≤ max_pinned_file_bytes)
      × ((is_pinned path (files_of b sid) ≡ true)
          ⊎ (suc (length (files_of b sid)) ≤ max_pinned_files_per_sid))
      × (length content + bytes_besides path (files_of b sid) ≤ max_pinned_session_bytes)
      × (insert sid (insert path content (files_of b sid)) b ≡ b')
unfolding pin
pin-eq-ok b b' sid path content h = ground (arith)

insert-not-nil : (p c : Text) (files : Files) → insert p c files ≢ []
unfolding insert
insert-not-nil p c [] e = cc
insert-not-nil p c ((q, d) ∷ files) e = ground arith

each-insert :
    (path content p c : Text) (files : Files)
    → ((q d : Text) → lookup q files ≡ some d → length d ≤ max_pinned_file_bytes)
    → length content ≤ max_pinned_file_bytes
    → lookup p (insert path content files) ≡ some c
    → length c ≤ max_pinned_file_bytes
each-insert path content p c files each small h = elim (Bool-cases (text_eq path p)) [
  | inl e ↦ ground (arith, lookup-insert path p content files, e)
  | inr e ↦ each p c (ground (arith, lookup-insert path p content files, e))
]

insert-IsValid :
    (b : ReferenceBuffer) (sid : Text) (files : Files)
    → IsSession files
    → IsValid b
    → IsValid (insert sid files b)
insert-IsValid b sid files w v = record {
  sessions = λ sid' files' k. elim (Bool-cases (text_eq sid sid')) [
    | inl e ↦ subst IsSession (ground (arith, lookup-insert sid sid' files b, e)) w
    | inr e ↦ v.sessions sid' files' (ground (arith, lookup-insert sid sid' files b, e))
  ];
}

delete-IsValid : (b : ReferenceBuffer) (sid : Text) → IsValid b → IsValid (delete sid b)
delete-IsValid b sid v = record {
  sessions = λ sid' files k. v.sessions sid' files (ground (arith, lookup-delete sid sid' b));
}

pin-IsValid :
    (b b' : ReferenceBuffer) (sid path content : Text)
    → pin b sid path content ≡ ok b'
    → IsValid b
    → IsValid b'
pin-IsValid b b' sid path content h v =
    let (small, room, sum, e) = pin-eq-ok b b' sid path content h in
    let files = files_of b sid in
    let w = files_of-IsBounded b sid v in
    let kept : IsSession (insert path content files) = record {
      nodup = insert-NodupKeys path content files w.nodup;
      some_file = insert-not-nil path content files;
      each = λ p c k. each-insert path content p c files w.each small k;
      count = ground (arith, length-insert path content files, room, w.count);
      total = rw (total_bytes-insert path content files w.nodup) sum;
    } in
    subst IsValid e (insert-IsValid b sid (insert path content files) kept v)

unpin-IsValid : (b : ReferenceBuffer) (sid path : Text) → IsValid b → IsValid (unpin b sid path).0
unfolding unpin
unpin-IsValid b sid path v = elim (Bool-cases (is_pinned path (files_of b sid))) [
  | inr e ↦ rw e v
  | inl e ↦
      let files = files_of b sid in
      let w = files_of-IsBounded b sid v in
      elim (Bool-cases (length (delete path files) == 0)) [
        | inl f ↦ rw (e, f) (delete-IsValid b sid v)
        | inr f ↦
            rw (e, f)
              (insert-IsValid b sid (delete path files)
                (record {
                  nodup = delete-NodupKeys path files w.nodup;
                  some_file = λ k. ground (arith, f, ap length k);
                  each = λ p c k. w.each p c (ground (arith, lookup-delete path p files));
                  count = omega (arith, length-delete path files, w.count);
                  total = omega (arith, total_bytes-delete path files, w.total);
                })
                v)
      ]
]

-- Every operation keeps the ceilings, a pin that is refused included.
pin_step-IsValid : (b : ReferenceBuffer) (o : Op) → IsValid b → IsValid (step b o)
unfolding step reset
pin_step-IsValid b (pins sid path content) v = elim (Result-cases (pin b sid path content)) [
  | inl (b', e) ↦ rw (e, step) (pin-IsValid b b' sid path content e v)
  | inr (x, e) ↦ rw (e, step) v
]
pin_step-IsValid b (unpins sid path) v = unpin-IsValid b sid path v
pin_step-IsValid b (resets sid) v = delete-IsValid b sid v

run_from-IsValid : (b : ReferenceBuffer) (os : List Op) → IsValid b → IsValid (run b os)
unfolding run
run_from-IsValid b [] v = v
run_from-IsValid b (o ∷ os) v = run_from-IsValid (step b o) os (pin_step-IsValid b o v)

no_session : (sid : Text) {files : Files} → lookup sid [] ≢ some files
unfolding lookup
no_session sid h = cc

-- After any calls of Pin, Unpin and Reset on any sessions, each session that is kept has between 1 and 32
-- pinned files, no path twice, none above 256 KiB and at most 1 MiB in all.
pub pin_run-IsValid : (os : List Op) → IsValid (run [] os)
pin_run-IsValid os =
    run_from-IsValid [] os (record { sessions = λ sid files h. absurd (no_session sid h) })
