-- ===== src/Fsops/Read.antt =====
-- read_file: runReadFile of internal/fsops/run.go. An open file is a handle of type `H`; `read h n` is File.Read
-- into a buffer of `n` bytes.
use nomad_dev.Base.{
  ℕ, zero, suc, ◌+◌, ◌-◌, ◌*◌, ◌≤◌, ◌<◌, ◌≡◌, refl, ap, inl, inr, Bool, true, false, ◌&&◌, List, [],
  ◌∷◌, Option, none, some, arith, Text, lit, length, ltb, ◌==◌, if◌then◌else◌, Result, ok, err,
  Result-cases, ℤ, Bool-cases, at_least_zero,
}
use nomad_dev.Base.Json.{Fields}
use nomad_dev.Dispatch.{
  backend, context_error, stdout, stderr, exit, ExecChunk, exit_with, exit_zero, text_on, is_exit,
  apply_verify_chunk_bytes,
}
use nomad_dev.Dispatch.Verify.{EndsOnce}
use nomad_dev.Fsops.{Fault, os, is_directory, Disk, Engine, arg_string, arg_positive, resolve_safe}

abbrev pub default_read_file_max_bytes : ℕ
default_read_file_max_bytes = 256 * 1024

abbrev pub hard_read_file_max_bytes : ℕ
hard_read_file_max_bytes = 4 * 1024 * 1024

-- The cap of one call: the argument or the default, the configured limit, and the hard one.
unfoldable pub read_cap : Fields → ℤ → ℕ
read_cap args limit =
    let asked = arg_positive args (lit "max_bytes") in
    let first = if ltb 0 asked then asked else default_read_file_max_bytes in
    let configured = at_least_zero limit in
    let second = if ltb 0 configured && ltb configured first then configured else first in
    if ltb hard_read_file_max_bytes second then hard_read_file_max_bytes else second

pub data ReadEnd (E : Type 0) : Type 0 where
  eof : ReadEnd E
  failed : E → ReadEnd E

abbrev pub Reader : Type 0 → Type 0 → Type 0
Reader H E = H → ℕ → H × Text × Option (ReadEnd E)

-- `io.Reader`: no more than was asked for, and no endless empty reads.
pub record IsReader {H E : Type 0} (read : Reader H E) : Type 0 where
  pub fits : (h : H) (n : ℕ) → length (read h n).1 ≤ n
  pub ends : (h : H) (n : ℕ) → 1 ≤ n → (read h n).2 ≡ none → 1 ≤ length (read h n).1

-- How the loop goes on behind a read: its end, or the rounds that are left.
unfoldable pub after_read :
    {E : Type 0}
    → Option (ReadEnd E)
    → Option (List (ExecChunk (Fault E)))
    → Option (List (ExecChunk (Fault E)))
after_read none more = more
after_read (some eof) more = some (exit_zero ∷ [])
after_read (some (failed x)) more = some (exit_with (backend (os x)) ∷ [])

-- The loop, with `room` bytes left to the cap; none where the fuel runs out.
module _ {H E : Type 0} (read : Reader H E) (done : ℕ → Bool) where
  abbrev pub ask : ℕ → ℕ
  ask room = if ltb room apply_verify_chunk_bytes then room else apply_verify_chunk_bytes

  -- What follows the send of one round.
  unfoldable pub read_loop : ℕ → ℕ → ℕ → H → Option (List (ExecChunk (Fault E)))
  unfolding after_read
  read_loop zero i room h = none
  read_loop (suc fuel) i room h =
      let (h', bytes, end) = read h (ask room) in
      let rest = read_loop fuel (if length bytes == 0 then i else suc i) (room - length bytes) h' in
      let more = after_read end rest in
      if room == 0
      then some (exit_zero ∷ [])
      else if length bytes == 0
      then more
      else if done i
      then some (exit_with context_error ∷ [])
      else (elim more [ none ↦ none | some out ↦ some (text_on stdout bytes ∷ out) ])

-- The bytes of a channel's stdout.
abbrev pub stdout_bytes : {X : Type 0} → List (ExecChunk X) → ℕ
stdout_bytes [] = 0
stdout_bytes (c ∷ cs) = elim c.stream [
  | stdout ↦ length c.data_of + stdout_bytes cs
  | stderr ↦ stdout_bytes cs
  | exit ↦ stdout_bytes cs
]

pub read_cap_bounds :
    (args : Fields) (limit : ℤ)
    → (1 ≤ read_cap args limit) × (read_cap args limit ≤ hard_read_file_max_bytes)
unfolding read_cap
read_cap_bounds args limit = ground arith

-- What is proved of a loop's channel: it is there, ends once, and stays within `room` bytes.
pub record Sends {X : Type 0} (r : Option (List (ExecChunk X))) (room : ℕ) : Type 0 where
  pub out : List (ExecChunk X)
  pub last : ExecChunk X
  pub made : r ≡ some out
  pub ends_once : EndsOnce out last
  pub within : stdout_bytes out ≤ room

only_exit :
    {X : Type 0} (c : ExecChunk X) (room : ℕ)
    → is_exit c ≡ true
    → stdout_bytes (c ∷ []) ≡ 0
    → Sends (some (c ∷ [])) room
only_exit c room e z = record {
  out = c ∷ [];
  last = c;
  made = refl;
  ends_once = record { before = []; whole = refl; none_before = tt; ends = e };
  within = omega (arith, z);
}

one_more :
    {X : Type 0} (bytes : Text) (r : Option (List (ExecChunk X))) (room : ℕ)
    → length bytes ≤ room
    → Sends r (room - length bytes)
    → Sends (elim r [ none ↦ none | some out ↦ some (text_on stdout bytes ∷ out) ]) room
one_more bytes r room h s = record {
  out = text_on stdout bytes ∷ s.out;
  last = s.last;
  made = rw (s.made) refl;
  ends_once = record {
    before = text_on stdout bytes ∷ s.ends_once.before;
    whole = ap (λ x. text_on stdout bytes ∷ x) s.ends_once.whole;
    none_before = (refl, s.ends_once.none_before);
    ends = s.ends_once.ends;
  };
  within = omega (arith, h, s.within);
}

after_read-Sends :
    {E : Type 0} (end : Option (ReadEnd E)) (more : Option (List (ExecChunk (Fault E)))) (room : ℕ)
    → ((end ≡ none) → Sends more room)
    → Sends (after_read end more) room
unfolding after_read
after_read-Sends none more room s = s refl
after_read-Sends (some eof) more room s = only_exit exit_zero room refl refl
after_read-Sends (some (failed x)) more room s =
    only_exit (exit_with (backend (os x))) room refl refl

-- A read ends, within a number of rounds above the cap, and gives no more than the cap, with exactly one
-- exit chunk at its end; over any reader that keeps to io.Reader.
pub read_loop-Sends :
    {H E : Type 0} (read : Reader H E) (done : ℕ → Bool) (fuel i room : ℕ) (h : H)
    → IsReader read
    → room < fuel
    → Sends (read_loop read done fuel i room h) room
unfolding read_loop
read_loop-Sends read done zero i room h r f = absurd (omega (arith, f))
read_loop-Sends read done (suc fuel) i room h r f = elim (Bool-cases (room == 0)) [
  | inl e ↦ rw e (only_exit exit_zero room refl refl)
  | inr e ↦
      let got = read h (ask read done room) in
      let fits : length got.1 ≤ room = ground (arith, r.fits h (ask read done room)) in
      let next = λ (j : ℕ). λ (p : 1 ≤ length got.1).
        read_loop-Sends read done fuel j (room - length got.1) got.0 r
          (omega (arith, f, p, fits)) in
      elim (Bool-cases (length got.1 == 0)) [
        | inl z ↦
            rw (e, z)
              (after_read-Sends got.2 _ room (λ n.
                absurd (ground (arith, z, r.ends h (ask read done room) (ground (arith, e)) n))))
        | inr z ↦ elim (Bool-cases (done i)) [
          | inl d ↦ rw (e, z, d) (only_exit (exit_with context_error) room refl refl)
          | inr d ↦
              rw (e, z, d)
                (one_more got.1 _ room fits (
                  after_read-Sends got.2 _ (room - length got.1) (λ n. next _ (ground (arith, z)))))
        ]
      ]
]

-- runReadFile, up to the loop; `open_file` is os.Open. The fuel is one more than the cap.
unfoldable pub run_read_file :
    {W E H : Type 0}
    → Disk W E
    → (W → Text → Result E H)
    → Reader H E
    → Engine
    → (ℕ → Bool)
    → W
    → Text
    → Fields
    → ℤ
    → W × Option (List (ExecChunk (Fault E)))
unfolding read_cap
run_read_file disk open_file read e done w sid args limit = elim (arg_string args (lit "path")) [
  | err x ↦ (w, some (exit_with (backend x) ∷ []))
  | ok path ↦
      let (w', found) = resolve_safe disk e w sid path in
      (
        w',
        elim found [
          | err x ↦ some (exit_with (backend x) ∷ [])
          | ok resolved ↦ elim (open_file w' resolved) [
            | err x ↦ some (exit_with (backend (os x)) ∷ [])
            | ok h ↦ elim (disk.is_dir w' resolved) [
              | err x ↦ some (exit_with (backend (os x)) ∷ [])
              | ok true ↦ some (exit_with (backend (is_directory path)) ∷ [])
              | ok false ↦ read_loop read done (suc (read_cap args limit)) 0 (read_cap args limit) h
            ]
          ]
        ],
      )
]

tail_Sends :
    {E H : Type 0} (read : Reader H E) (done : ℕ → Bool) (args : Fields) (limit : ℤ) (path : Text)
    (opened : Result E H) (dir : Result E Bool)
    → IsReader read
    → Sends
        (elim opened as (λ x. Option (List (ExecChunk (Fault E)))) [
          | err x ↦ some (exit_with (backend (os x)) ∷ [])
          | ok h ↦ elim dir [
            | err x ↦ some (exit_with (backend (os x)) ∷ [])
            | ok true ↦ some (exit_with (backend (is_directory path)) ∷ [])
            | ok false ↦ read_loop read done (suc (read_cap args limit)) 0 (read_cap args limit) h
          ]
        ])
        hard_read_file_max_bytes
tail_Sends read done args limit path (err x) dir r =
    only_exit (exit_with (backend (os x))) _ refl refl
tail_Sends read done args limit path (ok h) (err x) r =
    only_exit (exit_with (backend (os x))) _ refl refl
tail_Sends read done args limit path (ok h) (ok true) r =
    only_exit (exit_with (backend (is_directory path))) _ refl refl
tail_Sends read done args limit path (ok h) (ok false) r =
    let cap = read_cap args limit in
    let s = read_loop-Sends read done (suc cap) 0 cap h r (omega arith) in
    record {
      out = s.out;
      last = s.last;
      made = s.made;
      ends_once = s.ends_once;
      within = omega (arith, s.within, (read_cap_bounds args limit).1);
    }

-- read_file always answers: whatever its arguments, limits and file, its channel ends with exactly one exit
-- chunk, and carries 4 MiB at most; over any reader that keeps to io.Reader.
pub run_read_file-Sends :
    {W E H : Type 0} (disk : Disk W E) (open_file : W → Text → Result E H) (read : Reader H E)
    (e : Engine) (done : ℕ → Bool) (w : W) (sid : Text) (args : Fields) (limit : ℤ)
    → IsReader read
    → Sends (run_read_file disk open_file read e done w sid args limit).1 hard_read_file_max_bytes
unfolding run_read_file
run_read_file-Sends {E = E} disk open_file read e done w sid args limit r =
    elim (Result-cases (arg_string {E = E} args (lit "path"))) [
      | inr (x, f) ↦ rw (run_read_file, f) (only_exit (exit_with (backend x)) _ refl refl)
      | inl (path, f) ↦ elim (Result-cases (resolve_safe disk e w sid path).1) [
        | inr (x, g) ↦ rw (run_read_file, f, g) (only_exit (exit_with (backend x)) _ refl refl)
        | inl (resolved, g) ↦
            rw (run_read_file, f, g)
              (tail_Sends read done args limit path
                (open_file (resolve_safe disk e w sid path).0 resolved)
                (disk.is_dir (resolve_safe disk e w sid path).0 resolved) r)
      ]
    ]
