-- ===== src/Fsops/Sessions.antt =====
-- Lemmas about sanitizeSID of internal/fsops/engine.go.
use nomad_dev.Base.{
  ℕ, suc, ◌≤◌, ◌≡◌, ◌≢◌, refl, sym, ap, subst, ◌∙◌, inl, inr, true, false, ◌&&◌, ◌||◌, [], ◌∷◌,
  ◌++◌, append_assoc, append-nil, All, IsNameByte, ◌+◌, reverse, reverse-reverse, reverse-cons,
  arith, Text, has_byte, dot, dotdot, IsPlain, length, ltb, ◌==◌, Bool-cases,
}
use nomad_dev.Fsops.{is_name_byte, sanitize_byte, sanitize_loop, sanitize_sid}

has_byte-append : (c : ℕ) (s t : Text) → has_byte c (s ++ t) ≡ has_byte c s || has_byte c t
has_byte-append c [] t = refl
has_byte-append c (b ∷ s) t = ground (arith, has_byte-append c s t)

has_byte-reverse : (c : ℕ) (s : Text) → has_byte c (reverse s) ≡ has_byte c s
has_byte-reverse c [] = refl
has_byte-reverse c (b ∷ s) =
    rw (reverse-cons b s, has_byte-append) (ground (arith, has_byte-reverse c s))

-- What holds of the kept bytes: no slash among them, and the last two are not both dots.
abbrev Apart : Text → Type 0
Apart [] = Unit {0}
Apart (a ∷ []) = Unit {0}
Apart (a ∷ b ∷ kept) = ((a == b'.') && (b == b'.')) ≡ false

record IsKept (kept : Text) : Type 0 where
  no_slash : has_byte b'/' kept ≡ false
  apart : Apart kept

sanitize_byte-IsKept : (c : ℕ) (kept : Text) → IsKept kept → IsKept (sanitize_byte c kept)
unfolding sanitize_byte
sanitize_byte-IsKept c [] k = ground arith
sanitize_byte-IsKept c (b ∷ bs) k = ground (arith, k.no_slash)

sanitize_loop-IsKept : (sid kept : Text) → IsKept kept → IsKept (sanitize_loop sid kept)
unfolding sanitize_loop
sanitize_loop-IsKept [] kept k = k
sanitize_loop-IsKept (c ∷ sid) kept k = elim (Bool-cases (ltb (length kept) 64)) [
  | inl e ↦ rw e (sanitize_loop-IsKept sid (sanitize_byte c kept) (sanitize_byte-IsKept c kept k))
  | inr e ↦ rw e k
]

length-sanitize_byte : (c : ℕ) (kept : Text) → length (sanitize_byte c kept) ≡ suc (length kept)
unfolding sanitize_byte
length-sanitize_byte c [] = ground arith
length-sanitize_byte c (b ∷ bs) = ground arith

length-sanitize_loop :
    (sid kept : Text)
    → (length kept ≤ length (sanitize_loop sid kept))
      × (length kept ≤ 64 → length (sanitize_loop sid kept) ≤ 64)
unfolding sanitize_loop
length-sanitize_loop [] kept = (omega arith, λ h. h)
length-sanitize_loop (c ∷ sid) kept = elim (Bool-cases (ltb (length kept) 64)) [
  | inl e ↦
      let (lo, hi) = length-sanitize_loop sid (sanitize_byte c kept) in
      let n = length-sanitize_byte c kept in
      rw e (omega (arith, lo, n), λ h. hi (ground (arith, n, e)))
  | inr e ↦ rw e (omega arith, λ h. h)
]

reverse-eq : (s t : Text) → reverse s ≡ t → s ≡ reverse t
reverse-eq s t e = sym (reverse-reverse s) ∙ ap reverse e

-- The loop over an id that is not empty, by the length of the id.
kept-ne-dot : (sid : Text) → sid ≢ [] → sid ≢ dot → sanitize_loop sid [] ≢ dot
unfolding sanitize_loop sanitize_byte
kept-ne-dot [] n d e = n refl
kept-ne-dot (c ∷ []) n d e = d (ground (arith, e))
kept-ne-dot (c ∷ b ∷ sid) n d e = omega (
  arith,
  ap length e,
  (length-sanitize_loop sid (sanitize_byte b (sanitize_byte c []))).0,
  length-sanitize_byte b (sanitize_byte c []),
  length-sanitize_byte c [],
)

kept-ne-nil : (sid : Text) → sid ≢ [] → sanitize_loop sid [] ≢ []
unfolding sanitize_loop
kept-ne-nil [] n e = n refl
kept-ne-nil (c ∷ sid) n e = omega (
  arith,
  ap length e,
  (length-sanitize_loop sid (sanitize_byte c [])).0,
  length-sanitize_byte c [],
)

true-≢-false : true ≢ false
true-≢-false e = cc

not_apart : (kept : Text) → kept ≡ dotdot → ¬ IsKept kept
not_apart kept e k = absurd (true-≢-false (subst Apart e k.apart))

length-append_one : (s : Text) (c : ℕ) → length (s ++ c ∷ []) ≡ suc (length s)
length-append_one [] c = refl
length-append_one (b ∷ s) c = ap suc (length-append_one s c)

length-reverse : (s : Text) → length (reverse s) ≡ length s
length-reverse [] = refl
length-reverse (b ∷ s) =
    rw (reverse-cons b s) (length-append_one (reverse s) b ∙ ap suc (length-reverse s))

-- For every id but the empty one and "." the sanitized name is a plain path element, of 64 bytes at most: the
-- directory of that name is directly below the root. Several ids may have the same one.
pub sanitize_sid-IsPlain :
    (sid : Text)
    → sid ≢ []
    → sid ≢ dot
    → IsPlain (sanitize_sid sid) × (length (sanitize_sid sid) ≤ 64)
unfolding sanitize_sid
sanitize_sid-IsPlain sid n d =
    let kept = sanitize_loop sid [] in
    let k : IsKept kept = sanitize_loop-IsKept sid [] (record { no_slash = refl; apart = tt }) in
    (
      (
        λ e. kept-ne-nil sid n (reverse-eq kept [] e),
        λ e. kept-ne-dot sid n d (reverse-eq kept dot e),
        λ e. not_apart kept (reverse-eq kept dotdot e) k,
        has_byte-reverse b'/' kept ∙ k.no_slash,
      ),
      omega (arith, length-reverse kept, (length-sanitize_loop sid []).1 (omega arith)),
    )

-- No two dots in a row.
abbrev pub NoDots : Text → Type 0
NoDots [] = Unit {0}
NoDots (a ∷ []) = Unit {0}
NoDots (a ∷ b ∷ s) = (((a == b'.') && (b == b'.')) ≡ false) × NoDots (b ∷ s)

-- Kept bytes, the last one first, and the rest of the id do not meet in two dots.
abbrev Meets : Text → Text → Type 0
Meets (b ∷ kept) (c ∷ sid) = ((c == b'.') && (b == b'.')) ≡ false
Meets [] sid = Unit {0}
Meets (b ∷ kept) [] = Unit {0}

-- An id that may be used as it stands: name bytes, at most 64, with no two dots in a row.
pub record IsName (sid : Text) : Type 0 where
  pub name_bytes : All IsNameByte sid
  pub no_dots : NoDots sid
  pub short : length sid ≤ 64

name_byte : (c : ℕ) → IsNameByte c → is_name_byte c ≡ true
name_byte c h = ground arith

sanitize_byte-same :
    (c : ℕ) (kept sid : Text)
    → IsNameByte c
    → Meets kept (c ∷ sid)
    → sanitize_byte c kept ≡ c ∷ kept
unfolding sanitize_byte
sanitize_byte-same c [] sid n m = rw (name_byte c n) refl
sanitize_byte-same c (b ∷ kept) sid n m = rw (name_byte c n, m) refl

NoDots-Meets : (c : ℕ) (kept sid : Text) → NoDots (c ∷ sid) → Meets (c ∷ kept) sid × NoDots sid
NoDots-Meets c kept [] d = (tt, tt)
NoDots-Meets c kept (b ∷ sid) d = (ground (arith, d.0), d.1)

sanitize_loop-same :
    (sid kept : Text)
    → All IsNameByte sid
    → NoDots sid
    → Meets kept sid
    → length sid + length kept ≤ 64
    → sanitize_loop sid kept ≡ reverse sid ++ kept
unfolding sanitize_loop
sanitize_loop-same [] kept n d m le = refl
sanitize_loop-same (c ∷ sid) kept n d m le =
    let room : ltb (length kept) 64 ≡ true = ground arith in
    let (meets, rest) = NoDots-Meets c kept sid d in
    rw (room, sanitize_byte-same c kept sid n.0 m)
      (sanitize_loop-same sid (c ∷ kept) n.1 rest meets (omega (arith, le))
        ∙ sym (ap (λ t. t ++ kept) (reverse-cons c sid) ∙ append_assoc (reverse sid) (c ∷ []) kept))

sanitize_sid-same : (sid : Text) → IsName sid → sanitize_sid sid ≡ sid
unfolding sanitize_sid
sanitize_sid-same sid h =
    ap reverse (
      sanitize_loop-same sid [] h.name_bytes h.no_dots tt (omega (arith, h.short))
      ∙ append-nil (reverse sid))
    ∙ reverse-reverse sid

-- Two different ids of name bytes, of at most 64 bytes each and with no two dots in a row, have different sanitized
-- names.
pub sanitize_sid-distinct :
    (sid other : Text)
    → IsName sid
    → IsName other
    → sid ≢ other
    → sanitize_sid sid ≢ sanitize_sid other
sanitize_sid-distinct sid other h k apart e =
    apart (sym (sanitize_sid-same sid h) ∙ e ∙ sanitize_sid-same other k)
