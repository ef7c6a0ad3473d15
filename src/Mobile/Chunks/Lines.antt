-- ===== src/Mobile/Chunks/Lines.antt =====
-- Lemmas about the splitting into lines of MergeChunkIntoToolCall in internal/mobile/state/ingest.go.
use nomad_dev.Base.{
  ℕ, zero, suc, ◌+◌, ◌-◌, ◌≤◌, ◌≡◌, refl, ap, ◌∙◌, sym, false, List, [], ◌∷◌, ◌++◌, append_assoc,
  append-nil, arith, Text, split, ltb, if◌then◌else◌, length, length-append, length-drop, drop,
  ◌==◌, Bool-cases, inl, inr, cons_head, ◌≢◌,
}
use nomad_dev.Mobile.State.{TerminalLine, terminal_line_cap}
use nomad_dev.Mobile.Chunks.{cut_last, number_lines, keep_last, add_lines}

-- The completed lines and the fragment behind them, directly.
abbrev pub add_byte : ℕ → List Text × Text → List Text × Text
add_byte b ([], part) = ([], b ∷ part)
add_byte b (w ∷ ws, part) = ((b ∷ w) ∷ ws, part)

unfoldable pub lines_of : Text → List Text × Text
lines_of [] = ([], [])
lines_of (b ∷ s) =
    let rest = lines_of s in if b == b'\n' then ([] ∷ rest.0, rest.1) else add_byte b rest

split-ne : (c : ℕ) (s : Text) → split c s ≢ []
unfolding split
split-ne c [] = λ e. cc
split-ne c (b ∷ s) = ground (arith, split-ne c s)

cut_last-cons :
    (w : Text) (ws : List Text)
    → ws ≢ []
    → cut_last (w ∷ ws) ≡ (w ∷ (cut_last ws).0, (cut_last ws).1)
cut_last-cons w [] h = absurd (h refl)
cut_last-cons w (v ∷ ws) h = refl

cut_last-cons_head :
    (b : ℕ) (ws : List Text) → ws ≢ [] → cut_last (cons_head b ws) ≡ add_byte b (cut_last ws)
cut_last-cons_head b [] h = absurd (h refl)
cut_last-cons_head b (w ∷ []) h = refl
cut_last-cons_head b (w ∷ v ∷ ws) h = refl

-- What the code computes by strings.Split.
pub cut_last-split : (s : Text) → cut_last (split b'\n' s) ≡ lines_of s
unfolding split lines_of
cut_last-split [] = refl
cut_last-split (b ∷ s) = ground (
  arith,
  cut_last-split s,
  cut_last-cons [] (split b'\n' s) (split-ne b'\n' s),
  cut_last-cons_head b (split b'\n' s) (split-ne b'\n' s),
)

abbrev pub glue : List Text × Text → Text → List Text × Text
glue r t = let more = lines_of (r.1 ++ t) in (r.0 ++ more.0, more.1)

glue-add_byte :
    (b : ℕ) (r : List Text × Text) (t : Text)
    → (b == b'\n') ≡ false
    → glue (add_byte b r) t ≡ add_byte b (glue r t)
unfolding lines_of
glue-add_byte b ([], part) t h = rw h
glue-add_byte b (w ∷ ws, part) t h = refl

-- A text that arrives in two pieces gives the lines of the whole.
pub lines_of-append : (s t : Text) → lines_of (s ++ t) ≡ glue (lines_of s) t
unfolding lines_of
lines_of-append [] t = refl
lines_of-append (b ∷ s) t = elim (Bool-cases (b == b'\n')) [
  | inl e ↦ rw e (ap (λ (r : List Text × Text). ([] ∷ r.0, r.1)) (lines_of-append s t))
  | inr e ↦ rw e (ap (add_byte b) (lines_of-append s t) ∙ sym (glue-add_byte b (lines_of s) t e))
]

module _ (stream : Text) where
  pub number_lines-append :
      (n : ℕ) (xs ys : List Text)
      → number_lines stream n (xs ++ ys)
        ≡ number_lines stream n xs ++ number_lines stream (n + length xs) ys
  unfolding number_lines
  number_lines-append n [] ys =
      let e : n ≡ n + 0 = omega arith in ap (λ k. number_lines stream k ys) e
  number_lines-append n (x ∷ xs) ys =
      let e : suc n + length xs ≡ n + suc (length xs) = omega arith in
      rw (← e) (
        ap (◌∷◌ (record { stream = stream; text = x; seq = n }))
          (number_lines-append (suc n) xs ys))

  pub length-number_lines : (n : ℕ) (xs : List Text) → length (number_lines stream n xs) ≡ length xs
  unfolding number_lines
  length-number_lines n [] = refl
  length-number_lines n (x ∷ xs) = ap suc (length-number_lines (suc n) xs)

drop-nil : (m : ℕ) → drop {A = TerminalLine} m [] ≡ []
drop-nil zero = refl
drop-nil (suc m) = refl

-- Dropping in two steps.
drop-drop : (m n : ℕ) (xs : List TerminalLine) → drop m (drop n xs) ≡ drop (n + m) xs
drop-drop m zero xs = let e : m ≡ 0 + m = omega arith in ap (λ k. drop k xs) e
drop-drop m (suc n) [] = drop-nil m ∙ sym (drop-nil (suc n + m))
drop-drop m (suc n) (x ∷ xs) =
    let e : suc n + m ≡ suc (n + m) = omega arith in rw e (drop-drop m n xs)

drop-append :
    (n : ℕ) (xs ys : List TerminalLine) → n ≤ length xs → drop n (xs ++ ys) ≡ drop n xs ++ ys
drop-append zero xs ys h = refl
drop-append (suc n) [] ys h = absurd (omega arith)
drop-append (suc n) (x ∷ xs) ys h = drop-append n xs ys (omega arith)

-- `keep_last` without its test.
keep_last_lem : (xs : List TerminalLine) → keep_last xs ≡ drop (length xs - terminal_line_cap) xs
keep_last_lem xs = elim (Bool-cases (ltb terminal_line_cap (length xs))) [
  | inl e ↦ rw e
  | inr e ↦ let z : length xs - terminal_line_cap ≡ 0 = ground arith in rw (e, z)
]

pub length-keep_last : (xs : List TerminalLine) → length (keep_last xs) ≤ terminal_line_cap
length-keep_last xs =
    rw (keep_last_lem xs) (omega (arith, length-drop (length xs - terminal_line_cap) xs))

pub keep_last-keep_last :
    (xs ys : List TerminalLine) → keep_last (keep_last xs ++ ys) ≡ keep_last (xs ++ ys)
keep_last-keep_last xs ys =
    let n = length xs - terminal_line_cap in
    let joined : keep_last xs ++ ys ≡ drop n (xs ++ ys) =
      ap (λ l. l ++ ys) (keep_last_lem xs) ∙ sym (drop-append n xs ys (omega arith)) in
    let sum : n + (length (drop n (xs ++ ys)) - terminal_line_cap)
        ≡ length (xs ++ ys) - terminal_line_cap =
      omega (arith, length-drop n (xs ++ ys), length-append xs ys) in
    ap keep_last joined
    ∙ keep_last_lem (drop n (xs ++ ys))
    ∙ drop-drop _ n (xs ++ ys)
    ∙ ap (λ k. drop k (xs ++ ys)) sum
    ∙ sym (keep_last_lem (xs ++ ys))

-- Adding lines in two rounds, each of which rolls the oldest off, is adding them in one.
pub add_lines-add_lines :
    (xs ys zs : List TerminalLine) → add_lines (add_lines xs ys) zs ≡ add_lines xs (ys ++ zs)
add_lines-add_lines xs [] zs = refl
add_lines-add_lines xs (y ∷ ys) [] = ap (λ l. keep_last (xs ++ l)) (sym (append-nil (y ∷ ys)))
add_lines-add_lines xs (y ∷ ys) (z ∷ zs) =
    keep_last-keep_last (xs ++ (y ∷ ys)) (z ∷ zs) ∙ ap keep_last (append_assoc xs (y ∷ ys) (z ∷ zs))
