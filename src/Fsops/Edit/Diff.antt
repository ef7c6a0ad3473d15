-- ===== src/Fsops/Edit/Diff.antt =====
-- Lemmas about renderUnifiedDiff of internal/fsops/run.go.
use nomad_dev.Base.{
  ℕ, zero, suc, ◌+◌, ◌-◌, ◌≤◌, ◌≡◌, refl, sym, ap, ◌∙◌, List, [], ◌∷◌, ◌++◌, append_assoc, arith,
  Text, split, cons_head, length, take, drop, length-drop, length-take, take-add,
  take-length-append, drop-length-append, drop-add, take-append-drop, leb, ◌==◌, if◌then◌else◌,
  Bool-cases, inl, inr,
}
use nomad_dev.Fsops.Edit.{newlines, Hunk, clip, hunk_at, hunk_of}

newlines-append : (s t : Text) → newlines (s ++ t) ≡ newlines s + newlines t
unfolding newlines
newlines-append [] t = omega arith
newlines-append (b ∷ s) t = ground (arith, newlines-append s t)

length-cons_head : (b : ℕ) (ws : List Text) → 1 ≤ length ws → length (cons_head b ws) ≡ length ws
length-cons_head b [] h = absurd (omega arith)
length-cons_head b (w ∷ ws) h = refl

length-split : (s : Text) → length (split 10 s) ≡ suc (newlines s)
unfolding split newlines
length-split [] = refl
length-split (b ∷ s) = ground (arith, length-split s, length-cons_head b (split 10 s))

drop-cons_head : (n b : ℕ) (ws : List Text) → drop (suc n) (cons_head b ws) ≡ drop (suc n) ws
drop-cons_head zero b [] = refl
drop-cons_head (suc n) b [] = refl
drop-cons_head n b (w ∷ ws) = refl

-- The lines behind the line in which `p` ends do not depend on `p`.
drop-split : (p t : Text) → drop (suc (newlines p)) (split 10 (p ++ t)) ≡ drop 1 (split 10 t)
unfolding split newlines
drop-split [] t = refl
drop-split (b ∷ p) t = elim (Bool-cases (b == 10)) [
  | inl e ↦ rw e (drop-split p t)
  | inr e ↦ rw e (drop-cons_head (newlines p) b (split 10 (p ++ t)) ∙ drop-split p t)
]

take-cons_head :
    (n b : ℕ) (ws vs : List Text)
    → take (suc n) ws ≡ take (suc n) vs
    → take (suc n) (cons_head b ws) ≡ take (suc n) (cons_head b vs)
take-cons_head n b [] [] h = refl
take-cons_head n b [] (v ∷ vs) h = cc
take-cons_head n b (w ∷ ws) [] h = cc
take-cons_head n b (w ∷ ws) (v ∷ vs) h = cc

-- The lines that `p` completes do not depend on what follows.
take-split :
    (p s t : Text) → take (newlines p) (split 10 (p ++ s)) ≡ take (newlines p) (split 10 (p ++ t))
unfolding split newlines
take-split [] s t = refl
take-split (b ∷ p) s t = elim (Bool-cases (b == 10)) [
  | inl e ↦ rw e (ap (λ x. [] ∷ x) (take-split p s t))
  | inr e ↦ rw e (take-cons_head_any (newlines p) b _ _ (take-split p s t))
]
  where
    take-cons_head_any :
        (n b : ℕ) (ws vs : List Text)
        → take n ws ≡ take n vs
        → take n (cons_head b ws) ≡ take n (cons_head b vs)
    take-cons_head_any zero b ws vs h = refl
    take-cons_head_any (suc n) b ws vs h = take-cons_head n b ws vs h

-- A text of lines, cut at a line `first`, at the line behind the `n` next, and `k` lines on.
cut_lines :
    (xs behind : List Text) (first n k : ℕ)
    → drop (first + n) xs ≡ behind
    → xs ≡ take first xs ++ (take n (drop first xs) ++ (take k behind ++ drop k behind))
cut_lines xs behind first n k h =
    sym (take-append-drop first xs)
    ∙ ap (λ t. take first xs ++ t)
        (sym (take-append-drop n (drop first xs))
          ∙ ap (λ t. take n (drop first xs) ++ t)
              ((sym (drop-add first n xs) ∙ h) ∙ sym (take-append-drop k behind)))

-- What a hunk must be to turn the lines `before` into the lines `after`: both are the hunk's, between the same
-- lines in front of it and the same behind it, and its header counts them.
pub record Turns (h : Hunk) (before after : List Text) : Type 0 where
  pub front : List Text
  pub back : List Text
  pub old : before ≡ front ++ (h.leading ++ (h.removed ++ (h.trailing ++ back)))
  pub new : after ≡ front ++ (h.leading ++ (h.added ++ (h.trailing ++ back)))
  pub starts : (h.before_start ≡ suc (length front)) × (h.after_start ≡ suc (length front))
  pub counts_old : h.before_count ≡ length h.leading + length h.removed + length h.trailing
  pub counts_new : h.after_count ≡ length h.leading + length h.added + length h.trailing

take-lead :
    (start first : ℕ) (xs : List Text)
    → start ≤ first
    → take first xs ≡ take start xs ++ take (first - start) (drop start xs)
take-lead start first xs h =
    let e : start + (first - start) ≡ first = omega (arith, h) in
    sym (ap (λ k. take k xs) e) ∙ take-add start (first - start) xs

module _ (before after behind : List Text) (f n m : ℕ) (same : take f before ≡ take f after)
    (old_rest : drop (f + suc n) before ≡ behind) (new_rest : drop (f + suc m) after ≡ behind)
    (old_length : length before ≡ suc (f + n + length behind))
    (new_length : length after ≡ suc (f + m + length behind)) where
  hunk : Hunk
  hunk = hunk_at before after f (f + n) (f + m)

  -- The number of lines of context behind the edit.
  context : ℕ
  context = if leb (length behind) 3 then length behind else 3

  clip_old : clip (f + n + 3) before ≡ f + n + context
  unfolding context
  clip_old = ground arith

  clip_new : clip (f + m + 3) after ≡ f + m + context
  unfolding context
  clip_new = ground arith

  trailing_lem : hunk.trailing ≡ take context behind
  unfolding hunk hunk_at
  trailing_lem =
      let e : clip (f + m + 3) after + 1 - (f + m + 1) ≡ context = omega (arith, clip_new) in
      let d : f + m + 1 ≡ f + suc m = omega arith in
      ap (λ k. take k (drop (f + m + 1) after)) e
      ∙ ap (take context) (ap (λ k. drop k after) d ∙ new_rest)

  removed_lem : hunk.removed ≡ take (suc n) (drop f before)
  unfolding hunk hunk_at
  removed_lem = let e : f + n + 1 - f ≡ suc n = omega arith in ap (λ k. take k (drop f before)) e

  added_lem : hunk.added ≡ take (suc m) (drop f after)
  unfolding hunk hunk_at
  added_lem = let e : f + m + 1 - f ≡ suc m = omega arith in ap (λ k. take k (drop f after)) e

  leading_lem : take f before ≡ take (f - 3) before ++ hunk.leading
  unfolding hunk hunk_at
  leading_lem = take-lead (f - 3) f before (omega arith)

  context-le : (context ≤ length behind) × (context ≤ 3)
  unfolding context
  context-le = ground arith

  length-leading : length hunk.leading ≡ f - (f - 3)
  unfolding hunk hunk_at
  length-leading =
      length-take (f - (f - 3)) (drop (f - 3) before)
        (omega (arith, length-drop (f - 3) before, old_length))

  length-removed : length hunk.removed ≡ suc n
  length-removed =
      rw removed_lem
        (length-take (suc n) (drop f before) (omega (arith, length-drop f before, old_length)))

  length-added : length hunk.added ≡ suc m
  length-added =
      rw added_lem
        (length-take (suc m) (drop f after) (omega (arith, length-drop f after, new_length)))

  length-trailing : length hunk.trailing ≡ context
  length-trailing = rw trailing_lem (length-take context behind context-le.0)

  before_count_lem : hunk.before_count ≡ f + n + context + 1 - (f - 3)
  unfolding hunk hunk_at
  before_count_lem = omega (arith, clip_old)

  after_count_lem : hunk.after_count ≡ f + m + context + 1 - (f - 3)
  unfolding hunk hunk_at
  after_count_lem = omega (arith, clip_new)

  starts_lem :
      (hunk.before_start ≡ suc (length (take (f - 3) before)))
      × (hunk.after_start ≡ suc (length (take (f - 3) before)))
  unfolding hunk hunk_at
  starts_lem =
      let e = length-take (f - 3) before (omega (arith, old_length)) in
      (omega (arith, e), omega (arith, e))

  hunk_at-Turns : Turns hunk before after × (length hunk.leading ≤ 3) × (length hunk.trailing ≤ 3)
  hunk_at-Turns = (
    record {
      front = take (f - 3) before;
      back = drop context behind;
      old =
          rw (removed_lem, trailing_lem)
            (cut_lines before behind f (suc n) context old_rest
              ∙ ap
                  (λ x.
                    x
                    ++ (take (suc n) (drop f before)
                        ++ (take context behind ++ drop context behind)))
                  leading_lem
              ∙ append_assoc (take (f - 3) before) hunk.leading _);
      new =
          rw (added_lem, trailing_lem)
            (cut_lines after behind f (suc m) context new_rest
              ∙ ap
                  (λ x.
                    x
                    ++ (take (suc m) (drop f after)
                        ++ (take context behind ++ drop context behind)))
                  (sym same ∙ leading_lem)
              ∙ append_assoc (take (f - 3) before) hunk.leading _);
      starts = starts_lem;
      counts_old = omega (arith, before_count_lem, length-leading, length-removed, length-trailing);
      counts_new = omega (arith, after_count_lem, length-leading, length-added, length-trailing);
    },
    omega (arith, length-leading),
    omega (arith, length-trailing, context-le.1),
  )

-- The first `length p + length s` bytes.
take_both : (p s t : Text) → take (length p + length s) (p ++ (s ++ t)) ≡ p ++ s
take_both p s t = rw (
  take-add (length p) (length s) (p ++ (s ++ t)),
  take-length-append p (s ++ t),
  drop-length-append p (s ++ t),
  take-length-append s t,
)

rest_lines :
    (p s t : Text)
    → (drop (newlines p + suc (newlines s)) (split 10 (p ++ (s ++ t))) ≡ drop 1 (split 10 t))
      × (length (split 10 (p ++ (s ++ t)))
          ≡ suc (newlines p + newlines s + length (drop 1 (split 10 t))))
rest_lines p s t =
    let e : newlines p + suc (newlines s) ≡ suc (newlines (p ++ s)) =
      omega (arith, newlines-append p s) in
    (
      ap (λ k. drop k (split 10 (p ++ (s ++ t)))) e
          ∙ ap (λ x. drop (suc (newlines (p ++ s))) (split 10 x)) (sym (append_assoc p s t))
          ∙ drop-split (p ++ s) t,
      omega (
        arith,
        length-split (p ++ (s ++ t)),
        newlines-append p (s ++ t),
        newlines-append s t,
        length-split t,
        length-drop 1 (split 10 t),
      ),
    )

-- For an edit that replaces `s` between `p` and `t` by `r`, the hunk turns the lines of the file into those
-- of the edited file; with three lines of context at most on each side.
pub hunk_of-Turns :
    (p s r t : Text)
    → let h = hunk_of (p ++ (s ++ t)) (p ++ (r ++ t)) (length p) (length s) (length r) in
      Turns h (split 10 (p ++ (s ++ t))) (split 10 (p ++ (r ++ t)))
      × (length h.leading ≤ 3)
      × (length h.trailing ≤ 3)
unfolding hunk_of hunk
hunk_of-Turns p s r t =
    rw
      (
        take-length-append p (s ++ t),
        take_both p s t,
        take_both p r t,
        newlines-append p s,
        newlines-append p r,
      )
      (hunk_at-Turns (split 10 (p ++ (s ++ t))) (split 10 (p ++ (r ++ t))) (drop 1 (split 10 t))
        (newlines p) (newlines s) (newlines r) (take-split p (s ++ t) (r ++ t)) (rest_lines p s t).0
        (rest_lines p r t).0 (rest_lines p s t).1 (rest_lines p r t).1)
