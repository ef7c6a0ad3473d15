-- ===== src/Fsops/Edit/Unique.antt =====
-- Lemmas about the edit of computeApplyCodePatch in internal/fsops/run.go.
use nomad_dev.Base.{
  ℕ, ◌+◌, ◌≤◌, ◌≡◌, refl, sym, ap, subst, ◌∙◌, [], ◌∷◌, ◌++◌, none, some, arith, Text, has_prefix,
  has_prefix→append, length, take, drop-add, take-length-append, drop-length-append, append_assoc,
  ok-injective, ltb, ok, err-≢-ok, Bool-cases, Option-cases, inl, inr,
}
use nomad_dev.Fsops.Edit.{count_from, index_of, newlines, replaced, Plan, plan_edit}

count_from-skip : (sub p r : Text) → count_from sub (length p) (p ++ r) ≡ count_from sub 0 r
unfolding count_from
count_from-skip sub [] r = refl
count_from-skip sub (b ∷ p) r = count_from-skip sub p r

count_from-zero :
    (a : ℕ) (sub s : Text) → count_from (a ∷ sub) 0 s ≡ 0 → index_of s (a ∷ sub) ≡ none
unfolding count_from index_of has_prefix
count_from-zero a sub [] h = refl
count_from-zero a sub (b ∷ s) h = ground (arith, count_from-zero a sub s)

-- What a count of 1 means: the text has the anchor, no match begins before it, and none behind its end.
pub record Occurs (sub s : Text) : Type 0 where
  pub front : Text
  pub back : Text
  pub whole : s ≡ front ++ (sub ++ back)
  pub first : index_of s sub ≡ some (length front)
  pub none_behind : index_of back sub ≡ none

pub count_from-Occurs : (a : ℕ) (sub s : Text) → count_from (a ∷ sub) 0 s ≡ 1 → Occurs (a ∷ sub) s
unfolding count_from index_of
count_from-Occurs a sub [] h = absurd (omega (arith, h))
count_from-Occurs a sub (b ∷ s) h = elim (Bool-cases (has_prefix (b ∷ s) (a ∷ sub))) [
  | inl e ↦
      let (r, whole) = has_prefix→append (b ∷ s) (a ∷ sub) e in
      let tail : s ≡ sub ++ r = cc whole in
      let rest : count_from (a ∷ sub) (length sub) s ≡ 0 = ground (arith, h, e) in
      let behind : count_from (a ∷ sub) 0 r ≡ 0 =
        sym (count_from-skip (a ∷ sub) sub r)
        ∙ (ap (count_from (a ∷ sub) (length sub)) (sym tail) ∙ rest) in
      record {
        front = [];
        back = r;
        whole = whole;
        first = rw e refl;
        none_behind = count_from-zero a sub r behind;
      }
  | inr e ↦
      let w = count_from-Occurs a sub s (ground (arith, h, e)) in
      record {
        front = b ∷ w.front;
        back = w.back;
        whole = ap (λ x. b ∷ x) w.whole;
        first = rw (e, w.first) refl;
        none_behind = w.none_behind;
      }
]

replaced_lem :
    (front sub back replace : Text)
    → replaced (front ++ (sub ++ back)) (length front) (length sub) replace
      ≡ front ++ (replace ++ back)
replaced_lem front sub back replace =
    rw
      (
        take-length-append front (sub ++ back),
        drop-add (length front) (length sub) (front ++ (sub ++ back)),
        drop-length-append front (sub ++ back),
        drop-length-append sub back,
      )
      (append_assoc front replace back)

one_match :
    {E : Type 0} (path resolved content search replace : Text) (max_bytes : ℕ) (plan : Plan)
    → plan_edit {E = E} path resolved content search replace max_bytes ≡ ok plan
    → count_from search 0 content ≡ 1
unfolding plan_edit
one_match path resolved content search replace max_bytes plan h = ground arith

pub plan_edit-original :
    {E : Type 0} (path resolved content search replace : Text) (max_bytes : ℕ) (plan : Plan)
    → plan_edit {E = E} path resolved content search replace max_bytes ≡ ok plan
    → (plan.original ≡ content) × (plan.resolved ≡ resolved)
unfolding plan_edit
plan_edit-original path resolved content search replace max_bytes plan h =
    let one = one_match path resolved content search replace max_bytes plan h in
    elim (Option-cases (index_of content search)) [
      | inl f ↦ absurd (err-≢-ok (rw (plan_edit, one, f) at h))
      | inr (idx, f) ↦
          elim (Bool-cases
            (ltb max_bytes (length (replaced content idx (length search) replace)))) [
              | inl g ↦ absurd (err-≢-ok (rw (plan_edit, one, f, g) at h))
              | inr g ↦
                  let e = ok-injective (rw (plan_edit, one, f, g) at h) in
                  (sym (ap (λ x. x.original) e), sym (ap (λ x. x.resolved) e))
            ]
    ]

-- A nonempty anchor, as argString gives it. The edit that is planned replaces the anchor at its only
-- place: what stands before and behind it stays, no match begins before it, and none behind its end. The
-- result is within the limit, the line number is that of the anchor, and the original is kept.
pub plan_edit_lem :
    {E : Type 0} (path resolved content : Text) (a : ℕ) (search replace : Text) (max_bytes : ℕ)
    (plan : Plan)
    → plan_edit {E = E} path resolved content (a ∷ search) replace max_bytes ≡ ok plan
    → (w : Occurs (a ∷ search) content) × (plan.new_content ≡ w.front ++ (replace ++ w.back))
      × (plan.line_number ≡ 1 + newlines w.front)
      × (plan.original ≡ content)
      × (length plan.new_content ≤ max_bytes)
unfolding plan_edit
plan_edit_lem path resolved content a search replace max_bytes plan h =
    let one = one_match path resolved content (a ∷ search) replace max_bytes plan h in
    let w = count_from-Occurs a search content one in
    let new_content = replaced content (length w.front) (length (a ∷ search)) replace in
    let made = rw (plan_edit, one, w.first) at h in
    let same : new_content ≡ w.front ++ (replace ++ w.back) =
      ap (λ x. replaced x (length w.front) (length (a ∷ search)) replace) w.whole
      ∙ replaced_lem w.front (a ∷ search) w.back replace in
    let front : take (length w.front) content ≡ w.front =
      ap (take (length w.front)) w.whole ∙ take-length-append w.front _ in
    elim (Bool-cases (ltb max_bytes (length new_content))) [
      | inl g ↦ absurd (err-≢-ok (rw g at made))
      | inr g ↦
          let e = ok-injective (rw g at made) in
          (
            w,
            sym (ap (λ x. x.new_content) e) ∙ same,
            sym (ap (λ x. x.line_number) e) ∙ ap (λ x. 1 + newlines x) front,
            sym (ap (λ x. x.original) e),
            subst (λ x. length x ≤ max_bytes) (ap (λ x. x.new_content) e) (ground (arith, g)),
          )
    ]
