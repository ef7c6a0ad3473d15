-- ===== src/WorkerPool/Scopes.antt =====
-- scopesOverlap and PathInScope of internal/middleware/workerpool.go.
use nomad_dev.Base.{
  ◌≡◌, refl, ◌⊎◌, inl, inr, Bool, true, false, ◌||◌, List, [], ◌∷◌, ◌++◌, Option, none, some, arith,
  Text, text_eq, text_eq_iff, has_prefix, slash, if◌then◌else◌, any_of,
}

-- Equal, or one an ancestor directory of the other.
unfoldable pub paths_conflict : Text → Text → Bool
paths_conflict x y = text_eq x y || (has_prefix y (x ++ slash) || has_prefix x (y ++ slash))

unfoldable pub conflict_with : Text → List Text → Option (Text × Text)
conflict_with x [] = none
conflict_with x (y ∷ ys) = if paths_conflict x y then some (x, y) else conflict_with x ys

unfoldable pub scopes_overlap : List Text → List Text → Option (Text × Text)
scopes_overlap [] b = none
scopes_overlap (x ∷ xs) b = elim (conflict_with x b) [
  | some found ↦ some found
  | none ↦ scopes_overlap xs b
]

-- One round of PathInScope.
unfoldable pub is_under : Text → Text → Bool
is_under p s = text_eq p s || has_prefix p (s ++ slash)

unfoldable pub path_in_scope : Text → List Text → Bool
path_in_scope p scope = any_of (is_under p) scope

-- Two directories of one path are the same or lie on one line.
common_descendant :
    (p x y : Text)
    → has_prefix p (x ++ slash) ≡ true
    → has_prefix p (y ++ slash) ≡ true
    → (x ≡ y) ⊎ ((has_prefix y (x ++ slash) ≡ true) ⊎ (has_prefix x (y ++ slash) ≡ true))
unfolding has_prefix
common_descendant p [] [] hx hy = inl refl
common_descendant [] [] (b ∷ y) hx hy = absurd (cc)
common_descendant (c ∷ p) [] (b ∷ y) hx hy = inr (inl (ground arith))
common_descendant [] (a ∷ x) y hx hy = absurd (cc)
common_descendant (c ∷ p) (a ∷ x) [] hx hy = inr (inr (ground arith))
common_descendant (c ∷ p) (a ∷ x) (b ∷ y) hx hy = ground (arith, common_descendant p x y)

-- A path under two entries makes them conflict.
pub is_under-conflict :
    (p x y : Text) → is_under p x ≡ true → is_under p y ≡ true → paths_conflict x y ≡ true
unfolding is_under paths_conflict
is_under-conflict p x y hx hy =
    ground (arith, text_eq_iff p x, text_eq_iff p y, text_eq_iff x y, common_descendant p x y)

conflict_with-none :
    (p x : Text) (ys : List Text)
    → conflict_with x ys ≡ none
    → is_under p x ≡ true
    → any_of (is_under p) ys ≡ false
unfolding conflict_with
conflict_with-none p x [] h u = refl
conflict_with-none p x (y ∷ ys) h u =
    ground (arith, is_under-conflict p x y u, conflict_with-none p x ys)

-- Where no overlap is reported, no path lies in both scopes: each file has one owner at most.
pub scopes_overlap-none :
    (a b : List Text) (p : Text)
    → scopes_overlap a b ≡ none
    → path_in_scope p a ≡ true
    → path_in_scope p b ≡ false
unfolding scopes_overlap path_in_scope
scopes_overlap-none [] b p h i = absurd (cc)
scopes_overlap-none (x ∷ xs) b p h i =
    ground (arith, conflict_with-none p x b, scopes_overlap-none xs b p)
