-- ===== src/Fsops/Confined.antt =====
-- Lemmas about resolveSafe and withinRoot of internal/fsops/engine.go.
use nomad_dev.Base.{
  ◌≡◌, refl, ◌⊎◌, inl, inr, true, false, [], ◌∷◌, ◌++◌, arith, Text, text_eq, text_eq_iff,
  has_prefix, slash, ok, Bool-cases,
}
use nomad_dev.Fsops.{Disk, within_root, filepath_dir}

-- The root itself, or below it.
abbrev pub Below : Text → Text → Type 0
Below root target = (target ≡ root) ⊎ ((rest : Text) × (target ≡ root ++ slash ++ rest))

no_prefix : (root : Text) → has_prefix [] (root ++ slash) ≡ false
unfolding has_prefix
no_prefix [] = refl
no_prefix (a ∷ root) = refl

has_prefix-Below :
    (root target : Text) → has_prefix (target ++ slash) (root ++ slash) ≡ true → Below root target
unfolding has_prefix
has_prefix-Below [] [] h = inl refl
has_prefix-Below [] (c ∷ target) h = inr (target, ground arith)
has_prefix-Below (a ∷ root) [] h = ground (arith, no_prefix root)
has_prefix-Below (a ∷ root) (c ∷ target) h = elim (has_prefix-Below root target (ground arith)) [
  | inl e ↦ inl (ground (arith, e))
  | inr (rest, e) ↦ inr (rest, ground (arith, e))
]

pub within_root-Below : (root target : Text) → within_root root target ≡ true → Below root target
unfolding within_root
within_root-Below root target h = elim (Bool-cases (text_eq target root)) [
  | inl e ↦ inl ((text_eq_iff target root).0 e)
  | inr e ↦ has_prefix-Below root target (ground arith)
]

-- What a resolved path is: the real path of the candidate, or the candidate itself where nothing is there
-- but its directory is under the root.
pub record IsConfined {W E : Type 0} (disk : Disk W E) (w : W) (root candidate resolved : Text)
    : Type 0 where
  pub place :
      ((disk.eval_symlinks w candidate ≡ ok resolved) × Below root resolved)
      ⊎ ((parent : Text) × (disk.eval_symlinks w (filepath_dir candidate) ≡ ok parent)
          × Below root parent
          × (resolved ≡ candidate))
