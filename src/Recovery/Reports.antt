-- ===== src/Recovery/Reports.antt =====
-- Lemmas about truncStderr of internal/middleware/recovery.go.
use nomad_dev.Base.{
  zero, suc, ◌⊎◌, ◌∷◌, ℕ, ◌-◌, ◌≤◌, ◌≡◌, refl, sym, ◌||◌, List, [], ◌++◌, arith, Text, length, drop,
  length-drop, length-append, leb, leb→le, ◌==◌, Bool-cases, inl, inr, ℤ, pos, negsuc,
  at_least_zero,
}
use nomad_dev.Recovery.{marker, trunc_stderr}

drop-all : {A : Type 0} (n : ℕ) (xs : List A) → length xs ≤ n → drop n xs ≡ []
drop-all zero [] h = refl
drop-all zero (x ∷ xs) h = absurd (omega (arith, h))
drop-all (suc n) [] h = refl
drop-all (suc n) (x ∷ xs) h = drop-all n xs (omega (arith, h))

-- The reported stderr is never longer than the limit, a limit below 1 included, and it is a tail of the
-- source, the truncation marker possibly before it.
pub trunc_stderr_lem :
    (src : Text) (limit : ℤ)
    → (length (trunc_stderr src limit) ≤ at_least_zero limit)
      × ((k : ℕ) × (m : Text) × ((m ≡ []) ⊎ (m ≡ marker))
          × (trunc_stderr src limit ≡ m ++ drop k src))
unfolding trunc_stderr
trunc_stderr_lem src (negsuc n) =
    (omega arith, (length src, [], inl refl, sym (drop-all (length src) src (omega arith))))
trunc_stderr_lem src (pos limit) = elim (Bool-cases ((limit == 0) || (length src == 0))) [
  | inl e ↦
      rw e (omega arith, (length src, [], inl refl, sym (drop-all (length src) src (omega arith))))
  | inr e ↦ elim (Bool-cases (leb (length src) limit)) [
    | inl f ↦ rw (e, f) (leb→le (length src) limit f, (0, [], inl refl, refl))
    | inr f ↦ elim (Bool-cases (leb limit (length marker))) [
      | inl g ↦
          let d = length src - limit in
          rw (e, f, g) (ground (arith, f, length-drop d src), (d, [], inl refl, refl))
      | inr g ↦
          let d = length src - (limit - length marker) in
          rw (e, f, g)
            (
              ground (arith, f, g, length-append marker (drop d src), length-drop d src),
              (d, marker, inr refl, refl),
            )
    ]
  ]
]
