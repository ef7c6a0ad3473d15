-- ===== src/Auth/Revocation.antt =====
-- MemoryRevocationList of internal/auth/revocation.go. An expiry is an instant, or none for the zero
-- time; contexts and errors are left out, since the list in memory uses neither.
use nomad_dev.Base.{
  ℕ, ◌-◌, ◌≡◌, ◌≢◌, Bool, true, false, not, List, [], ◌∷◌, Option, none, some, arith, Text, text_eq,
  text_eq_iff, lookup, insert, keep_values, lookup-insert, lookup-keep_values,
  keep_values-NodupKeys, insert-NodupKeys, NodupKeys, ltb, leb, ◌≤◌, refl, if◌then◌else◌, length,
  inl, inr, Bool-cases,
}

abbrev pub Revoked : Type 0
Revoked = List (Text × Option ℕ)

unfoldable pub revoke : Text → Option ℕ → Revoked → Revoked
revoke jti exp m = if text_eq jti [] then m else insert jti exp m

unfoldable pub is_revoked : Text → Revoked → Bool
is_revoked jti m =
    if text_eq jti [] then false else elim (lookup jti m) [ none ↦ false | some exp ↦ true ]

-- `!exp.IsZero() && now.After(exp)`.
abbrev pub has_passed : ℕ → Option ℕ → Bool
has_passed now none = false
has_passed now (some exp) = ltb exp now

unfoldable pub prune : ℕ → Revoked → Revoked × ℕ
prune now m =
    let kept = keep_values (λ exp. not (has_passed now exp)) m in (kept, length m - length kept)

pub data Op : Type 0 where
  revokes : Text → Option ℕ → Op
  prunes : ℕ → Op

unfoldable pub step : Revoked → Op → Revoked
unfolding revoke prune
step m (revokes jti exp) = revoke jti exp m
step m (prunes now) = (prune now m).0

unfoldable pub run : Revoked → List Op → Revoked
run m [] = m
run m (o ∷ os) = run (step m o) os

-- The operations that leave a revocation with this expiry standing: revocations of other tokens, and
-- prunes up to the instant of the expiry; with the zero expiry, all prunes.
abbrev pub Spares : Text → Option ℕ → Op → Type 0
Spares jti exp (revokes j e) = j ≢ jti
Spares jti none (prunes now) = Unit {0}
Spares jti (some e) (prunes now) = now ≤ e

abbrev pub AllSpare : Text → Option ℕ → List Op → Type 0
AllSpare jti exp [] = Unit {0}
AllSpare jti exp (o ∷ os) = Spares jti exp o × AllSpare jti exp os

step-NodupKeys : (m : Revoked) (o : Op) → NodupKeys m → NodupKeys (step m o)
unfolding step
step-NodupKeys m (revokes jti exp) n = elim (Bool-cases (text_eq jti [])) [
  | inl e ↦ rw e n
  | inr e ↦ rw e (insert-NodupKeys jti exp m n)
]
step-NodupKeys m (prunes now) n = keep_values-NodupKeys _ m n

step-spared :
    (m : Revoked) (o : Op) (jti : Text) (exp : Option ℕ)
    → NodupKeys m
    → lookup jti m ≡ some exp
    → Spares jti exp o
    → lookup jti (step m o) ≡ some exp
unfolding step
step-spared m (revokes j e) jti exp n h s =
    ground (arith, lookup-insert j jti e m, text_eq_iff j jti)
step-spared m (prunes now) jti none n h s =
    ground (arith, lookup-keep_values (λ x. not (has_passed now x)) jti m n)
step-spared m (prunes now) jti (some e) n h s =
    ground (arith, lookup-keep_values (λ x. not (has_passed now x)) jti m n)

run-spared :
    (m : Revoked) (os : List Op) (jti : Text) (exp : Option ℕ)
    → NodupKeys m
    → lookup jti m ≡ some exp
    → AllSpare jti exp os
    → lookup jti (run m os) ≡ some exp
unfolding run
run-spared m [] jti exp n h s = h
run-spared m (o ∷ os) jti exp n h s =
    run-spared (step m o) os jti exp (step-NodupKeys m o n) (step-spared m o jti exp n h s.0) s.1

run-NodupKeys : (m : Revoked) (os : List Op) → NodupKeys m → NodupKeys (run m os)
unfolding run
run-NodupKeys m [] n = n
run-NodupKeys m (o ∷ os) n = run-NodupKeys (step m o) os (step-NodupKeys m o n)

-- What is_revoked finds behind a prune, of a token that is in the list.
pruned :
    (m : Revoked) (now : ℕ) (jti : Text) (exp : Option ℕ)
    → NodupKeys m
    → lookup jti m ≡ some exp
    → (elim (lookup jti (keep_values (λ x. not (has_passed now x)) m)) [
      | none ↦ false
      | some x ↦ true
    ])
      ≡ elim exp [ none ↦ true | some e ↦ leb now e ]
pruned m now jti none n h = ground (arith, lookup-keep_values (λ x. not (has_passed now x)) jti m n)
pruned m now jti (some e) n h =
    ground (arith, lookup-keep_values (λ x. not (has_passed now x)) jti m n)

-- A token that was revoked stays so through any revocations of other tokens and any prunes up to its expiry, or any
-- prunes at all with the zero expiry; and a prune behind them lets it through exactly if it comes after the expiry.
pub revoke-run :
    (m : Revoked) (os : List Op) (jti : Text) (exp : Option ℕ) (now : ℕ)
    → NodupKeys m
    → jti ≢ []
    → AllSpare jti exp os
    → let r = run (revoke jti exp m) os in
      (is_revoked jti r ≡ true)
      × (is_revoked jti (prune now r).0 ≡ elim exp [ none ↦ true | some e ↦ leb now e ])
unfolding revoke is_revoked prune
revoke-run m os jti exp now n named s =
    let name : text_eq jti [] ≡ false = ground (arith, text_eq_iff jti []) in
    let there : lookup jti (insert jti exp m) ≡ some exp =
      ground (arith, lookup-insert jti jti exp m, text_eq_iff jti jti) in
    let r = run (insert jti exp m) os in
    let distinct = insert-NodupKeys jti exp m n in
    let still = run-spared (insert jti exp m) os jti exp distinct there s in
    (
      rw (name, still) refl,
      rw (name, pruned r now jti exp (run-NodupKeys (insert jti exp m) os distinct) still) refl,
    )
