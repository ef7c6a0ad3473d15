-- ===== src/Base/Words.antt =====
-- The rest of `strings` that the code uses: Split, Join, Contains, TrimSpace, and decimal numbers.
use Prim.Native.Nat.{ℕ, zero, suc, ◌+◌, ◌/◌, ◌%◌}
use mathlib.Core.Path.{◌≡◌, refl}
use mathlib.Core.Bool.{Bool, false, ◌||◌}
use mathlib.Core.List.{List, [], ◌∷◌, ◌++◌, reverse, map}
use mathlib.Core.Option.{Option, none, some}
use native.Mathlib.Omega.{arith}
use nomad_dev.Base.Tests.{◌==◌, if◌then◌else◌, ltb}
use nomad_dev.Base.Lists.{length, drop, All}
use nomad_dev.Base.Strings.{Text, has_prefix}

abbrev pub has_byte : ℕ → Text → Bool
has_byte c [] = false
has_byte c (b ∷ s) = b == c || has_byte c s

-- `strings.Contains(s, t)`.
unfoldable pub contains : Text → Text → Bool
contains [] t = has_prefix [] t
contains (b ∷ s) t = has_prefix (b ∷ s) t || contains s t

abbrev pub cons_head : ℕ → List Text → List Text
cons_head b [] = (b ∷ []) ∷ []
cons_head b (w ∷ ws) = (b ∷ w) ∷ ws

-- `strings.Split(s, sep)` for a separator of one byte; there is always a last part.
unfoldable pub split : ℕ → Text → List Text
split c [] = [] ∷ []
split c (b ∷ s) = let rest = split c s in if b == c then [] ∷ rest else cons_head b rest

-- `strings.Join(ws, sep)`.
unfoldable pub join : Text → List Text → Text
join sep [] = []
join sep (w ∷ []) = w
join sep (w ∷ v ∷ ws) = w ++ (sep ++ join sep (v ∷ ws))

cons_head-All :
    (c b : ℕ) (ws : List Text)
    → (b == c) ≡ false
    → All (λ w. has_byte c w ≡ false) ws
    → All (λ w. has_byte c w ≡ false) (cons_head b ws)
cons_head-All c b [] h a = ground arith
cons_head-All c b (w ∷ ws) h a = (ground arith, a.1)

-- No part of a split holds the separator.
pub split-All : (c : ℕ) (s : Text) → All (λ w. has_byte c w ≡ false) (split c s)
unfolding split
split-All c [] = (refl, tt)
split-All c (b ∷ s) = ground (arith, split-All c s, cons_head-All c b (split c s))

-- The UTF-8 forms of the white space of unicode.IsSpace.
abbrev pub spaces : List Text
spaces =
    (9 ∷ [])
    ∷ (10 ∷ [])
    ∷ (11 ∷ [])
    ∷ (12 ∷ [])
    ∷ (13 ∷ [])
    ∷ (32 ∷ [])
    ∷ (0xc2 ∷ 0x85 ∷ [])
    ∷ (0xc2 ∷ 0xa0 ∷ [])
    ∷ (0xe1 ∷ 0x9a ∷ 0x80 ∷ [])
    ∷ (0xe2 ∷ 0x80 ∷ 0x80 ∷ [])
    ∷ (0xe2 ∷ 0x80 ∷ 0x81 ∷ [])
    ∷ (0xe2 ∷ 0x80 ∷ 0x82 ∷ [])
    ∷ (0xe2 ∷ 0x80 ∷ 0x83 ∷ [])
    ∷ (0xe2 ∷ 0x80 ∷ 0x84 ∷ [])
    ∷ (0xe2 ∷ 0x80 ∷ 0x85 ∷ [])
    ∷ (0xe2 ∷ 0x80 ∷ 0x86 ∷ [])
    ∷ (0xe2 ∷ 0x80 ∷ 0x87 ∷ [])
    ∷ (0xe2 ∷ 0x80 ∷ 0x88 ∷ [])
    ∷ (0xe2 ∷ 0x80 ∷ 0x89 ∷ [])
    ∷ (0xe2 ∷ 0x80 ∷ 0x8a ∷ [])
    ∷ (0xe2 ∷ 0x80 ∷ 0xa8 ∷ [])
    ∷ (0xe2 ∷ 0x80 ∷ 0xa9 ∷ [])
    ∷ (0xe2 ∷ 0x80 ∷ 0xaf ∷ [])
    ∷ (0xe2 ∷ 0x81 ∷ 0x9f ∷ [])
    ∷ (0xe3 ∷ 0x80 ∷ 0x80 ∷ [])
    ∷ []

-- The rest after the first of `ps` that `s` starts with.
strip_one : List Text → Text → Option Text
strip_one [] s = none
strip_one (p ∷ ps) s = if has_prefix s p then some (drop (length p) s) else strip_one ps s

-- Each round takes a byte or more, so the length of the text is fuel enough.
strip_all : ℕ → List Text → Text → Text
unfolding strip_one
strip_all zero ps s = s
strip_all (suc f) ps s = elim (strip_one ps s) [ none ↦ s | some r ↦ strip_all f ps r ]

-- `strings.TrimSpace(s)`.
unfoldable pub trim_space : Text → Text
unfolding strip_all
trim_space s =
    let left = strip_all (length s) spaces s in
    reverse (strip_all (length left) (map reverse spaces) (reverse left))

decimal_onto : ℕ → ℕ → Text → Text
decimal_onto zero n acc = acc
decimal_onto (suc f) n acc =
    let digit = b'0' + n % 10 in
    let more = decimal_onto f (n / 10) (digit ∷ acc) in if ltb n 10 then digit ∷ acc else more

-- `%d` of a natural number, which has fewer digits than its value plus one.
unfoldable pub decimal : ℕ → Text
unfolding decimal_onto
decimal n = decimal_onto (suc n) n []
