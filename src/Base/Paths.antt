-- ===== src/Base/Paths.antt =====
-- `path.Clean` of Go's library, and what it makes of a relative path.
use mathlib.Core.Path.{◌≡◌, refl, sym, subst}
use mathlib.Core.Logic.{◌⊎◌, inl, inr, ◌≢◌}
use mathlib.Core.Bool.{Bool, true, false, ◌||◌}
use mathlib.Core.List.{List, [], ◌∷◌, ◌++◌}
use native.Mathlib.Omega.{arith}
use nomad_dev.Base.Tests.{if◌then◌else◌}
use nomad_dev.Base.Lists.{All}
use nomad_dev.Base.Strings.{Text, lit, text_eq, text_eq_iff, has_prefix}
use nomad_dev.Base.Words.{has_byte, split, join, split-All}

abbrev pub dot : Text
dot = lit "."

abbrev pub dotdot : Text
dotdot = lit ".."

abbrev pub slash : Text
slash = lit "/"

-- What ".." does to the elements so far, the last one first.
abbrev climb : Bool → List Text → List Text
climb rooted [] = if rooted then [] else dotdot ∷ []
climb rooted (w ∷ ws) = if text_eq w dotdot then dotdot ∷ w ∷ ws else ws

clean_step : Bool → List Text → Text → List Text
clean_step rooted stack w =
    if text_eq w [] || text_eq w dot
    then stack
    else if text_eq w dotdot
    then climb rooted stack
    else w ∷ stack

clean_loop : Bool → List Text → List Text → List Text
clean_loop rooted stack [] = stack
clean_loop rooted stack (w ∷ ws) = clean_loop rooted (clean_step rooted stack w) ws

rev_onto : List Text → List Text → List Text
rev_onto [] acc = acc
rev_onto (w ∷ ws) acc = rev_onto ws (w ∷ acc)

-- The elements of a cleaned path, in order.
elements : Text → List Text
unfolding clean_loop clean_step rev_onto
elements p = rev_onto (clean_loop (has_prefix p slash) [] (split b'/' p)) []

abbrev or_dot : List Text → Text
or_dot [] = dot
or_dot (w ∷ ws) = join slash (w ∷ ws)

-- path.Clean: the shortest path by lexical steps alone.
unfoldable pub clean : Text → Text
unfolding elements
clean p = if has_prefix p slash then slash ++ join slash (elements p) else or_dot (elements p)

-- A path element that names something: not empty, not "." or "..", without a slash.
abbrev pub IsPlain : Text → Type 0
IsPlain w = (w ≢ []) × (w ≢ dot) × (w ≢ dotdot) × (has_byte b'/' w ≡ false)

-- Plain elements on top of a run of "..".
abbrev IsStack : List Text → Type 0
IsStack [] = Unit {0}
IsStack (w ∷ ws) = (IsPlain w × IsStack ws) ⊎ ((w ≡ dotdot) × All (λ v. v ≡ dotdot) ws)

All-dots-IsStack : (ws : List Text) → All (λ v. v ≡ dotdot) ws → IsStack ws
All-dots-IsStack [] a = tt
All-dots-IsStack (w ∷ ws) a = inr a

climb-IsStack : (stack : List Text) → IsStack stack → IsStack (climb false stack)
climb-IsStack [] s = inr (refl, tt)
climb-IsStack (w ∷ ws) (inl s) = ground (arith, text_eq_iff w dotdot)
climb-IsStack (w ∷ ws) (inr s) = ground (arith, text_eq_iff w dotdot)

clean_step-IsStack :
    (stack : List Text) (w : Text)
    → IsStack stack
    → has_byte b'/' w ≡ false
    → IsStack (clean_step false stack w)
unfolding clean_step
clean_step-IsStack stack w s h =
    ground (arith, climb-IsStack stack s, text_eq_iff w [], text_eq_iff w dot, text_eq_iff w dotdot)

clean_loop-IsStack :
    (stack ws : List Text)
    → IsStack stack
    → All (λ w. has_byte b'/' w ≡ false) ws
    → IsStack (clean_loop false stack ws)
unfolding clean_loop
clean_loop-IsStack stack [] s h = s
clean_loop-IsStack stack (w ∷ ws) s h =
    clean_loop-IsStack (clean_step false stack w) ws (clean_step-IsStack stack w s h.0) h.1

-- Either all elements are plain, or the path climbs out first.
abbrev IsOrdered : List Text → Type 0
IsOrdered [] = Unit {0}
IsOrdered (w ∷ ws) = (w ≡ dotdot) ⊎ (IsPlain w × All IsPlain ws)

rev_onto-dots :
    (ws acc : List Text) → All (λ v. v ≡ dotdot) ws → IsOrdered (rev_onto ws (dotdot ∷ acc))
unfolding rev_onto
rev_onto-dots [] acc a = inl refl
rev_onto-dots (w ∷ ws) acc a = rw a.0 (rev_onto-dots ws (dotdot ∷ acc) a.1)

rev_onto-IsOrdered :
    (ws acc : List Text) → IsStack ws → All IsPlain acc → IsOrdered (rev_onto ws acc)
unfolding rev_onto
rev_onto-IsOrdered [] [] s a = tt
rev_onto-IsOrdered [] (v ∷ acc) s a = inr a
rev_onto-IsOrdered (w ∷ ws) acc (inl s) a = rev_onto-IsOrdered ws (w ∷ acc) s.1 (s.0, a)
rev_onto-IsOrdered (w ∷ ws) acc (inr s) a = rw s.0 (rev_onto-dots ws acc s.1)

elements-IsOrdered : (p : Text) → has_prefix p slash ≡ false → IsOrdered (elements p)
unfolding elements
elements-IsOrdered p h =
    rw h (rev_onto-IsOrdered _ [] (clean_loop-IsStack [] _ tt (split-All b'/' p)) tt)

-- A relative path that cleans to neither "." nor "..", nor to one that starts with "../", is a chain
-- of plain elements: it names something below its start, and no element of it climbs.
abbrev pub IsInside : Text → Type 0
IsInside c = (w : Text) × (ws : List Text) × (c ≡ join slash (w ∷ ws)) × IsPlain w × All IsPlain ws

or_dot-IsInside :
    (ws : List Text)
    → IsOrdered ws
    → text_eq (or_dot ws) dot ≡ false
    → text_eq (or_dot ws) dotdot ≡ false
    → has_prefix (or_dot ws) (lit "../") ≡ false
    → IsInside (or_dot ws)
unfolding join has_prefix
or_dot-IsInside [] o d dd p = absurd (cc ((text_eq_iff dot dot).1 refl))
or_dot-IsInside (w ∷ ws) (inr o) d dd p = (w, ws, refl, o.0, o.1)
or_dot-IsInside (w ∷ []) (inl o) d dd p = absurd (ground (arith, text_eq_iff w dotdot))
or_dot-IsInside (w ∷ v ∷ ws) (inl o) d dd p = absurd (
    cc (
      p,
      subst (λ u. has_prefix (u ++ (slash ++ join slash (v ∷ ws))) (lit "../") ≡ true) (sym o) refl,
    ))

clean-relative : (p : Text) → has_prefix p slash ≡ false → clean p ≡ or_dot (elements p)
unfolding clean
clean-relative p h = rw h

pub clean-IsInside :
    (p : Text)
    → has_prefix p slash ≡ false
    → text_eq (clean p) dot ≡ false
    → text_eq (clean p) dotdot ≡ false
    → has_prefix (clean p) (lit "../") ≡ false
    → IsInside (clean p)
clean-IsInside p h = rw (clean-relative p h) (or_dot-IsInside (elements p) (elements-IsOrdered p h))
