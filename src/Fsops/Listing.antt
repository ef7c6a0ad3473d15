-- ===== src/Fsops/Listing.antt =====
-- list_dir: runListDir, walkDepth and walkDepthInner of internal/fsops/run.go.
use nomad_dev.Base.{
  ℕ, zero, suc, ◌+◌, ◌≤◌, ◌<◌, ◌≡◌, refl, ap, subst, Bool, true, false, ◌&&◌, List, [], ◌∷◌, ◌++◌,
  arith, Text, lit, slash, has_byte, ltb, ◌==◌, if◌then◌else◌, Result, ok, err, err-≢-ok, ◌>>=◌,
  >>=-eq-ok, ok-injective, Result-cases, All, All-append, All-implies, inl, inr, ◌⊎◌, pos,
}
use nomad_dev.Base.Json.{Fields, get, num, null}
use nomad_dev.Fsops.{
  Fault, os, not_directory, Kind, directory, symlink, regular, other, DirEntry, Disk, Engine,
  arg_string, arg_positive, filepath_join, resolve_safe,
}

abbrev pub max_list_depth : ℕ
max_list_depth = 4

pub record ListEntry : Type 0 where
  pub name : Text
  pub typ : Text
  pub size : ℕ

abbrev pub entry_type : Kind → Text
entry_type directory = lit "dir"
entry_type symlink = lit "symlink"
entry_type regular = lit "file"
entry_type other = lit "other"

abbrev pub is_directory_entry : DirEntry → Bool
is_directory_entry c = elim c.kind [
  | directory ↦ true
  | symlink ↦ false
  | regular ↦ false
  | other ↦ false
]

-- The size is 0 but for a regular file; a failed Info leaves it 0, so `size` is what Info gave.
abbrev pub list_entry : Text → DirEntry → ListEntry
list_entry rel c = record {
  name = rel;
  typ = entry_type c.kind;
  size = elim c.kind [ directory ↦ 0 | symlink ↦ 0 | regular ↦ c.size | other ↦ 0 ];
}

-- The loop over one directory's children; `walk` goes into a child, where there is depth left.
unfoldable pub walk_children :
    {E : Type 0}
    → (Text → Text → Result E (List ListEntry))
    → Bool
    → Text
    → (Text → Text)
    → List DirEntry
    → Result E (List ListEntry)
walk_children walk deeper dir rel_of [] = ok []
walk_children walk deeper dir rel_of (c ∷ cs) =
    (if is_directory_entry c && deeper
      then walk (filepath_join dir c.name) (rel_of c.name)
      else ok [])
    >>= λ below. walk_children walk deeper dir rel_of cs >>= λ rest.
        ok (list_entry (rel_of c.name) c ∷ (below ++ rest))

module _ {W E : Type 0} (disk : Disk W E) (w : W) where
  unfoldable pub walk_depth_inner : ℕ → Text → Text → Result E (List ListEntry)
  unfolding walk_children
  walk_depth_inner zero dir prefix = ok []
  walk_depth_inner (suc depth) dir prefix =
      disk.read_dir w dir
      >>= walk_children (walk_depth_inner depth) (ltb 0 depth) dir (λ name. prefix ++ slash ++ name)

  unfoldable pub walk_depth : ℕ → Text → Result E (List ListEntry)
  unfolding walk_children walk_depth_inner
  walk_depth zero dir = ok []
  walk_depth (suc depth) dir =
      disk.read_dir w dir
      >>= walk_children (walk_depth_inner depth) (ltb 0 depth) dir (λ name. name)

unfoldable pub list_depth : Fields → ℕ
list_depth args =
    let asked = arg_positive args (lit "depth") in
    let depth = if ltb 0 asked then asked else 1 in
    if ltb max_list_depth depth then max_list_depth else depth

-- runListDir, up to the JSON of its result.
unfoldable pub list_dir :
    {W E : Type 0} → Disk W E → Engine → W → Text → Fields → W × Result (Fault E) (List ListEntry)
unfolding walk_depth list_depth
list_dir disk e w sid args = elim (arg_string args (lit "path")) [
  | err x ↦ (w, err x)
  | ok path ↦
      let (w', found) = resolve_safe disk e w sid path in
      (
        w',
        (found >>= λ resolved. elim (disk.is_dir w' resolved) [
          | err x ↦ err (os x)
          | ok false ↦ err (not_directory path)
          | ok true ↦ elim (walk_depth disk w' (list_depth args) resolved) [
            | err x ↦ err (os x)
            | ok entries ↦ ok entries
          ]
        ]),
      )
]

-- A name of at most `n + 1` elements.
abbrev pub slashes : Text → ℕ
slashes [] = 0
slashes (b ∷ s) = if b == b'/' then suc (slashes s) else slashes s

slashes-append : (s t : Text) → slashes (s ++ t) ≡ slashes s + slashes t
slashes-append [] t = omega arith
slashes-append (b ∷ s) t = ground (arith, slashes-append s t)

slashes-plain : (s : Text) → has_byte b'/' s ≡ false → slashes s ≡ 0
slashes-plain [] h = refl
slashes-plain (b ∷ s) h = ground (arith, slashes-plain s)

-- `os.ReadDir` gives names without a slash.
abbrev pub NamesPlain : {W E : Type 0} → Disk W E → Type 0
NamesPlain {W = W} disk =
    (w : W) (dir : Text) (cs : List DirEntry)
    → disk.read_dir w dir ≡ ok cs
    → All (λ c. has_byte b'/' c.name ≡ false) cs

-- The listed names have at most `n` slashes.
abbrev pub Shallow : ℕ → List ListEntry → Type 0
Shallow n = All (λ x. slashes x.name ≤ n)

below-Shallow :
    {E : Type 0} (m : ℕ) (b : Bool) (r : Result E (List ListEntry)) (out : List ListEntry)
    → (r ≡ ok out → Shallow m out)
    → (if b then r else ok []) ≡ ok out
    → Shallow m out
below-Shallow m true r out f h = f h
below-Shallow m false r out f h = subst (Shallow m) (ok-injective h) tt

-- A loop over children whose own names have `n` slashes, when what is below them has `m`.
walk_children-Shallow :
    {E : Type 0} (n m : ℕ) (walk : Text → Text → Result E (List ListEntry)) (deeper : Bool)
    (dir : Text) (rel_of : Text → Text) (cs : List DirEntry) (out : List ListEntry)
    → n ≤ m
    → ((d rel : Text) (xs : List ListEntry) → slashes rel ≤ n → walk d rel ≡ ok xs → Shallow m xs)
    → ((name : Text) → has_byte b'/' name ≡ false → slashes (rel_of name) ≤ n)
    → All (λ c. has_byte b'/' c.name ≡ false) cs
    → walk_children walk deeper dir rel_of cs ≡ ok out
    → Shallow m out
unfolding walk_children
walk_children-Shallow n m walk deeper dir rel_of [] out le inner short plain h =
    subst (Shallow m) (ok-injective h) tt
walk_children-Shallow n m walk deeper dir rel_of (c ∷ cs) out le inner short (p, ps) h =
    let first = >>=-eq-ok _ _ h in
    let second = >>=-eq-ok _ _ first.2 in
    let here = short c.name p in
    let below =
      below-Shallow m (is_directory_entry c && deeper)
        (walk (filepath_join dir c.name) (rel_of c.name)) first.0
        (λ e. inner (filepath_join dir c.name) (rel_of c.name) first.0 here e) first.1 in
    let rest =
      walk_children-Shallow n m walk deeper dir rel_of cs second.0 le inner short ps second.1 in
    subst (Shallow m) (ok-injective second.2)
      (omega (arith, here, le), All-append (λ x. slashes x.name ≤ m) first.0 second.0 below rest)

walk_depth_inner-Shallow :
    {W E : Type 0} (disk : Disk W E) (w : W) (depth n : ℕ) (dir prefix : Text)
    (out : List ListEntry)
    → NamesPlain disk
    → slashes prefix ≤ n
    → walk_depth_inner disk w depth dir prefix ≡ ok out
    → Shallow (n + depth) out
unfolding walk_depth_inner
walk_depth_inner-Shallow disk w zero n dir prefix out plain le h =
    subst (Shallow (n + 0)) (ok-injective h) tt
walk_depth_inner-Shallow disk w (suc depth) n dir prefix out plain le h =
    let read = >>=-eq-ok _ _ h in
    walk_children-Shallow (suc n) (n + suc depth) (walk_depth_inner disk w depth) (ltb 0 depth) dir
      (λ name. prefix ++ slash ++ name) read.0 out (omega arith)
      (λ d rel xs s e.
        subst (λ k. Shallow k xs) (omega arith)
          (walk_depth_inner-Shallow disk w depth (suc n) d rel xs plain s e))
      (λ name p. omega (
        arith,
        le,
        slashes-append (prefix ++ slash) name,
        slashes-append prefix slash,
        slashes-plain name p,
      ))
      (plain w dir read.0 read.1) read.2

walk_depth-Shallow :
    {W E : Type 0} (disk : Disk W E) (w : W) (depth : ℕ) (dir : Text) (out : List ListEntry)
    → NamesPlain disk
    → walk_depth disk w depth dir ≡ ok out
    → All (λ x. slashes x.name < depth) out
unfolding walk_depth
walk_depth-Shallow disk w zero dir out plain h =
    subst (All (λ x. slashes x.name < 0)) (ok-injective h) tt
walk_depth-Shallow disk w (suc depth) dir out plain h =
    let read = >>=-eq-ok _ _ h in
    All-implies (λ x. slashes x.name ≤ depth) (λ x. slashes x.name < suc depth) out
      (λ x s. omega (arith, s))
      (walk_children-Shallow 0 depth (walk_depth_inner disk w depth) (ltb 0 depth) dir
        (λ name. name) read.0 out (omega arith)
        (λ d rel xs s e.
          subst (λ k. Shallow k xs) (omega arith)
            (walk_depth_inner-Shallow disk w depth 0 d rel xs plain s e))
        (λ name p. omega (arith, slashes-plain name p)) (plain w dir read.0 read.1) read.2)

list_depth_bounds : (args : Fields) → (1 ≤ list_depth args) × (list_depth args ≤ max_list_depth)
unfolding list_depth
list_depth_bounds args = ground arith

list_depth-asked :
    (args : Fields) (n : ℕ)
    → ((get (lit "depth") args ≡ num (pos n)) × (1 ≤ n))
      ⊎ ((get (lit "depth") args ≡ null) × (n ≡ 1))
    → list_depth args ≤ n
unfolding list_depth arg_positive
list_depth-asked args n (inl (e, le)) = rw (arg_positive, e) (ground arith)
list_depth-asked args n (inr (e, one)) = rw (arg_positive, e) (ground arith)

listed :
    {E : Type 0} (dir : Result E Bool) (path : Text) (walked : Result E (List ListEntry))
    (entries : List ListEntry)
    → ◌≡◌ {A = Result (Fault E) (List ListEntry)}
        (elim dir [
          | err x ↦ err (os x)
          | ok false ↦ err (not_directory path)
          | ok true ↦ elim walked [ err x ↦ err (os x) | ok found ↦ ok found ]
        ])
        (ok entries)
    → walked ≡ ok entries
listed (err x) path walked entries h = absurd (err-≢-ok h)
listed (ok false) path walked entries h = absurd (err-≢-ok h)
listed (ok true) path (err x) entries h = absurd (err-≢-ok h)
listed (ok true) path (ok found) entries h = ap ok (ok-injective h)

-- What list_dir lists: entries at most 4 levels deep, and at most `n`, where `n` is a positive `depth` of the call, or
-- 1 for a call without one. The names os.ReadDir gives are assumed to have no slash.
pub list_dir-depth :
    {W E : Type 0} (disk : Disk W E) (e : Engine) (w : W) (sid : Text) (args : Fields)
    (entries : List ListEntry) (n : ℕ)
    → NamesPlain disk
    → ((get (lit "depth") args ≡ num (pos n)) × (1 ≤ n))
      ⊎ ((get (lit "depth") args ≡ null) × (n ≡ 1))
    → (list_dir disk e w sid args).1 ≡ ok entries
    → All (λ x. (slashes x.name < n) × (slashes x.name < 4)) entries
unfolding list_dir
list_dir-depth {E = E} disk e w sid args entries n plain asked h =
    elim (Result-cases (arg_string {E = E} args (lit "path"))) [
      | inr (x, f) ↦ absurd (err-≢-ok (rw (list_dir, f) at h))
      | inl (path, f) ↦
          let w1 = (resolve_safe disk e w sid path).0 in
          let (resolved, _, tail) =
            >>=-eq-ok (resolve_safe disk e w sid path).1 _ (rw (list_dir, f) at h) in
          let walked =
            listed (disk.is_dir w1 resolved) path (walk_depth disk w1 (list_depth args) resolved)
              entries tail in
          All-implies (λ x. slashes x.name < list_depth args)
            (λ x. (slashes x.name < n) × (slashes x.name < 4)) entries
            (λ x s. (
              omega (arith, s, list_depth-asked args n asked),
              omega (arith, s, (list_depth_bounds args).1),
            ))
            (walk_depth-Shallow disk w1 (list_depth args) resolved entries plain walked)
    ]
