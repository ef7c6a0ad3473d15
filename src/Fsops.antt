-- ===== src/Fsops.antt =====
-- internal/fsops/engine.go and the arguments of internal/fsops/run.go: where a call may reach. The file
-- system is a parameter, `Disk`, over states `W` with errors `E`.
mod Examples
pub mod Confined
pub mod Read
pub mod Sessions
pub mod Listing
pub mod Edit
pub mod Write
pub mod Service
use nomad_dev.Base.{
  ℕ, suc, ◌-◌, ◌+◌, Bool, true, false, not, ◌&&◌, ◌||◌, List, [], ◌∷◌, ◌++◌, reverse, Option, none,
  some, Text, lit, text_eq, has_prefix, contains, clean, slash, dotdot, length, ltb, leb, ◌==◌,
  if◌then◌else◌, Result, ok, err, ◌>>=◌, ◌>>◌, refuse_if, ℤ, pos, negsuc,
}
use nomad_dev.Base.Json.{Json, Fields, null, bool, num, str, arr, obj, get, has_key}

-- Why a path is refused, and what else a call can get wrong.
pub data Fault (E : Type 0) : Type 0 where
  os : E → Fault E
  empty_path absolute_path has_dotdot outside_root missing_parent : Text → Fault E
  missing_arg bad_arg : Text → Fault E
  bad_mode : Fault E
  is_directory not_directory no_such_file : Text → Fault E
  too_large : ℕ → Fault E
  not_found : Fault E
  matches : ℕ → Fault E
  unknown_tool : Text → Fault E

pub data Kind : Type 0 where
  directory symlink regular other : Kind

pub record DirEntry : Type 0 where
  pub name : Text
  pub kind : Kind
  pub size : ℕ

-- The calls of the os and path/filepath packages. `write` goes to the end of a file that was opened.
pub record Disk (W E : Type 0) : Type 0 where
  pub eval_symlinks : W → Text → Result E Text
  pub is_not_exist : E → Bool
  pub mkdir_all : W → Text → W × Option E
  pub is_dir : W → Text → Result E Bool
  pub read_dir : W → Text → Result E (List DirEntry)
  pub read_file : W → Text → Result E Text
  pub open_truncated : W → Text → W × Option E
  pub open_created : W → Text → W × Option E
  pub open_appending : W → Text → W × Option E
  pub write : W → Text → Text → W × Option E

pub record Engine : Type 0 where
  pub root : Text
  pub per_session : Bool

-- `c` is one of the bytes that may stand in a directory's name.
abbrev pub is_name_byte : ℕ → Bool
is_name_byte c =
    (leb b'a' c && leb c b'z')
    || (leb b'A' c && leb c b'Z')
    || (leb b'0' c && leb c b'9')
    || (c == b'-' || (c == b'_' || c == b'.'))

-- One round of the loop, over the bytes so far, the last one first.
unfoldable pub sanitize_byte : ℕ → Text → Text
sanitize_byte c [] = (if is_name_byte c then c else b'_') ∷ []
sanitize_byte c (b ∷ bs) =
    if is_name_byte c
    then (if (c == b'.') && (b == b'.') then b'_' ∷ b'_' ∷ bs else c ∷ b ∷ bs)
    else b'_' ∷ b ∷ bs

unfoldable pub sanitize_loop : Text → Text → Text
sanitize_loop [] kept = kept
sanitize_loop (c ∷ sid) kept =
    let more = sanitize_loop sid (sanitize_byte c kept) in
    if ltb (length kept) 64 then more else kept

unfoldable pub sanitize_sid : Text → Text
unfolding sanitize_loop sanitize_byte
sanitize_sid sid = reverse (sanitize_loop sid [])

-- `filepath.Join(a, b)` of nonempty parts.
abbrev pub filepath_join : Text → Text → Text
filepath_join a b = clean (a ++ slash ++ b)

unfoldable pub within_root : Text → Text → Bool
within_root root target = text_eq target root || has_prefix (target ++ slash) (root ++ slash)

-- What stands before the last slash of a text, if it has one.
unfoldable pub before_slash : Text → Option Text
before_slash [] = none
before_slash (c ∷ p) = elim (before_slash p) [
  | some q ↦ some (c ∷ q)
  | none ↦ if c == b'/' then some [] else none
]

-- `filepath.Dir` of an absolute path.
unfoldable pub filepath_dir : Text → Text
unfolding before_slash
filepath_dir p = elim (before_slash p) [
  | none ↦ lit "."
  | some [] ↦ slash
  | some (c ∷ q) ↦ clean (c ∷ q)
]

-- `strings.HasSuffix(s, t)`.
abbrev pub has_suffix : Text → Text → Bool
has_suffix s t = has_prefix (reverse s) (reverse t)

-- argString and argStringAllowEmpty.
module _ {E : Type 0} where
  unfoldable pub arg_string_allow_empty : Fields → Text → Result (Fault E) Text
  arg_string_allow_empty args key =
      if has_key key args
      then (elim (get key args) [ str s ↦ ok s | _ ↦ err (bad_arg key) ])
      else err (missing_arg key)

  unfoldable pub arg_string : Fields → Text → Result (Fault E) Text
  arg_string args key =
      if has_key key args
      then (elim (get key args) [
        | str s ↦ if text_eq s [] then err (bad_arg key) else ok s
        | _ ↦ err (bad_arg key)
      ])
      else err (missing_arg key)

-- argInt, of which the callers only use a positive value: 0 where there is none.
unfoldable pub arg_positive : Fields → Text → ℕ
arg_positive args key = elim (get key args) [
  | num n ↦ (elim n [ pos k ↦ k | negsuc k ↦ 0 ])
  | _ ↦ 0
]

-- argBool, of which the caller only uses the value.
unfoldable pub arg_bool : Fields → Text → Bool
arg_bool args key = elim (get key args) [ bool b ↦ b | _ ↦ false ]

module _ {E : Type 0} where
  -- The lexical half of resolveSafe: the path that is asked for.
  unfoldable pub candidate_of : Text → Text → Result (Fault E) Text
  candidate_of scoped rel = do
    refuse_if (text_eq rel []) (empty_path rel)
    refuse_if (has_prefix rel slash) (absolute_path rel)
    let cleaned = clean rel
    refuse_if
        ((text_eq cleaned dotdot || has_prefix cleaned (lit "../"))
          || (contains cleaned (lit "/../") || has_suffix cleaned (lit "/..")))
        (has_dotdot rel)
    ok (filepath_join scoped cleaned)

module _ {W E : Type 0} (disk : Disk W E) where
  -- The other half: where the path leads.
  unfoldable pub locate : W → Text → Text → Result (Fault E) Text
  unfolding within_root filepath_dir
  locate w scoped candidate = elim (disk.eval_symlinks w candidate) [
    | ok real ↦ if within_root scoped real then ok real else err (outside_root real)
    | err x ↦
        if disk.is_not_exist x
        then elim (disk.eval_symlinks w (filepath_dir candidate)) [
          | err y ↦ err (missing_parent (filepath_dir candidate))
          | ok real_parent ↦
              if within_root scoped real_parent
              then ok candidate
              else err (outside_root (filepath_dir candidate))
        ]
        else err (os x)
  ]

module _ {W E : Type 0} (disk : Disk W E) (e : Engine) where
  -- The session's root, with the state after MkdirAll.
  unfoldable pub root_for_ctx : W → Text → W × Result (Fault E) Text
  unfolding sanitize_sid
  root_for_ctx w sid =
      if not e.per_session || text_eq (sanitize_sid sid) []
      then (w, ok e.root)
      else (let scoped = filepath_join e.root (sanitize_sid sid) in
          let (w', failed) = disk.mkdir_all w scoped in
          (w', elim failed [ some x ↦ err (os x) | none ↦ ok scoped ]))

  unfoldable pub resolve_safe : W → Text → Text → W × Result (Fault E) Text
  unfolding root_for_ctx candidate_of locate
  resolve_safe w sid rel =
      let (w', scoped) = root_for_ctx w sid in
      (
        w',
        (scoped >>= λ root. candidate_of root rel >>= λ candidate. locate disk w' root candidate),
      )
