-- ===== src/History/Pins.antt =====
-- internal/history/pins.go: ReferenceBuffer, without its lock. A session without a map of files is a nil map, which
-- reads as an empty one.
pub mod Bounds
pub mod Contents
use nomad_dev.Base.{
  ℕ, ◌+◌, Bool, true, false, not, ◌&&◌, List, [], ◌∷◌, ◌++◌, Option, none, some, Text, lit, lookup,
  insert, delete, text_eq, text_lt, length, leb, ltb, ◌==◌, if◌then◌else◌, Result, ok, err,
  refuse_if, ◌>>◌,
}

abbrev pub max_pinned_file_bytes : ℕ
max_pinned_file_bytes = 262144

abbrev pub max_pinned_session_bytes : ℕ
max_pinned_session_bytes = 1048576

abbrev pub max_pinned_files_per_sid : ℕ
max_pinned_files_per_sid = 32

abbrev pub Files : Type 0
Files = List (Text × Text)

abbrev pub ReferenceBuffer : Type 0
ReferenceBuffer = List (Text × Files)

-- Each is an ErrPinCapExceeded.
pub data PinError : Type 0 where
  file_too_big too_many_files session_too_big : PinError

unfoldable pub files_of : ReferenceBuffer → Text → Files
files_of b sid = elim (lookup sid b) [ none ↦ [] | some files ↦ files ]

unfoldable pub is_pinned : Text → Files → Bool
is_pinned path files = elim (lookup path files) [ none ↦ false | some c ↦ true ]

-- The loop over the other files of the session.
unfoldable pub bytes_besides : Text → Files → ℕ
bytes_besides path [] = 0
bytes_besides path ((p, c) ∷ files) =
    let rest = bytes_besides path files in if text_eq p path then rest else length c + rest

unfoldable pub pin : ReferenceBuffer → Text → Text → Text → Result PinError ReferenceBuffer
pin b sid path content =
    refuse_if (ltb max_pinned_file_bytes (length content)) file_too_big
    >> refuse_if
        (not (is_pinned path (files_of b sid))
          && leb max_pinned_files_per_sid (length (files_of b sid)))
        too_many_files
    >> refuse_if
        (ltb max_pinned_session_bytes (length content + bytes_besides path (files_of b sid)))
        session_too_big
    >> ok (insert sid (insert path content (files_of b sid)) b)

unfoldable pub unpin : ReferenceBuffer → Text → Text → ReferenceBuffer × Bool
unpin b sid path =
    if is_pinned path (files_of b sid)
    then (
      if length (delete path (files_of b sid)) == 0
          then delete sid b
          else insert sid (delete path (files_of b sid)) b,
      true,
    )
    else (b, false)

unfoldable pub reset : ReferenceBuffer → Text → ReferenceBuffer
reset b sid = delete sid b

-- `sort.Strings` over the paths of a map, by insertion.
unfoldable pub insert_file : Text → Text → Files → Files
insert_file p c [] = (p, c) ∷ []
insert_file p c ((q, d) ∷ files) =
    let rest = insert_file p c files in
    if text_lt q p then (q, d) ∷ rest else (p, c) ∷ (q, d) ∷ files

unfoldable pub sort_files : Files → Files
sort_files [] = []
sort_files ((p, c) ∷ files) = insert_file p c (sort_files files)

unfoldable pub ends_line : Text → Bool
ends_line [] = false
ends_line (b ∷ []) = b == 10
ends_line (b ∷ c ∷ bs) = ends_line (c ∷ bs)

unfoldable pub render_files : Files → Text
render_files [] = []
render_files ((p, c) ∷ files) =
    lit "--- pinned: "
    ++ p
    ++ lit " ---\n"
    ++ c
    ++ (if ends_line c then [] else lit "\n")
    ++ lit "\n"
    ++ render_files files

abbrev pub preamble : Text
preamble =
    lit "=== PINNED REFERENCE FILES ===\n"
    ++ lit "These files were pinned for this task and are always available in full,\n"
    ++ lit "regardless of conversation length.\n\n"

unfoldable pub render : ReferenceBuffer → Text → Text
render b sid =
    if length (files_of b sid) == 0
    then []
    else preamble
      ++ render_files (sort_files (files_of b sid))
      ++ lit "=== END PINNED REFERENCE FILES ===\n\n"

pub data Op : Type 0 where
  pins : Text → Text → Text → Op
  unpins : Text → Text → Op
  resets : Text → Op

-- An operation that fails leaves the buffer as it was.
unfoldable pub step : ReferenceBuffer → Op → ReferenceBuffer
unfolding pin unpin reset
step b (pins sid path content) = elim (pin b sid path content) [ ok b' ↦ b' | err e ↦ b ]
step b (unpins sid path) = (unpin b sid path).0
step b (resets sid) = reset b sid

unfoldable pub run : ReferenceBuffer → List Op → ReferenceBuffer
run b [] = b
run b (o ∷ os) = run (step b o) os
