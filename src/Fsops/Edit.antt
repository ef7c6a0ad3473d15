-- ===== src/Fsops/Edit.antt =====
-- The edit of apply_code_patch: computeApplyCodePatch behind its reads, and renderUnifiedDiff, both of
-- internal/fsops/run.go.
pub mod Unique
pub mod Diff
use nomad_dev.Base.{
  ℕ, zero, suc, ◌+◌, ◌-◌, ◌*◌, Bool, true, false, List, [], ◌∷◌, ◌++◌, Option, none, some, Text,
  lit, has_prefix, split, decimal, length, take, drop, ltb, leb, ◌==◌, if◌then◌else◌, Result, ok,
  err, ℤ, pos, negsuc,
}
use nomad_dev.Fsops.{Fault, matches, not_found, too_large}

abbrev pub default_write_file_max_bytes : ℕ
default_write_file_max_bytes = 4 * 1024 * 1024

-- `strings.Count(s, sub)` for `sub` that is not empty; `skip` bytes belong to the last match.
unfoldable pub count_from : Text → ℕ → Text → ℕ
count_from sub skip [] = 0
count_from sub zero (b ∷ s) =
    let hit = suc (count_from sub (length sub - 1) s) in
    let miss = count_from sub 0 s in if has_prefix (b ∷ s) sub then hit else miss
count_from sub (suc skip) (b ∷ s) = count_from sub skip s

-- `strings.Index(s, sub)`, with none for -1.
unfoldable pub index_of : Text → Text → Option ℕ
index_of [] sub = if has_prefix [] sub then some 0 else none
index_of (b ∷ s) sub =
    if has_prefix (b ∷ s) sub
    then some 0
    else elim (index_of s sub) [ none ↦ none | some i ↦ some (suc i) ]

-- `strings.Count(s, "\n")`.
unfoldable pub newlines : Text → ℕ
newlines [] = 0
newlines (b ∷ s) = if b == 10 then suc (newlines s) else newlines s

-- The one hunk of the diff: the numbers of its header, and the lines of its four loops.
pub record Hunk : Type 0 where
  pub before_start : ℕ
  pub before_count : ℕ
  pub after_start : ℕ
  pub after_count : ℕ
  pub leading : List Text
  pub removed : List Text
  pub added : List Text
  pub trailing : List Text

-- The lines from `lo` up to, and without, `hi`.
abbrev pub lines_between : ℕ → ℕ → List Text → List Text
lines_between lo hi lines = take (hi - lo) (drop lo lines)

-- `if end >= len(lines) { end = len(lines) - 1 }`.
abbrev pub clip : ℕ → List Text → ℕ
clip end lines = if leb (length lines) end then length lines - 1 else end

-- The hunk, from the lines of both texts and the numbers of the lines where the edit starts and ends.
unfoldable pub hunk_at : List Text → List Text → ℕ → ℕ → ℕ → Hunk
hunk_at before_lines after_lines first last after_last =
    let start = first - 3 in
    let end_before = clip (last + 3) before_lines in
    let end_after = clip (after_last + 3) after_lines in
    record {
      before_start = start + 1;
      before_count = end_before + 1 - start;
      after_start = start + 1;
      after_count = end_after + 1 - start;
      leading = lines_between start first before_lines;
      removed = lines_between first (last + 1) before_lines;
      added = lines_between first (after_last + 1) after_lines;
      trailing = lines_between (after_last + 1) (end_after + 1) after_lines;
    }

unfoldable pub hunk_of : Text → Text → ℕ → ℕ → ℕ → Hunk
unfolding hunk_at
hunk_of before after idx search_len replace_len =
    hunk_at (split 10 before) (split 10 after) (newlines (take idx before))
      (newlines (take (idx + search_len) before)) (newlines (take (idx + replace_len) after))

unfoldable pub marked : Text → List Text → Text
marked mark [] = []
marked mark (line ∷ lines) = mark ++ line ++ lit "\n" ++ marked mark lines

unfoldable pub render_unified_diff : Text → Hunk → Text
unfolding marked
render_unified_diff path h =
    (lit "--- a/" ++ path ++ lit "\n")
    ++ (lit "+++ b/" ++ path ++ lit "\n")
    ++ (lit "@@ -" ++ decimal h.before_start ++ lit "," ++ decimal h.before_count)
    ++ (lit " +" ++ decimal h.after_start ++ lit "," ++ decimal h.after_count ++ lit " @@\n")
    ++ (marked (lit " ") h.leading ++ marked (lit "-") h.removed)
    ++ (marked (lit "+") h.added ++ marked (lit " ") h.trailing)

pub record Plan : Type 0 where
  pub resolved : Text
  pub path : Text
  pub original : Text
  pub new_content : Text
  pub line_number : ℕ
  pub unified_diff : Text

-- A limit of the call, where it is positive.
abbrev pub or_default : ℤ → ℕ → ℕ
or_default (pos n) other = if ltb 0 n then n else other
or_default (negsuc n) other = other

abbrev pub replaced : Text → ℕ → ℕ → Text → Text
replaced content idx search_len replace =
    take idx content ++ replace ++ drop (idx + search_len) content

-- The branches on the count. With a count of 1 an index is found, so `none` does not occur.
unfoldable pub plan_edit :
    {E : Type 0} → Text → Text → Text → Text → Text → ℕ → Result (Fault E) Plan
unfolding hunk_of
plan_edit path resolved content search replace max_bytes =
    if count_from search 0 content == 0
    then err not_found
    else if ltb 1 (count_from search 0 content)
    then err (matches (count_from search 0 content))
    else elim (index_of content search) [
      | none ↦ err not_found
      | some idx ↦
          let new_content = replaced content idx (length search) replace in
          if ltb max_bytes (length new_content)
          then err (too_large max_bytes)
          else ok (record {
            resolved = resolved;
            path = path;
            original = content;
            new_content = new_content;
            line_number = 1 + newlines (take idx content);
            unified_diff =
                render_unified_diff path
                  (hunk_of content new_content idx (length search) (length replace));
          })
    ]
