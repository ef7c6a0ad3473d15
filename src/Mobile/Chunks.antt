-- ===== src/Mobile/Chunks.antt =====
-- MergeChunkIntoToolCall of internal/mobile/state/ingest.go: output chunks become terminal lines.
pub mod Lines
pub mod Merge
use nomad_dev.Base.{
  ℕ, suc, ◌+◌, ◌-◌, Bool, true, false, List, [], ◌∷◌, ◌++◌, Text, text_eq, split, ltb,
  if◌then◌else◌, length, drop,
}
use nomad_dev.Event.{stream_stdout, stream_stderr}
use nomad_dev.Mobile.State.{
  ToolCall, TerminalLine, CommandChunkPayload, terminal_line_cap, partial_line_cap,
}

-- `parts[:len(parts)-1]` and `parts[len(parts)-1]` of what strings.Split returns, which is never empty.
abbrev pub cut_last : List Text → List Text × Text
cut_last [] = ([], [])
cut_last (w ∷ []) = ([], w)
cut_last (w ∷ v ∷ ws) = let (done, part) = cut_last (v ∷ ws) in (w ∷ done, part)

-- The completed texts as lines numbered from `n`.
unfoldable pub number_lines : Text → ℕ → List Text → List TerminalLine
number_lines stream n [] = []
number_lines stream n (text ∷ texts) =
    record { stream = stream; text = text; seq = n } ∷ number_lines stream (suc n) texts

-- The last `terminal_line_cap` entries.
abbrev pub keep_last : List TerminalLine → List TerminalLine
keep_last lines =
    if ltb terminal_line_cap (length lines)
    then drop (length lines - terminal_line_cap) lines
    else lines

-- `if len(additions) > 0`.
abbrev pub add_lines : List TerminalLine → List TerminalLine → List TerminalLine
add_lines lines [] = lines
add_lines lines (a ∷ additions) = keep_last (lines ++ a ∷ additions)

-- What one chunk makes of the lines, their count and the carried fragment of its stream.
unfoldable pub fold_chunk :
    Text → List TerminalLine → ℕ → Text → Text → List TerminalLine × ℕ × Text
fold_chunk stream lines line_count carry text =
    let (completed, partial) = cut_last (split b'\n' (carry ++ text)) in
    let numbered = number_lines stream line_count completed in
    let count = line_count + length completed in
    if ltb partial_line_cap (length partial)
    then (
      add_lines lines (numbered ++ record { stream = stream; text = partial; seq = count } ∷ []),
      suc count,
      [],
    )
    else (add_lines lines numbered, count, partial)

unfoldable pub merge_chunk_into_tool_call : ToolCall → CommandChunkPayload → ToolCall
merge_chunk_into_tool_call c p =
    if text_eq p.stream stream_stderr
    then (let (lines, count, partial) =
          fold_chunk stream_stderr c.lines c.line_count c.stderr_partial p.text in
        record c { lines = lines; line_count = count; stderr_partial = partial })
    else (let (lines, count, partial) =
          fold_chunk stream_stdout c.lines c.line_count c.stdout_partial p.text in
        record c { lines = lines; line_count = count; stdout_partial = partial })
