-- ===== src/Mobile/Chunks/Merge.antt =====
-- Lemmas about MergeChunkIntoToolCall of internal/mobile/state/ingest.go.
use nomad_dev.Base.{
  ℕ, suc, ◌+◌, ◌≤◌, ◌≡◌, refl, ap, ◌∙◌, sym, false, List, [], ◌∷◌, ◌++◌, append_assoc, arith, Text,
  split, ltb, if◌then◌else◌, length, length-append, drop, Bool-cases, inl, inr, text_eq, zero,
}
use nomad_dev.Event.{stream_stdout, stream_stderr}
use nomad_dev.Mobile.State.{
  TerminalLine, ToolCall, CommandChunkPayload, terminal_line_cap, partial_line_cap,
}
use nomad_dev.Mobile.Chunks.{
  cut_last, number_lines, add_lines, fold_chunk, merge_chunk_into_tool_call,
}
use nomad_dev.Mobile.Chunks.Lines.{
  lines_of, cut_last-split, lines_of-append, number_lines-append, length-keep_last,
  add_lines-add_lines,
}

-- The outcome of a chunk whose fragment stays under the cap.
abbrev fold_lines : Text → List TerminalLine → ℕ → List Text × Text → List TerminalLine × ℕ × Text
fold_lines stream lines count r =
    if ltb partial_line_cap (length r.1)
    then (
      add_lines lines (
          number_lines stream count r.0
          ++ record { stream = stream; text = r.1; seq = count + length r.0 } ∷ []),
      suc (count + length r.0),
      [],
    )
    else (add_lines lines (number_lines stream count r.0), count + length r.0, r.1)

fold_chunk_lem :
    (stream : Text) (lines : List TerminalLine) (count : ℕ) (carry text : Text)
    → fold_chunk stream lines count carry text
      ≡ fold_lines stream lines count (lines_of (carry ++ text))
unfolding fold_chunk
fold_chunk_lem stream lines count carry text = rw (cut_last-split (carry ++ text))

fold_lines-glue :
    (stream : Text) (lines : List TerminalLine) (count : ℕ) (done : List Text)
    (more : List Text × Text)
    → fold_lines stream
        (add_lines lines (number_lines stream count done))
        (count + length done)
        more
      ≡ fold_lines stream lines count (done ++ more.0, more.1)
fold_lines-glue stream lines count done (done', part) =
    let numbered = number_lines-append stream count done done' in
    let counted : count + length (done ++ done') ≡ count + length done + length done' =
      omega (arith, length-append done done') in
    let first = number_lines stream count done in
    let second = number_lines stream (count + length done) done' in
    elim (Bool-cases (ltb partial_line_cap (length part))) [
      | inl e ↦
          let flushed : TerminalLine = record {
            stream = stream;
            text = part;
            seq = count + length done + length done';
          } in
          rw (e, numbered, counted)
            (ap (λ l. (l, suc (count + length done + length done'), []))
              (add_lines-add_lines lines first (second ++ flushed ∷ [])
                ∙ ap (add_lines lines) (sym (append_assoc first second (flushed ∷ [])))))
      | inr e ↦
          rw (e, numbered, counted)
            (ap (λ l. (l, count + length done + length done', part))
              (add_lines-add_lines lines first second))
    ]

fold_chunk-fold_chunk :
    (stream : Text) (lines : List TerminalLine) (count : ℕ) (carry s t : Text)
    → length (lines_of (carry ++ s)).1 ≤ partial_line_cap
    → let r = fold_chunk stream lines count carry s in
      fold_chunk stream r.0 r.1 r.2 t ≡ fold_chunk stream lines count carry (s ++ t)
fold_chunk-fold_chunk stream lines count carry s t h =
    let first = lines_of (carry ++ s) in
    let fits : ltb partial_line_cap (length first.1) ≡ false = ground arith in
    let one : fold_chunk stream lines count carry s
        ≡ (add_lines lines (number_lines stream count first.0), count + length first.0, first.1) =
      fold_chunk_lem stream lines count carry s ∙ rw fits in
    let whole : lines_of (carry ++ (s ++ t))
        ≡ (first.0 ++ (lines_of (first.1 ++ t)).0, (lines_of (first.1 ++ t)).1) =
      ap lines_of (sym (append_assoc carry s t)) ∙ lines_of-append (carry ++ s) t in
    rw one (
      fold_chunk_lem stream _ _ first.1 t
      ∙ fold_lines-glue stream lines count first.0 (lines_of (first.1 ++ t))
      ∙ ap (fold_lines stream lines count) (sym whole)
      ∙ sym (fold_chunk_lem stream lines count carry (s ++ t)))

-- The fragment that a tool call carries for the stream of a chunk.
abbrev pub carry_of : ToolCall → Text → Text
carry_of c stream = if text_eq stream stream_stderr then c.stderr_partial else c.stdout_partial

-- The cut of a stream into chunks does not matter: two chunks of one stream, merged in turn, give the
-- tool call that one chunk with both texts gives (lines, numbers, roll-off and fragments alike), as long as
-- the fragment left open between the two is not so long that it is flushed.
pub merge_chunk-append :
    (c : ToolCall) (p q r : CommandChunkPayload)
    → q.stream ≡ p.stream
    → r.stream ≡ p.stream
    → r.text ≡ p.text ++ q.text
    → length (lines_of (carry_of c p.stream ++ p.text)).1 ≤ partial_line_cap
    → merge_chunk_into_tool_call (merge_chunk_into_tool_call c p) q ≡ merge_chunk_into_tool_call c r
unfolding merge_chunk_into_tool_call
merge_chunk-append c p q r eq er et h = elim (Bool-cases (text_eq p.stream stream_stderr)) [
  | inl e ↦
      rw (eq, er, et, e)
        (ap
          (λ (r : List TerminalLine × ℕ × Text). record c {
            lines = r.0;
            line_count = r.1;
            stderr_partial = r.2;
          })
          (fold_chunk-fold_chunk stream_stderr c.lines c.line_count c.stderr_partial p.text q.text
            (rw e at h)))
  | inr e ↦
      rw (eq, er, et, e)
        (ap
          (λ (r : List TerminalLine × ℕ × Text). record c {
            lines = r.0;
            line_count = r.1;
            stdout_partial = r.2;
          })
          (fold_chunk-fold_chunk stream_stdout c.lines c.line_count c.stdout_partial p.text q.text
            (rw e at h)))
]

-- The lines are numbered without a gap, the last one below `to`.
abbrev pub Consecutive : ℕ → List TerminalLine → ℕ → Type 0
Consecutive from [] to = from ≡ to
Consecutive from (x ∷ xs) to = (x.seq ≡ from) × Consecutive (suc from) xs to

Consecutive-append :
    (from mid to : ℕ) (xs ys : List TerminalLine)
    → Consecutive from xs mid
    → Consecutive mid ys to
    → Consecutive from (xs ++ ys) to
Consecutive-append from mid to [] ys h k = rw h k
Consecutive-append from mid to (x ∷ xs) ys h k =
    (h.0, Consecutive-append (suc from) mid to xs ys h.1 k)

Consecutive-drop :
    (n from to : ℕ) (xs : List TerminalLine)
    → Consecutive from xs to
    → (start : ℕ) × Consecutive start (drop n xs) to
Consecutive-drop zero from to xs h = (from, h)
Consecutive-drop (suc n) from to [] h = (from, h)
Consecutive-drop (suc n) from to (x ∷ xs) h = Consecutive-drop n (suc from) to xs h.1

number_lines-Consecutive :
    (stream : Text) (n m : ℕ) (xs : List Text)
    → n + length xs ≡ m
    → Consecutive n (number_lines stream n xs) m
unfolding number_lines
number_lines-Consecutive stream n m [] e = omega arith
number_lines-Consecutive stream n m (x ∷ xs) e =
    (refl, number_lines-Consecutive stream (suc n) m xs (omega arith))

-- A tool call as the store keeps it: at most the cap of lines, numbered on without a gap up to the count
-- of all lines ever seen, and fragments within their cap.
pub record IsBounded (c : ToolCall) : Type 0 where
  pub lines_capped : length c.lines ≤ terminal_line_cap
  pub stdout_capped : length c.stdout_partial ≤ partial_line_cap
  pub stderr_capped : length c.stderr_partial ≤ partial_line_cap
  pub first_seq : ℕ
  pub numbered : Consecutive first_seq c.lines c.line_count

add_lines-Consecutive :
    (lines additions : List TerminalLine) (from mid to : ℕ)
    → Consecutive from lines mid
    → Consecutive mid additions to
    → (start : ℕ) × Consecutive start (add_lines lines additions) to
add_lines-Consecutive lines [] from mid to h k = (from, rw k at h)
add_lines-Consecutive lines (a ∷ additions) from mid to h k =
    let all = Consecutive-append from mid to lines (a ∷ additions) h k in
    elim (Bool-cases (ltb terminal_line_cap (length (lines ++ a ∷ additions)))) [
      | inl e ↦ rw e (Consecutive-drop _ from to (lines ++ a ∷ additions) all)
      | inr e ↦ rw e (from, all)
    ]

length-add_lines :
    (lines additions : List TerminalLine)
    → length lines ≤ terminal_line_cap
    → length (add_lines lines additions) ≤ terminal_line_cap
length-add_lines lines [] h = h
length-add_lines lines (a ∷ additions) h = length-keep_last (lines ++ a ∷ additions)

-- One fold leaves the lines capped and numbered, and the fragment capped.
fold_chunk-bounds :
    (stream : Text) (lines : List TerminalLine) (count from : ℕ) (carry text : Text)
    → length lines ≤ terminal_line_cap
    → Consecutive from lines count
    → let r = fold_chunk stream lines count carry text in
      (length r.0 ≤ terminal_line_cap)
      × (length r.2 ≤ partial_line_cap)
      × ((start : ℕ) × Consecutive start r.0 r.1)
unfolding fold_chunk
fold_chunk-bounds stream lines count from carry text h k =
    let (done, part) = cut_last (split b'\n' (carry ++ text)) in
    let first = number_lines-Consecutive stream count (count + length done) done refl in
    elim (Bool-cases (ltb partial_line_cap (length part))) [
      | inl e ↦ rw e (
        length-add_lines lines _ h,
        omega arith,
        add_lines-Consecutive lines _ from count (suc (count + length done)) k (
            Consecutive-append count (count + length done) (suc (count + length done)) _ _ first
              (refl, refl)),
      )
      | inr e ↦ rw e (
        length-add_lines lines _ h,
        ground arith,
        add_lines-Consecutive lines _ from count _ k first,
      )
    ]

-- However much output arrives, a tool call stays bounded: at most 2000 lines, numbered without a gap up
-- to the count of all lines, and at most 64 KiB carried for each stream.
pub merge_chunk-IsBounded :
    (c : ToolCall) (p : CommandChunkPayload)
    → IsBounded c
    → IsBounded (merge_chunk_into_tool_call c p)
unfolding merge_chunk_into_tool_call
merge_chunk-IsBounded c p v = elim (Bool-cases (text_eq p.stream stream_stderr)) [
  | inl e ↦
      let (l, q, (s, k)) =
        fold_chunk-bounds stream_stderr c.lines c.line_count v.first_seq c.stderr_partial p.text
          v.lines_capped v.numbered in
      rw e (record {
        lines_capped = l;
        stdout_capped = v.stdout_capped;
        stderr_capped = q;
        first_seq = s;
        numbered = k;
      })
  | inr e ↦
      let (l, q, (s, k)) =
        fold_chunk-bounds stream_stdout c.lines c.line_count v.first_seq c.stdout_partial p.text
          v.lines_capped v.numbered in
      rw e (record {
        lines_capped = l;
        stdout_capped = q;
        stderr_capped = v.stderr_capped;
        first_seq = s;
        numbered = k;
      })
]
