-- ===== src/Mobile/Turns.antt =====
-- findTurn and findToolCall of internal/mobile/state/ingest.go, each with the write through the
-- pointer that it returns: they give the turns after the write, or none for a nil pointer.
use nomad_dev.Base.{List, [], ◌∷◌, Option, none, some, Text, text_eq, if◌then◌else◌}
use nomad_dev.Mobile.State.{Turn, ToolCall}

-- The pointer is to the first turn of that intent.
unfoldable pub at_turn : Text → (Turn → Turn) → List Turn → Option (List Turn)
at_turn id f [] = none
at_turn id f (t ∷ ts) =
    if text_eq t.intent_id id
    then some (f t ∷ ts)
    else elim (at_turn id f ts) [ none ↦ none | some ts' ↦ some (t ∷ ts') ]

unfoldable pub modify_turn : Text → (Turn → Turn) → List Turn → Option (List Turn)
modify_turn id f ts = if text_eq id [] then none else at_turn id f ts

-- The pointer is to the first call of that id, in the first turn that has one.
unfoldable pub at_call : Text → (ToolCall → ToolCall) → List ToolCall → Option (List ToolCall)
at_call id f [] = none
at_call id f (c ∷ cs) =
    if text_eq c.command_id id
    then some (f c ∷ cs)
    else elim (at_call id f cs) [ none ↦ none | some cs' ↦ some (c ∷ cs') ]

unfoldable pub at_call_of_turn : Text → (ToolCall → ToolCall) → List Turn → Option (List Turn)
at_call_of_turn id f [] = none
at_call_of_turn id f (t ∷ ts) = elim (at_call id f t.tool_calls) [
  | some cs ↦ some (record t { tool_calls = cs } ∷ ts)
  | none ↦ elim (at_call_of_turn id f ts) [ none ↦ none | some ts' ↦ some (t ∷ ts') ]
]

unfoldable pub modify_call : Text → (ToolCall → ToolCall) → List Turn → Option (List Turn)
modify_call id f ts = if text_eq id [] then none else at_call_of_turn id f ts
