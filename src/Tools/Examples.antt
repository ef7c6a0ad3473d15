-- ===== src/Tools/Examples.antt =====
-- A call of write_patch, and what both sides say of it.
use nomad_dev.Base.{
  ◌≡◌, refl, true, false, [], Text, lit, text_eq, Result, ok, err, pos, has_prefix, arith,
}
use nomad_dev.Base.Json.{Fields, str, end, field, get, has_key}
use nomad_dev.Fsops.Write.{mode_of, lowered, write_request}
use nomad_dev.Fsops.{bad_mode, arg_string}
use nomad_dev.Tools.{Invalid, unknown_tool, req_string, validate_tool}
use nomad_dev.Tools.Accepted.{engine_takes, validate_tool-engine_takes}

abbrev parse_url : Text → Result Text (Text × Text)
parse_url t = ok (lit "https", lit "go.dev")

abbrev others : Text → Fields → Result Invalid (Unit {0})
others tool args = err (unknown_tool tool)

abbrev args : Text → Fields
args mode =
    field (lit "path") (str (lit "f"))
      (field (lit "content") (str (lit "x")) (field (lit "mode") (str mode) end))

accepted : validate_tool parse_url others (lit "write_patch") (args (lit "Append")) ≡ ok tt
unfolding validate_tool text_eq req_string has_key get has_prefix
accepted = refl

named_mode : text_eq (mode_of (args (lit "Append"))) [] ≡ false
unfolding mode_of text_eq get lowered has_prefix
named_mode = refl

validate_tool-engine_takes_example :
    engine_takes (Unit {0}) (lit "write_patch") (args (lit "Append")) (pos 0) ≡ true
unfolding text_eq get
validate_tool-engine_takes_example =
    validate_tool-engine_takes (Unit {0}) parse_url others (lit "write_patch") (args (lit "Append"))
      (pos 0) refl accepted named_mode (omega arith)

-- The empty mode: Validate accepts it, and the engine refuses it.
empty_accepted : validate_tool parse_url others (lit "write_patch") (args []) ≡ ok tt
unfolding validate_tool text_eq req_string has_key get has_prefix
empty_accepted = refl

empty_refused : write_request {E = Unit {0}} (args []) (pos 0) ≡ err bad_mode
unfolding write_request text_eq arg_string has_key get mode_of
empty_refused = refl
