-- ===== src/Tools/Accepted.antt =====
-- Lemmas about Validate of internal/middleware/tools.go beside the argument checks of internal/fsops/run.go.
use nomad_dev.Base.{
  ◌≤◌, ◌≡◌, refl, sym, subst, ◌⊎◌, inl, inr, Bool, true, false, not, ◌&&◌, ◌||◌, [], Text, lit,
  text_eq, text_eq_iff, text_eq_refl, true-≢-false, length, ltb, if◌then◌else◌, Result, ok, err,
  >>=-eq-ok, refuse_if-eq-ok, ℤ, arith,
}
use nomad_dev.Base.Json.{Fields, get, str_or_empty}
use nomad_dev.Fsops.{arg_string, arg_string_allow_empty}
use nomad_dev.Fsops.Edit.{or_default, default_write_file_max_bytes}
use nomad_dev.Fsops.Write.{lowered, mode_of, write_request, patch_request}
use nomad_dev.Tools.{
  Invalid, req_string, present_string, validate_named, validate_write_patch,
  validate_apply_code_patch, validate_tool,
}

req_string-arg_string :
    {E : Type 0} (args : Fields) (key s : Text)
    → req_string args key ≡ ok s
    → arg_string {E = E} args key ≡ ok s
unfolding req_string arg_string
req_string-arg_string args key s h = ground arith

req_string-get :
    (args : Fields) (key s : Text) → req_string args key ≡ ok s → str_or_empty (get key args) ≡ s
unfolding req_string
req_string-get args key s h = ground arith

abbrev pub is_ok : {E A : Type 0} → Result E A → Bool
is_ok (ok a) = true
is_ok (err e) = false

present_string-arg_string :
    (E : Type 0) (args : Fields) (key : Text)
    → present_string key args ≡ ok tt
    → is_ok (arg_string_allow_empty {E = E} args key) ≡ true
unfolding present_string arg_string_allow_empty
present_string-arg_string E args key h = ground arith

ok-is_ok : {E A : Type 0} {a : A} (r : Result E A) → r ≡ ok a → is_ok r ≡ true
ok-is_ok r h = rw h refl

is_ok-cases : {E A : Type 0} (r : Result E A) → is_ok r ≡ true → (a : A) × (r ≡ ok a)
is_ok-cases (ok a) h = (a, refl)
is_ok-cases (err e) h = absurd (true-≢-false (sym h))

-- The modes that Validate lets through are those of the engine, but for the empty one.
mode_of-known :
    (args : Fields)
    → (not (text_eq (lowered (str_or_empty (get (lit "mode") args))) [])
        && (not (text_eq (lowered (str_or_empty (get (lit "mode") args))) (lit "overwrite"))
            && not (text_eq (lowered (str_or_empty (get (lit "mode") args))) (lit "append"))))
      ≡ false
    → text_eq (mode_of args) [] ≡ false
    → (not (text_eq (mode_of args) (lit "overwrite"))
        && not (text_eq (mode_of args) (lit "append")))
      ≡ false
unfolding mode_of
mode_of-known args h n = ground (arith, text_eq_refl (lit "overwrite"))

write_patch-is_ok :
    (E : Type 0) (args : Fields) (limit : ℤ)
    → validate_write_patch args ≡ ok tt
    → text_eq (mode_of args) [] ≡ false
    → length (str_or_empty (get (lit "content") args))
      ≤ or_default limit default_write_file_max_bytes
    → is_ok (write_request {E = E} args limit) ≡ true
unfolding validate_write_patch write_request
write_patch-is_ok E args limit h n fits =
    let a = >>=-eq-ok _ _ h in
    let c = >>=-eq-ok _ _ a.2 in
    let known = mode_of-known args (refuse_if-eq-ok _ _ c.2) n in
    let short : ltb (or_default limit default_write_file_max_bytes) (length c.0) ≡ false =
      ground (arith, fits, req_string-get args (lit "content") c.0 c.1) in
    rw
      (
        write_request,
        req_string-arg_string {E = E} args (lit "path") a.0 a.1,
        req_string-arg_string {E = E} args (lit "content") c.0 c.1,
        known,
        short,
      )
      refl

apply_code_patch-is_ok :
    (E : Type 0) (args : Fields)
    → validate_apply_code_patch args ≡ ok tt
    → is_ok (patch_request {E = E} args) ≡ true
unfolding validate_apply_code_patch patch_request
apply_code_patch-is_ok E args h =
    let a = >>=-eq-ok _ _ h in
    let c = >>=-eq-ok _ _ a.2 in
    let d = >>=-eq-ok _ _ c.2 in
    let (replace, there) =
      is_ok-cases (arg_string_allow_empty {E = E} args (lit "replace_string"))
        (present_string-arg_string E args (lit "replace_string") d.1) in
    rw
      (
        patch_request,
        req_string-arg_string {E = E} args (lit "file_path") a.0 a.1,
        req_string-arg_string {E = E} args (lit "search_string") c.0 c.1,
        there,
      )
      refl

named-is_ok :
    (E : Type 0) (args : Fields) (key : Text)
    → validate_named key args ≡ ok tt
    → is_ok (arg_string {E = E} args key) ≡ true
unfolding validate_named
named-is_ok E args key h =
    let a = >>=-eq-ok _ _ h in
    ok-is_ok (arg_string {E = E} args key) (req_string-arg_string args key a.0 a.1)

-- Whether the handler of one of the engine's tools gets past its argument checks.
unfoldable pub engine_takes : (E : Type 0) → Text → Fields → ℤ → Bool
engine_takes E tool args limit =
    if text_eq tool (lit "read_file") || text_eq tool (lit "list_dir")
    then is_ok (arg_string {E = E} args (lit "path"))
    else if text_eq tool (lit "write_patch")
    then is_ok (write_request {E = E} args limit)
    else if text_eq tool (lit "apply_code_patch")
    then is_ok (patch_request {E = E} args)
    else false

abbrev pub is_engine_tool : Text → Bool
is_engine_tool tool =
    (text_eq tool (lit "read_file") || text_eq tool (lit "list_dir"))
    || (text_eq tool (lit "write_patch") || text_eq tool (lit "apply_code_patch"))

either : (a b : Bool) → (a || b) ≡ true → (a ≡ true) ⊎ (b ≡ true)
either true b h = inl refl
either false b h = inr h

engine_tool-cases :
    (tool : Text)
    → is_engine_tool tool ≡ true
    → ((text_eq tool (lit "read_file") ≡ true) ⊎ (text_eq tool (lit "list_dir") ≡ true))
      ⊎ ((text_eq tool (lit "write_patch") ≡ true) ⊎ (text_eq tool (lit "apply_code_patch") ≡ true))
engine_tool-cases tool t =
    elim (either (text_eq tool (lit "read_file") || text_eq tool (lit "list_dir")) _ t) [
      | inl e ↦ inl (either (text_eq tool (lit "read_file")) _ e)
      | inr e ↦ inr (either (text_eq tool (lit "write_patch")) _ e)
    ]

-- A call of a tool of the file engine that Validate accepts gets past the engine's own argument checks, so an operator is
-- not asked about a call whose arguments cannot be used: when its mode is not the empty text, which only
-- Validate takes for "overwrite", and its content is within the configured limit.
pub validate_tool-engine_takes :
    (E : Type 0) (parse_url : Text → Result Text (Text × Text))
    (others : Text → Fields → Result Invalid (Unit {0})) (tool : Text) (args : Fields) (limit : ℤ)
    → is_engine_tool tool ≡ true
    → validate_tool parse_url others tool args ≡ ok tt
    → text_eq (mode_of args) [] ≡ false
    → length (str_or_empty (get (lit "content") args))
      ≤ or_default limit default_write_file_max_bytes
    → engine_takes E tool args limit ≡ true
unfolding validate_tool engine_takes text_eq
validate_tool-engine_takes E parse_url others tool args limit t h n fits =
    let at = λ (name : Text). λ (e : text_eq tool name ≡ true).
      λ (done : validate_tool parse_url others name args ≡ ok tt
          → engine_takes E name args limit ≡ true).
        subst
          (λ x. validate_tool parse_url others x args ≡ ok tt → engine_takes E x args limit ≡ true)
          (sym ((text_eq_iff tool name).0 e)) done h in
    elim (engine_tool-cases tool t) [
      | inl (inl e) ↦ at (lit "read_file") e (λ k. named-is_ok E args (lit "path") k)
      | inl (inr e) ↦ at (lit "list_dir") e (λ k. named-is_ok E args (lit "path") k)
      | inr (inl e) ↦ at (lit "write_patch") e (λ k. write_patch-is_ok E args limit k n fits)
      | inr (inr e) ↦ at (lit "apply_code_patch") e (λ k. apply_code_patch-is_ok E args k)
    ]
