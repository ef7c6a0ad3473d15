-- ===== src/Fsops/Write/Asked.antt =====
-- Lemmas about the arguments of computeApplyCodePatch in internal/fsops/run.go.
use nomad_dev.Base.{
  ℕ, ◌≡◌, ◌≢◌, arith, text_eq_iff, refl, sym, ap, ◌∙◌, inl, inr, [], ◌∷◌, ◌++◌, Text, lit, ok,
  err-≢-ok, ok-injective, Result-cases, >>=-eq-ok, ℤ,
}
use nomad_dev.Base.Json.{Fields}
use nomad_dev.Fsops.{Disk, Engine, resolve_safe, arg_string, arg_string_allow_empty}
use nomad_dev.Fsops.Edit.{Plan, plan_edit, default_write_file_max_bytes, or_default}
use nomad_dev.Fsops.Edit.Unique.{Occurs, plan_edit_lem}
use nomad_dev.Fsops.Write.{patch_request, compute_apply_code_patch}
use nomad_dev.Fsops.Write.Contents.{plan_of_file-original}

-- The arguments name the file, and the texts by which the new content comes from the snapshot.
pub record Asked {W E : Type 0} (disk : Disk W E) (e : Engine) (w : W) (sid : Text) (args : Fields)
    (snapshot resolved new_content : Text) : Type 0 where
  pub path : Text
  pub anchor : Text
  pub replace : Text
  pub path_asked : arg_string {E = E} args (lit "file_path") ≡ ok path
  pub anchor_asked : arg_string {E = E} args (lit "search_string") ≡ ok anchor
  pub replace_asked : arg_string_allow_empty {E = E} args (lit "replace_string") ≡ ok replace
  pub placed : (resolve_safe disk e w sid path).1 ≡ ok resolved
  pub at : Occurs anchor snapshot
  pub new_text : new_content ≡ at.front ++ (replace ++ at.back)

arg_string-nonempty :
    {E : Type 0} (args : Fields) (key : Text) → arg_string {E = E} args key ≢ ok []
unfolding arg_string
arg_string-nonempty args key h = grind (arith, text_eq_iff [] [])

patch_request-ok :
    {E : Type 0} (args : Fields) (request : Text × Text × Text)
    → patch_request {E = E} args ≡ ok request
    → (arg_string {E = E} args (lit "file_path") ≡ ok request.0)
      × (arg_string {E = E} args (lit "search_string") ≡ ok request.1)
      × (arg_string_allow_empty {E = E} args (lit "replace_string") ≡ ok request.2)
unfolding patch_request
patch_request-ok args request h =
    let (path, e, k) = >>=-eq-ok (arg_string args (lit "file_path")) _ h in
    let (anchor, f, k1) = >>=-eq-ok (arg_string args (lit "search_string")) _ k in
    let (replace, g, k2) = >>=-eq-ok (arg_string_allow_empty args (lit "replace_string")) _ k1 in
    let made = ok-injective k2 in
    (e ∙ ap (λ x. ok (x.0)) made, f ∙ ap (λ x. ok (x.1)) made, g ∙ ap (λ x. ok (x.2)) made)

-- A plan for an anchor that argString gave.
planned :
    {E : Type 0} (path resolved content anchor replace : Text) (max_bytes : ℕ) (plan : Plan)
    → anchor ≢ []
    → plan_edit {E = E} path resolved content anchor replace max_bytes ≡ ok plan
    → (at : Occurs anchor content) × (plan.new_content ≡ at.front ++ (replace ++ at.back))
planned path resolved content [] replace max_bytes plan n h = absurd (n refl)
planned path resolved content (a ∷ anchor) replace max_bytes plan n h =
    let (at, made, _, _, _) =
      plan_edit_lem path resolved content a anchor replace max_bytes plan h in
    (at, made)

pub compute_apply_code_patch-Asked :
    {W E : Type 0} (disk : Disk W E) (e : Engine) (w : W) (sid : Text) (args : Fields) (limit : ℤ)
    (plan : Plan)
    → (compute_apply_code_patch disk e w sid args limit).1 ≡ ok plan
    → Asked disk e w sid args plan.original plan.resolved plan.new_content
unfolding compute_apply_code_patch
compute_apply_code_patch-Asked {E = E} disk e w sid args limit plan h =
    elim (Result-cases (patch_request {E = E} args)) [
      | inr (x, f) ↦ absurd (err-≢-ok (rw (compute_apply_code_patch, f) at h))
      | inl (request, f) ↦ elim (Result-cases (resolve_safe disk e w sid request.0).1) [
        | inr (x, g) ↦ absurd (err-≢-ok (rw (compute_apply_code_patch, f, g) at h))
        | inl (resolved, g) ↦
            let (path_asked, anchor_asked, replace_asked) = patch_request-ok args request f in
            let (_, there, edit) =
              plan_of_file-original disk (resolve_safe disk e w sid request.0).0 request.0 resolved
                request.1 request.2 (or_default limit default_write_file_max_bytes) plan
                (rw (compute_apply_code_patch, f, g) at h) in
            let (at, made) =
              planned request.0 resolved plan.original request.1 request.2 _ plan
                (λ n. arg_string-nonempty args _ (anchor_asked ∙ ap ok n)) edit in
            record {
              path = request.0;
              anchor = request.1;
              replace = request.2;
              path_asked = path_asked;
              anchor_asked = anchor_asked;
              replace_asked = replace_asked;
              placed = g ∙ ap ok (sym there);
              at = at;
              new_text = made;
            }
      ]
    ]
