-- ===== src/Fsops/Write/Contents.antt =====
-- Lemmas about the reads and writes of computeApplyCodePatch, applyCodePatchInner and RestoreFile in
-- internal/fsops/run.go.
use nomad_dev.Base.{
  ℕ, ◌≡◌, ◌≢◌, refl, sym, ap, subst, ◌∙◌, inl, inr, Bool, true, false, [], ◌++◌, Option, none, some,
  Text, if◌then◌else◌, Result, ok, err, err-≢-ok, ok-injective, Result-cases, Bool-cases, ℤ,
}
use nomad_dev.Base.Json.{Fields}
use nomad_dev.Fsops.{
  Fault, os, no_such_file, is_directory, Disk, Engine, root_for_ctx, resolve_safe, within_root,
}
use nomad_dev.Fsops.Edit.{Plan, plan_edit, default_write_file_max_bytes, or_default}
use nomad_dev.Fsops.Edit.Unique.{plan_edit-original}
use nomad_dev.Fsops.Write.{
  PatchResult, attempted, fill, or_itself, plan_of_file, patch_request, compute_apply_code_patch,
  apply_code_patch_inner, restore_file,
}

-- What the file system promises of a path whose opening and writing succeed.
pub record Keeps {W E : Type 0} (disk : Disk W E) : Type 0 where
  pub truncated :
      (w : W) (p : Text)
      → (disk.open_truncated w p).1 ≡ none
      → disk.read_file (disk.open_truncated w p).0 p ≡ ok []
  pub created :
      (w : W) (p : Text)
      → (disk.open_created w p).1 ≡ none
      → disk.read_file (disk.open_created w p).0 p ≡ ok []
  pub appending :
      (w : W) (p s : Text)
      → disk.read_file w p ≡ ok s
      → (disk.open_appending w p).1 ≡ none
      → disk.read_file (disk.open_appending w p).0 p ≡ ok s
  pub made :
      (w : W) (d p s : Text)
      → disk.read_file w p ≡ ok s
      → disk.read_file (disk.mkdir_all w d).0 p ≡ ok s
  pub written :
      (w : W) (p s t : Text)
      → disk.read_file w p ≡ ok s
      → (disk.write w p t).1 ≡ none
      → disk.read_file (disk.write w p t).0 p ≡ ok (s ++ t)

pub attempted-ok :
    {W E A : Type 0} (r : W × Option E) (next : W → W × Result (Fault E) A) (a : A)
    → (attempted r next).1 ≡ ok a
    → (r.1 ≡ none) × ((next r.0).1 ≡ ok a) × (attempted r next ≡ next r.0)
attempted-ok (w, none) next a h = (refl, h, refl)
attempted-ok (w, some x) next a h = absurd (cc)

-- A file that is filled holds what it held when it was open, and the text.
pub fill-read :
    {W E A : Type 0} (disk : Disk W E) (opened : W × Option E) (p s t : Text) (a b : A)
    → Keeps disk
    → (opened.1 ≡ none → disk.read_file opened.0 p ≡ ok s)
    → (fill disk opened p t a).1 ≡ ok b
    → (disk.read_file (fill disk opened p t a).0 p ≡ ok (s ++ t)) × (a ≡ b)
fill-read disk opened p s t a b keeps before h =
    let first = attempted-ok opened _ b h in
    let second = attempted-ok (disk.write opened.0 p t) _ b first.1 in
    (
      subst (λ r. disk.read_file r.0 p ≡ ok (s ++ t)) (sym (first.2 ∙ second.2))
          (keeps.written opened.0 p s t (before first.0) second.0),
      ok-injective second.1,
    )

pub restore_file-read :
    {W E : Type 0} (disk : Disk W E) (e : Engine) (w : W) (sid p snapshot : Text)
    → Keeps disk
    → (restore_file disk e w sid p snapshot).1 ≡ ok tt
    → disk.read_file (restore_file disk e w sid p snapshot).0 p ≡ ok snapshot
unfolding restore_file
restore_file-read {W = W} {E = E} disk e w sid p snapshot keeps h =
    let w1 = (root_for_ctx disk e w sid).0 in
    elim (Result-cases (root_for_ctx disk e w sid).1) [
      | inr (x, f) ↦ absurd (err-≢-ok (rw (restore_file, f) at h))
      | inl (root, f) ↦
          elim (Bool-cases (within_root root (or_itself p (disk.eval_symlinks w1 p)))) [
            | inr g ↦ absurd (err-≢-ok (rw (restore_file, f, g) at h))
            | inl g ↦
                rw (restore_file, f, g)
                  (fill-read disk (disk.open_truncated w1 p) p [] snapshot tt tt keeps
                    (keeps.truncated w1 p) (rw (restore_file, f, g) at h)).0
          ]
    ]

not_planned :
    {W E : Type 0} (disk : Disk W E) (x : E) (path : Text) {plan : Plan}
    → (if disk.is_not_exist x then err (no_such_file path) else err (os x)) ≢ ok plan
not_planned disk x path h = elim (Bool-cases (disk.is_not_exist x)) [
  | inl e ↦ err-≢-ok (rw e at h)
  | inr e ↦ err-≢-ok (rw e at h)
]

-- Neither a directory nor a failed Stat turns a plan into another one.
unless_directory :
    {E : Type 0} (planned : Result (Fault E) Plan) (dir : Result E Bool) (path : Text) (plan : Plan)
    → ◌≡◌ {A = Result (Fault E) Plan}
        (elim dir [ ok true ↦ err (is_directory path) | ok false ↦ planned | err x ↦ planned ])
        (ok plan)
    → planned ≡ ok plan
unless_directory planned (ok true) path plan h = absurd (err-≢-ok h)
unless_directory planned (ok false) path plan h = h
unless_directory planned (err x) path plan h = h

pub plan_of_file-original :
    {W E : Type 0} (disk : Disk W E) (w : W) (path resolved anchor replace : Text) (max_bytes : ℕ)
    (plan : Plan)
    → plan_of_file disk w path resolved anchor replace max_bytes ≡ ok plan
    → (disk.read_file w resolved ≡ ok plan.original)
      × (plan.resolved ≡ resolved)
      × (plan_edit {E = E} path resolved plan.original anchor replace max_bytes ≡ ok plan)
unfolding plan_of_file
plan_of_file-original {E = E} disk w path resolved anchor replace max_bytes plan h =
    elim (Result-cases (disk.read_file w resolved)) [
      | inr (x, f) ↦ absurd (not_planned disk x path (rw (plan_of_file, f) at h))
      | inl (content, f) ↦
          let planned =
            unless_directory (plan_edit {E = E} path resolved content anchor replace max_bytes)
              (disk.is_dir w resolved) path plan (rw (plan_of_file, f) at h) in
          let (same, there) =
            plan_edit-original path resolved content anchor replace max_bytes plan planned in
          (
            f ∙ ap ok (sym same),
            there,
            subst (λ c. plan_edit {E = E} path resolved c anchor replace max_bytes ≡ ok plan)
                (sym same) planned,
          )
    ]

compute_apply_code_patch-original :
    {W E : Type 0} (disk : Disk W E) (e : Engine) (w : W) (sid : Text) (args : Fields) (limit : ℤ)
    (plan : Plan)
    → (compute_apply_code_patch disk e w sid args limit).1 ≡ ok plan
    → disk.read_file (compute_apply_code_patch disk e w sid args limit).0 plan.resolved
      ≡ ok plan.original
unfolding compute_apply_code_patch
compute_apply_code_patch-original {E = E} disk e w sid args limit plan h =
    elim (Result-cases (patch_request {E = E} args)) [
      | inr (x, f) ↦ absurd (err-≢-ok (rw (compute_apply_code_patch, f) at h))
      | inl (request, f) ↦ elim (Result-cases (resolve_safe disk e w sid request.0).1) [
        | inr (x, g) ↦ absurd (err-≢-ok (rw (compute_apply_code_patch, f, g) at h))
        | inl (resolved, g) ↦
            let (kept, there, _) =
              plan_of_file-original disk (resolve_safe disk e w sid request.0).0 request.0 resolved
                request.1 request.2 (or_default limit default_write_file_max_bytes) plan
                (rw (compute_apply_code_patch, f, g) at h) in
            rw (compute_apply_code_patch, f, there) kept
      ]
    ]

-- What apply_code_patch leaves: the file holds the planned text, and the snapshot is what it held.
pub apply_code_patch_inner-read :
    {W E : Type 0} (disk : Disk W E) (e : Engine) (w : W) (sid : Text) (args : Fields) (limit : ℤ)
    (snapshot p : Text) (r : PatchResult)
    → Keeps disk
    → (apply_code_patch_inner disk e w sid args limit).1 ≡ ok (snapshot, p, r)
    → (plan : Plan) × ((compute_apply_code_patch disk e w sid args limit).1 ≡ ok plan)
      × (disk.read_file (compute_apply_code_patch disk e w sid args limit).0 p ≡ ok snapshot)
      × (disk.read_file (apply_code_patch_inner disk e w sid args limit).0 p ≡ ok plan.new_content)
      × (plan.original ≡ snapshot)
      × (plan.resolved ≡ p)
unfolding apply_code_patch_inner
apply_code_patch_inner-read disk e w sid args limit snapshot p r keeps h =
    let c = compute_apply_code_patch disk e w sid args limit in
    elim (Result-cases c.1) [
      | inr (x, f) ↦ absurd (err-≢-ok (rw (apply_code_patch_inner, f) at h))
      | inl (plan, f) ↦
          let filled =
            fill-read disk (disk.open_truncated c.0 plan.resolved) plan.resolved [] plan.new_content
              _ _ keeps (keeps.truncated c.0 plan.resolved) (rw (apply_code_patch_inner, f) at h) in
          let placed : plan.resolved ≡ p = ap (λ x. x.1) filled.1 in
          let kept : plan.original ≡ snapshot = ap (λ x. x.0) filled.1 in
          (
            plan,
            f,
            subst (λ q. disk.read_file c.0 q ≡ ok snapshot) placed
                (subst (λ t. disk.read_file c.0 plan.resolved ≡ ok t) kept
                  (compute_apply_code_patch-original disk e w sid args limit plan f)),
            subst
                (λ q.
                  disk.read_file (apply_code_patch_inner disk e w sid args limit).0 q
                  ≡ ok plan.new_content)
                placed (rw (apply_code_patch_inner, f) filled.0),
            kept,
            placed,
          )
    ]

pub fill-ok :
    {W E A : Type 0} (disk : Disk W E) (opened : W × Option E) (p t : Text) (a b : A)
    → (fill disk opened p t a).1 ≡ ok b
    → a ≡ b
fill-ok disk opened p t a b h =
    let first = attempted-ok opened _ b h in
    ok-injective (attempted-ok (disk.write opened.0 p t) _ b first.1).1
