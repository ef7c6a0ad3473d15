-- ===== src/Approval/Policy.antt =====
-- Lemmas about RequiresApproval and AddRequired of internal/middleware/approver.go.
use nomad_dev.Base.{
  ℕ, ◌*◌, ◌≡◌, ap, ◌↔◌, inl, inr, ◌⊎◌, ◌≢◌, Bool, true, false, not, List, [], ◌∷◌, ◌++◌, arith,
  Text, lit, text_eq, text_eq_iff, has_prefix, if◌then◌else◌, any_of, In, ltb, keep_if, Bool-cases,
  ◌∙◌, subst, text_eq_refl, In-append_left, In-append_right,
}
use nomad_dev.Auth.Scopes.{any_of-In, In-any_of}

-- Tool names of internal/middleware/tools.go.
abbrev pub github_tool_prefix : Text
github_tool_prefix = lit "github_"

pub record Policy : Type 0 where
  pub required_tools : List Text
  pub auto_grant : Bool
  pub timeout : ℕ

abbrev pub is_named : Text → Bool
is_named t = not (text_eq t [])

-- A set; the empty name never enters it. Without a positive timeout it is a minute.
unfoldable pub new_policy_approver : List Text → Bool → ℕ → Policy
new_policy_approver required_tools auto_grant timeout = record {
  required_tools = keep_if is_named required_tools;
  auto_grant = auto_grant;
  timeout = if ltb 0 timeout then timeout else 60 * 1000000000;
}

unfoldable pub add_required : Policy → List Text → Policy
add_required p names = record p { required_tools = keep_if is_named names ++ p.required_tools }

abbrev pub reason_for : Text → Text
reason_for tool =
    if text_eq tool (lit "execute_script")
    then lit "runs an arbitrary shell script"
    else if text_eq tool (lit "write_patch")
    then lit "writes to the host workspace"
    else if text_eq tool (lit "apply_code_patch")
    then lit "edits a file via search/replace"
    else if text_eq tool (lit "monitor_daemon")
    then lit "starts a long-running process on the host"
    else if has_prefix tool github_tool_prefix
    then lit "mutates GitHub state"
    else lit "configured policy"

unfoldable pub requires_approval : Policy → Text → Bool × Text
requires_approval p tool =
    if p.auto_grant
    then (false, [])
    else if any_of (λ t. text_eq t tool) p.required_tools
    then (true, reason_for tool)
    else (false, [])

keep_if-In :
    (q : Text → Bool) (x : Text) (xs : List Text) → (In x (keep_if q xs)) ↔ (In x xs × (q x ≡ true))
keep_if-In q x [] = (λ h. absurd h, λ h. absurd h.0)
keep_if-In q x (y ∷ xs) = elim (Bool-cases (q y)) [
  | inl e ↦ rw e (
    λ h. elim h [
      | inl same ↦ (inl same, ap q same ∙ e)
      | inr m ↦ let (there, ok) = (keep_if-In q x xs).0 m in (inr there, ok)
    ],
    λ h. elim h.0 [ inl same ↦ inl same | inr m ↦ inr ((keep_if-In q x xs).1 (m, h.1)) ],
  )
  | inr e ↦ rw e (
    λ h. let (there, ok) = (keep_if-In q x xs).0 h in (inr there, ok),
    λ h. elim h.0 [ inl same ↦ absurd (cc (ap q same)) | inr m ↦ (keep_if-In q x xs).1 (m, h.1) ],
  )
]

In-append : (x : Text) (xs ys : List Text) → In x (xs ++ ys) → In x xs ⊎ In x ys
In-append x [] ys h = inr h
In-append x (y ∷ xs) ys (inl e) = inl (inl e)
In-append x (y ∷ xs) ys (inr h) = elim (In-append x xs ys h) [ inl m ↦ inl (inr m) | inr m ↦ inr m ]

requires-In :
    (p : Policy) (tool : Text)
    → ((requires_approval p tool).0 ≡ true) ↔ ((p.auto_grant ≡ false) × In tool p.required_tools)
unfolding requires_approval
requires-In p tool = (
  λ h. (
    ground arith,
    (let (t, m, e) = any_of-In (λ t. text_eq t tool) p.required_tools (ground arith) in
        subst (λ u. In u p.required_tools) ((text_eq_iff t tool).0 e) m),
  ),
  λ h. rw (h.0, In-any_of (λ t. text_eq t tool) tool p.required_tools h.1 (text_eq_refl tool)),
)

-- A call needs approval exactly when calls are not granted automatically and its tool is named, at
-- construction or later by AddRequired; the empty name in either list gates nothing.
pub requires_approval_iff :
    (required names : List Text) (auto_grant : Bool) (timeout : ℕ) (tool : Text)
    → let p = add_required (new_policy_approver required auto_grant timeout) names in
      ((requires_approval p tool).0 ≡ true)
      ↔ ((auto_grant ≡ false) × (tool ≢ []) × (In tool names ⊎ In tool required))
unfolding add_required new_policy_approver
requires_approval_iff required names auto_grant timeout tool = (
  λ h.
      let (off, m) =
        (requires-In (add_required (new_policy_approver required auto_grant timeout) names) tool).0
          h in
      elim (In-append tool (keep_if is_named names) _ m) [
        | inl late ↦
            let (there, named) = (keep_if-In is_named tool names).0 late in
            (off, ground (arith, text_eq_iff tool []), inl there)
        | inr early ↦
            let (there, named) = (keep_if-In is_named tool required).0 early in
            (off, ground (arith, text_eq_iff tool []), inr there)
      ],
  λ h.
      let named : is_named tool ≡ true = ground (arith, text_eq_iff tool [], h.1) in
      (requires-In (add_required (new_policy_approver required auto_grant timeout) names) tool).1 (
        h.0,
        elim h.2 [
          | inl late ↦
              In-append_left tool (keep_if is_named names) _
                ((keep_if-In is_named tool names).1 (late, named))
          | inr early ↦
              In-append_right tool (keep_if is_named names) _
                ((keep_if-In is_named tool required).1 (early, named))
        ],
      ),
)
