-- ===== src/Auth/Scopes.antt =====
-- internal/auth/scopes.go.
use nomad_dev.Base.{
  ◌≡◌, refl, ◌↔◌, ◌⊎◌, inl, inr, ap, ◌≢◌, Bool, true, false, not, ◌&&◌, ◌||◌, List, [], ◌∷◌, ◌++◌,
  arith, Text, lit, text_eq, text_eq_iff, has_prefix, has_prefix-append, if◌then◌else◌, any_of, In,
  Bool-cases, sym, ◌∙◌, true-≢-false,
}

abbrev pub scope_tools_all : Text
scope_tools_all = lit "tools:*"

abbrev pub scope_tools_github : Text
scope_tools_github = lit "tools:github"

abbrev pub scope_prefix_tools : Text
scope_prefix_tools = lit "tools:"

abbrev pub scope_config_read : Text
scope_config_read = lit "config:read"

abbrev pub scope_config_write : Text
scope_config_write = lit "config:write"

abbrev pub scope_prefix_config : Text
scope_prefix_config = lit "config:"

abbrev pub github_prefix : Text
github_prefix = lit "github_"

-- One round of the second loop of HasConfigScope.
unfoldable pub grants_config : Bool → Text → Bool
grants_config write s = text_eq s scope_config_write || (not write && text_eq s scope_config_read)

unfoldable pub has_config_scope : List Text → Bool → Bool
has_config_scope scopes write =
    if any_of (λ s. has_prefix s scope_prefix_config) scopes
    then any_of (grants_config write) scopes
    else true

-- One round of the second loop of HasToolScope.
unfoldable pub grants_tool : Text → Text → Bool
grants_tool tool s =
    (text_eq s scope_tools_all || text_eq s (scope_prefix_tools ++ tool))
    || (text_eq s scope_tools_github && has_prefix tool github_prefix)

unfoldable pub has_tool_scope : List Text → Text → Bool
has_tool_scope scopes tool =
    if text_eq tool []
    then false
    else if any_of (λ s. has_prefix s scope_prefix_tools) scopes
    then any_of (grants_tool tool) scopes
    else true

-- A test that passes somewhere passes at a member, and the other way round.
pub any_of-In :
    (p : Text → Bool) (xs : List Text) → any_of p xs ≡ true → (x : Text) × In x xs × (p x ≡ true)
any_of-In p [] h = absurd (cc)
any_of-In p (x ∷ xs) h = elim (Bool-cases (p x)) [
  | inl e ↦ (x, inl refl, e)
  | inr e ↦ let (y, m, k) = any_of-In p xs (ground arith) in (y, inr m, k)
]

pub In-any_of :
    (p : Text → Bool) (x : Text) (xs : List Text) → In x xs → p x ≡ true → any_of p xs ≡ true
In-any_of p x [] m h = absurd m
In-any_of p x (y ∷ xs) (inl e) h = ground (arith, ap p e)
In-any_of p x (y ∷ xs) (inr m) h = ground (arith, In-any_of p x xs m h)

-- What a strict token must list for a tool: the wildcard, the tool itself, or the GitHub family.
abbrev pub Lists : List Text → Text → Type 0
Lists scopes tool =
    In scope_tools_all scopes
    ⊎ (In (scope_prefix_tools ++ tool) scopes
        ⊎ (In scope_tools_github scopes × (has_prefix tool github_prefix ≡ true)))

grants-Lists :
    (scopes : List Text) (tool s : Text)
    → In s scopes
    → grants_tool tool s ≡ true
    → Lists scopes tool
unfolding grants_tool
grants-Lists scopes tool s m h = ground (
  arith,
  text_eq_iff s scope_tools_all,
  text_eq_iff s (scope_prefix_tools ++ tool),
  text_eq_iff s scope_tools_github,
)

-- The scopes of a token that lists no `tools:` scope at all.
abbrev pub IsLegacy : List Text → Type 0
IsLegacy scopes = (s : Text) → In s scopes → has_prefix s scope_prefix_tools ≡ false

Lists-grants :
    (scopes : List Text) (tool : Text) → Lists scopes tool → any_of (grants_tool tool) scopes ≡ true
unfolding grants_tool
Lists-grants scopes tool (inl m) =
    In-any_of (grants_tool tool) _ scopes m
      (ground (arith, text_eq_iff scope_tools_all scope_tools_all))
Lists-grants scopes tool (inr (inl m)) =
    In-any_of (grants_tool tool) _ scopes m
      (ground (arith, text_eq_iff (scope_prefix_tools ++ tool) (scope_prefix_tools ++ tool)))
Lists-grants scopes tool (inr (inr (m, g))) =
    In-any_of (grants_tool tool) _ scopes m
      (ground (arith, text_eq_iff scope_tools_github scope_tools_github))

IsLegacy-any_of :
    (scopes : List Text)
    → IsLegacy scopes
    → any_of (λ s. has_prefix s scope_prefix_tools) scopes ≡ false
IsLegacy-any_of [] h = refl
IsLegacy-any_of (s ∷ scopes) h = rw (h s (inl refl)) (IsLegacy-any_of scopes (λ t m. h t (inr m)))

any_of-IsLegacy :
    (scopes : List Text)
    → any_of (λ s. has_prefix s scope_prefix_tools) scopes ≡ false
    → IsLegacy scopes
any_of-IsLegacy scopes h s m = elim (Bool-cases (has_prefix s scope_prefix_tools)) [
  | inl e ↦ cc (In-any_of (λ t. has_prefix t scope_prefix_tools) s scopes m e)
  | inr e ↦ e
]

-- A token may call a named tool exactly when it lists no `tools:` scope at all, or lists the wildcard,
-- the tool, or, for a GitHub tool, the family.
pub has_tool_scope_iff :
    (scopes : List Text) (tool : Text)
    → tool ≢ []
    → (has_tool_scope scopes tool ≡ true) ↔ (IsLegacy scopes ⊎ Lists scopes tool)
unfolding has_tool_scope
has_tool_scope_iff scopes tool n =
    let named : text_eq tool [] ≡ false = ground (arith, text_eq_iff tool []) in
    elim (Bool-cases (any_of (λ s. has_prefix s scope_prefix_tools) scopes)) [
      | inl strict ↦ (
        λ h.
            let (s, m, g) = any_of-In (grants_tool tool) scopes (rw (named, strict) at h) in
            inr (grants-Lists scopes tool s m g),
        λ h. elim h [
          | inl legacy ↦ cc (IsLegacy-any_of scopes legacy)
          | inr listed ↦ rw (named, strict) (Lists-grants scopes tool listed)
        ],
      )
      | inr legacy ↦ (λ h. inl (any_of-IsLegacy scopes legacy), λ h. rw (named, legacy))
    ]

-- The family scope is not narrowed by anything else that the token lists: with `tools:github` every
-- GitHub tool is allowed, also beside scopes for single GitHub tools.
pub has_tool_scope-github :
    (scopes : List Text) (rest : Text)
    → In scope_tools_github scopes
    → has_tool_scope scopes (github_prefix ++ rest) ≡ true
has_tool_scope-github scopes rest m =
    (has_tool_scope_iff scopes (github_prefix ++ rest) (λ e. cc)).1
      (inr (inr (inr (m, has_prefix-append github_prefix rest))))

-- A token may call a named tool that is not for GitHub exactly when it lists no `tools:` scope at all, or lists the
-- wildcard or the tool.
pub has_tool_scope-plain_iff :
    (scopes : List Text) (tool : Text)
    → tool ≢ []
    → has_prefix tool github_prefix ≡ false
    → (has_tool_scope scopes tool ≡ true)
      ↔ (IsLegacy scopes ⊎ (In (lit "tools:*") scopes ⊎ In (lit "tools:" ++ tool) scopes))
has_tool_scope-plain_iff scopes tool n plain =
    let (to, from) = has_tool_scope_iff scopes tool n in
    (
      λ h. elim (to h) [
        | inl legacy ↦ inl legacy
        | inr (inl all) ↦ inr (inl all)
        | inr (inr (inl one)) ↦ inr (inr one)
        | inr (inr (inr (m, g))) ↦ absurd (true-≢-false (sym g ∙ plain))
      ],
      λ h. from (elim h [
        | inl legacy ↦ inl legacy
        | inr (inl all) ↦ inr (inl all)
        | inr (inr one) ↦ inr (inr (inl one))
      ]),
    )

any_of_append :
    (xs ys : List Text)
    → any_of (λ s. has_prefix s scope_prefix_tools) ys ≡ true
    → any_of (λ s. has_prefix s scope_prefix_tools) (xs ++ ys) ≡ true
any_of_append [] ys h = h
any_of_append (x ∷ xs) ys h = ground (arith, any_of_append xs ys h)

-- Of a strict token, more scopes never take a tool away.
pub has_tool_scope_mono :
    (more scopes : List Text) (tool : Text)
    → any_of (λ s. has_prefix s scope_prefix_tools) scopes ≡ true
    → has_tool_scope scopes tool ≡ true
    → has_tool_scope (more ++ scopes) tool ≡ true
unfolding has_tool_scope
has_tool_scope_mono [] scopes tool strict h = h
has_tool_scope_mono (s ∷ more) scopes tool strict h =
    ground (arith, has_tool_scope_mono more scopes tool strict h, any_of_append more scopes strict)

-- What a config token must list: `config:write`, or for reading `config:read`.
abbrev pub ListsConfig : List Text → Bool → Type 0
ListsConfig scopes write =
    In scope_config_write scopes ⊎ ((write ≡ false) × In scope_config_read scopes)

-- Config access is allowed exactly when the token lists no `config:` scope, or lists `config:write`, or
-- asks to read and lists `config:read`. So write access implies read access.
pub has_config_scope_iff :
    (scopes : List Text) (write : Bool)
    → (has_config_scope scopes write ≡ true)
      ↔ ((any_of (λ s. has_prefix s scope_prefix_config) scopes ≡ false) ⊎ ListsConfig scopes write)
unfolding has_config_scope grants_config
has_config_scope_iff scopes write = (
  λ h. elim (Bool-cases (any_of (λ s. has_prefix s scope_prefix_config) scopes)) [
    | inr legacy ↦ inl legacy
    | inl strict ↦
        let (s, m, g) = any_of-In (grants_config write) scopes (rw strict at h) in
        inr (ground (arith, text_eq_iff s scope_config_write, text_eq_iff s scope_config_read))
  ],
  λ h. elim (Bool-cases (any_of (λ s. has_prefix s scope_prefix_config) scopes)) [
    | inr legacy ↦ rw legacy
    | inl strict ↦ rw strict (elim h [
      | inl legacy ↦ cc
      | inr (inl m) ↦
          In-any_of (grants_config write) _ scopes m
            (ground (arith, text_eq_iff scope_config_write scope_config_write))
      | inr (inr (r, m)) ↦
          In-any_of (grants_config write) _ scopes m
            (ground (arith, text_eq_iff scope_config_read scope_config_read))
    ])
  ],
)
