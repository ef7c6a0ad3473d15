-- ===== src/Auth/Examples.antt =====
-- Runs of the scope checks and of the revocation list.
use nomad_dev.Base.{
  has_prefix, arith, In, false, ◌≡◌, refl, ◌↔◌, ◌⊎◌, List, [], ◌∷◌, some, Text, lit, lookup, true,
}
use nomad_dev.Auth.Scopes.{has_tool_scope, scope_tools_github, IsLegacy, has_tool_scope-plain_iff}
use nomad_dev.Auth.Revocation.{Revoked, revoke, is_revoked, prunes, prune, run, revoke-run}

abbrev scopes : List Text
scopes = scope_tools_github ∷ lit "tools:read_file" ∷ []

has_tool_scope-plain_iff_example :
    (has_tool_scope scopes (lit "list_dir") ≡ true)
    ↔ (IsLegacy scopes ⊎ (In (lit "tools:*") scopes ⊎ In (lit "tools:list_dir") scopes))
unfolding has_prefix
has_tool_scope-plain_iff_example = has_tool_scope-plain_iff scopes (lit "list_dir") (λ e. cc) refl

abbrev revoked : Revoked
revoked = (lit "t", some 9) ∷ []

revoke-run_example :
    let r = run (revoke (lit "u") (some 5) revoked) (prunes 4 ∷ []) in
    (is_revoked (lit "u") r ≡ true) × (is_revoked (lit "u") (prune 6 r).0 ≡ false)
unfolding lookup
revoke-run_example =
    revoke-run revoked (prunes 4 ∷ []) (lit "u") (some 5) 6 (refl, tt) (λ e. cc) (omega arith, tt)
