-- ===== src/Api/Roles.antt =====
-- Roles, scopes and lists of names: `ROLES`, `TOKEN_SCOPES`, `validate_roles`, `normalized_values`,
-- `list_roles` and `list_audit_events` of src/g_one/api.py.
use Prim.Native.String.{◌++◌}
use project_g_one.Prelude.{
  String, not, List, [], ◌∷◌, ◌==◌, ltb, if◌then◌else◌, any, contains, where_true, sort_by, take,
}
use project_g_one.Text.Sets.{sorted_set}
use project_g_one.Text.Lines.{join, stripped}
use project_g_one.Models.{AuditEvent}
use project_g_one.Models.Tables.{Kind}
use project_g_one.Auth.{Principal, require_role}
use project_g_one.Session.{Handler, Outcome, returned, raised, ◌>>=◌, ◌>>◌, pure, http, select_all}

pub record RoleRead : Type 0 where
  pub id : String
  pub name : String
  pub permissions : List String

abbrev pub roles_table : List RoleRead
roles_table =
    record {
      id = "tenant_admin";
      name = "조직 관리자";
      permissions =
          "tokens.manage" ∷ "users.manage" ∷ "roles.manage" ∷ "devices.manage" ∷ "vpn.manage"
          ∷ "support.manage" ∷ "audit.read" ∷ [];
    }
    ∷ record {
      id = "support";
      name = "지원 담당자";
      permissions = "devices.read" ∷ "vpn.read" ∷ "support.manage" ∷ [];
    }
    ∷ record { id = "auditor"; name = "감사 담당자"; permissions = "audit.read" ∷ [] }
    ∷ record {
      id = "member";
      name = "일반 사용자";
      permissions = "devices.self" ∷ "support.consent" ∷ [];
    }
    ∷ []

-- `ROLES.keys()`
abbrev pub role_ids : List String
role_ids = "tenant_admin" ∷ "support" ∷ "auditor" ∷ "member" ∷ []

abbrev pub token_scopes : List String
token_scopes = "devices:read" ∷ "devices:write" ∷ "vpn:read" ∷ "support:read" ∷ "audit:read" ∷ []

-- `values - known`
abbrev pub unknown_in : List String → List String → List String
unknown_in known = where_true (λ v. not (contains v known))

-- `set(values)` is given as a list of texts.
abbrev pub validate_known : String → List String → List String → Outcome (List String)
validate_known what known values =
    if any (λ v. not (contains v known)) values
    then raised
        (http 422 ("unknown " ++ what ++ ": " ++ join ", " (sorted_set (unknown_in known values))))
    else returned (sorted_set values)

unfoldable pub validate_roles : List String → Outcome (List String)
validate_roles = validate_known "roles" role_ids

abbrev pub nonempty_values : String → List String → Outcome (List String)
nonempty_values label [] = raised (http 422 (label ++ " cannot be empty"))
nonempty_values label (v ∷ vs) = returned (v ∷ vs)

unfoldable pub normalized_values : List String → String → Outcome (List String)
unfolding sorted_set stripped
normalized_values values label = nonempty_values label (sorted_set (stripped values))

unfoldable pub list_roles : Principal → Handler (List RoleRead)
list_roles p = do require_role p ("tenant_admin" ∷ []); pure roles_table

unfoldable pub list_audit_events : Principal → Handler (List AuditEvent)
list_audit_events p = do
  require_role p ("tenant_admin" ∷ "auditor" ∷ [])
  found ← select_all Kind.audit_events (λ e. e.tenant_id == p.tenant_id)
  pure (take 200 (sort_by (λ a b. ltb b.occurred_at a.occurred_at) found))
