-- ===== src/Isolation/Rules.antt =====
-- The rules of tenant isolation with the audit log.
use project_g_one.Prelude.{String, List, ◌≡◌, ◌==◌, eq_iff, true}
use project_g_one.Outside.{Outside}
use project_g_one.Models.{Detail}
use project_g_one.Models.Tables.{Database}
use project_g_one.Auth.{Principal, require_role}
use project_g_one.Session.Keeps.{Keeps, Keeps-raise_if}
use project_g_one.Session.Isolation.{IsIsolated, isolation_rules}
use project_g_one.Api.Audit.{audit}
use project_g_one.Api.Selects.{select_rules}
use project_g_one.Passwords.{hash_password}

module _ (o : Outside) (p : Principal) (base : Database) where
  pub audit-IsIsolated :
      (action target_type target_id : String) (details : List (String × Detail))
      → Keeps (IsIsolated p.tenant_id base) (audit o p action target_type target_id details)
  unfolding audit
  audit-IsIsolated action target_type target_id details = search isolation_rules depth 8

  pub require_role-IsIsolated :
      (allowed : List String) → Keeps (IsIsolated p.tenant_id base) (require_role p allowed)
  unfolding require_role
  require_role-IsIsolated allowed = Keeps-raise_if _ _

  pub hash_password-IsIsolated :
      (password : String) → Keeps (IsIsolated p.tenant_id base) (hash_password o password)
  unfolding hash_password
  hash_password-IsIsolated password = search isolation_rules depth 8

-- A query by the tenant alone.
pub eq_of_test : (s t : String) → (s == t) ≡ true → s ≡ t
eq_of_test s t h = (eq_iff s t).0 h

pub ruleset tenant_rules = (
  isolation_rules, audit-IsIsolated, require_role-IsIsolated, hash_password-IsIsolated, eq_of_test,
  select_rules,
)
