-- ===== src/Consistency/Writes.antt =====
-- Invariants that every write of a session keeps.
use project_g_one.Prelude.{◌≡◌, refl, String, Bool, true, false, List}
use project_g_one.Outside.{Outside}
use project_g_one.Models.{Detail}
use project_g_one.Models.Tables.{Kind, RowOf, Database}
use project_g_one.Auth.{Principal, require_role}
use project_g_one.Passwords.{hash_password}
use project_g_one.Session.{insert, save, delete, commit, rollback}
use project_g_one.Session.Keeps.{
  Keeps, Keeps-insert, Keeps-save, Keeps-delete, Keeps-commit, Keeps-rollback, Keeps-raise_if,
  keeps_rules,
}
use project_g_one.Api.Audit.{audit}
use project_g_one.Api.Sessions.{claim_installation}
use project_g_one.Api.Selects.{query_rules}

-- A table other than that of the requests for support.
abbrev pub is_other : Kind → Bool
is_other Kind.support_requests = false
is_other _ = true

-- `P` is kept whatever a handler writes, commits or rolls back.
pub record IsClosed (P : Database → Database → Type 0) : Type 0 where
  pub at_insert : (k : Kind) (r : RowOf k) → is_other k ≡ true → Keeps P (insert k r)
  pub at_save : (k : Kind) (r : RowOf k) → is_other k ≡ true → Keeps P (save k r)
  pub at_delete : (k : Kind) (r : RowOf k) → is_other k ≡ true → Keeps P (delete k r)
  pub at_commit : Keeps P commit
  pub at_rollback : Keeps P rollback
  pub at_claim : Keeps P claim_installation

module _ {P : Database → Database → Type 0} (c : IsClosed P) where
  pub closed-insert : (k : Kind) (r : RowOf k) → is_other k ≡ true → Keeps P (insert k r)
  closed-insert = c.at_insert

  pub closed-save : (k : Kind) (r : RowOf k) → is_other k ≡ true → Keeps P (save k r)
  closed-save = c.at_save

  pub closed-delete : (k : Kind) (r : RowOf k) → is_other k ≡ true → Keeps P (delete k r)
  closed-delete = c.at_delete

  pub closed-commit : Keeps P commit
  closed-commit = c.at_commit

  pub closed-rollback : Keeps P rollback
  closed-rollback = c.at_rollback

  pub closed-claim_installation : Keeps P claim_installation
  closed-claim_installation = c.at_claim

  ruleset writes = (
    refl, keeps_rules, query_rules, closed-insert, closed-save, closed-delete, closed-commit,
    closed-rollback,
  )

  pub closed-audit :
      (o : Outside) (p : Principal) (action target_type target_id : String)
      (details : List (String × Detail))
      → Keeps P (audit o p action target_type target_id details)
  unfolding audit
  closed-audit o p action target_type target_id details = search writes depth 8

  pub closed-require_role :
      (p : Principal) (allowed : List String) → Keeps P (require_role p allowed)
  unfolding require_role
  closed-require_role p allowed = Keeps-raise_if _ _

  pub closed-hash_password : (o : Outside) (password : String) → Keeps P (hash_password o password)
  unfolding hash_password
  closed-hash_password o password = search writes depth 8

pub ruleset closed_rules = (
  refl, keeps_rules, query_rules, closed-insert, closed-save, closed-delete, closed-commit,
  closed-rollback, closed-claim_installation, closed-audit, closed-require_role,
  closed-hash_password,
)
