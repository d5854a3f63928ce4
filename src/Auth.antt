-- ===== src/Auth.antt =====
-- src/g_one/auth.py: the principal of a request, its roles, and access tokens.
pub mod Json
pub mod Token
pub mod Soundness
pub mod Bearer
use project_g_one.Prelude.{String, Bool, not, List, contains, any}
use project_g_one.Session.{Handler, raise_if, http}

pub record Principal : Type 0 where
  pub subject : String
  pub tenant_id : String
  pub roles : List String

-- `role in principal.roles`
abbrev pub has_role : Principal → String → Bool
has_role p role = contains role p.roles

-- `self.roles.isdisjoint(allowed)`
abbrev pub is_disjoint : List String → List String → Bool
is_disjoint roles allowed = not (any (λ role. contains role allowed) roles)

unfoldable pub require_role : Principal → List String → Handler (Unit {0})
require_role p allowed = raise_if (is_disjoint p.roles allowed) (http 403 "insufficient role")
