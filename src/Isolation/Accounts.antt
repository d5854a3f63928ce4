-- ===== src/Isolation/Accounts.antt =====
-- Devices, users, tokens and support requests.
use project_g_one.Prelude.{String, Bool, Option, none, some, ◌≡◌, eq_of_first}
use project_g_one.Models.{WorkspaceUser, ClientDeploymentProfile}
use project_g_one.Outside.{Outside}
use project_g_one.Models.Tables.{Kind, Database}
use project_g_one.Auth.{Principal}
use project_g_one.Session.Keeps.{Keeps, Keeps-for_rows}
use project_g_one.Session.Isolation.{IsIsolated}
use project_g_one.Isolation.Rules.{tenant_rules}
use project_g_one.Api.Devices.{create_device, revoke_device}
use project_g_one.Api.Support.{
  SupportRequestCreate, create_support_request, decide_support_request, end_support_request,
}
use project_g_one.Api.Tokens.{ApiTokenCreate, create_api_token, revoke_api_token}
use project_g_one.Api.Users.{
  UserCreate, UserUpdate, create_user, update_user, new_password, check_last_admin, retarget,
  delete_user, without_target, retarget_profiles,
}

module _ (o : Outside) (p : Principal) (base : Database) where
  pub create_device-IsIsolated :
      (name : String) → Keeps (IsIsolated p.tenant_id base) (create_device o p name)
  unfolding create_device
  create_device-IsIsolated name = search tenant_rules depth 30

  pub revoke_device-IsIsolated :
      (id : String) → Keeps (IsIsolated p.tenant_id base) (revoke_device o p id)
  unfolding revoke_device
  revoke_device-IsIsolated id = search tenant_rules depth 30

  pub create_support_request-IsIsolated :
      (body : SupportRequestCreate)
      → Keeps (IsIsolated p.tenant_id base) (create_support_request o p body)
  unfolding create_support_request
  create_support_request-IsIsolated body = search tenant_rules depth 30

  pub decide_support_request-IsIsolated :
      (id : String) (accept : Bool)
      → Keeps (IsIsolated p.tenant_id base) (decide_support_request o p id accept)
  unfolding decide_support_request
  decide_support_request-IsIsolated id accept = search tenant_rules depth 40

  pub end_support_request-IsIsolated :
      (id : String) → Keeps (IsIsolated p.tenant_id base) (end_support_request o p id)
  unfolding end_support_request
  end_support_request-IsIsolated id = search tenant_rules depth 40

  pub create_api_token-IsIsolated :
      (body : ApiTokenCreate) → Keeps (IsIsolated p.tenant_id base) (create_api_token o p body)
  unfolding create_api_token
  create_api_token-IsIsolated body = search tenant_rules depth 40

  pub revoke_api_token-IsIsolated :
      (id : String) → Keeps (IsIsolated p.tenant_id base) (revoke_api_token o p id)
  unfolding revoke_api_token
  revoke_api_token-IsIsolated id = search tenant_rules depth 40

  pub create_user-IsIsolated :
      (body : UserCreate) → Keeps (IsIsolated p.tenant_id base) (create_user o p body)
  unfolding create_user
  create_user-IsIsolated body = search tenant_rules depth 50 fits 20000

  new_password-IsIsolated :
      (new old : Option String) → Keeps (IsIsolated p.tenant_id base) (new_password o p new old)
  unfolding new_password
  new_password-IsIsolated none old = search tenant_rules
  new_password-IsIsolated (some password) old = search tenant_rules depth 8

  check_last_admin-IsIsolated :
      (user : WorkspaceUser) → Keeps (IsIsolated p.tenant_id base) (check_last_admin o p user)
  unfolding check_last_admin
  check_last_admin-IsIsolated user = search tenant_rules depth 8

  retarget-IsIsolated :
      (user : WorkspaceUser) (profile : ClientDeploymentProfile)
      → profile.tenant_id ≡ p.tenant_id
      → Keeps (IsIsolated p.tenant_id base) (retarget o p user profile)
  unfolding retarget without_target
  retarget-IsIsolated user profile own = search tenant_rules depth 12

  retarget_profiles-IsIsolated :
      (user : WorkspaceUser) → Keeps (IsIsolated p.tenant_id base) (retarget_profiles o p user)
  unfolding retarget_profiles
  retarget_profiles-IsIsolated user =
      Keeps-for_rows Kind.profiles _ _
        λ r h. retarget-IsIsolated user r (eq_of_first r.tenant_id p.tenant_id r.enabled h)

  pub update_user-IsIsolated :
      (id : String) (body : UserUpdate)
      → Keeps (IsIsolated p.tenant_id base) (update_user o p id body)
  unfolding update_user
  update_user-IsIsolated id body =
      search (tenant_rules, new_password-IsIsolated) depth 50 fits 20000

  pub delete_user-IsIsolated :
      (id : String) → Keeps (IsIsolated p.tenant_id base) (delete_user o p id)
  unfolding delete_user
  delete_user-IsIsolated id =
      search (tenant_rules, check_last_admin-IsIsolated, retarget_profiles-IsIsolated) depth 50 fits
        20000
