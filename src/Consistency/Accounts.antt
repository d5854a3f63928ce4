-- ===== src/Consistency/Accounts.antt =====
-- Closed invariants under the handlers of devices, users, tokens and support requests.
use project_g_one.Prelude.{String, Bool, Option, none, some}
use project_g_one.Session.{insert, save}
use project_g_one.Models.{SupportRequest, WorkspaceUser, ClientDeploymentProfile}
use project_g_one.Outside.{Outside}
use project_g_one.Models.Tables.{Kind, Database}
use project_g_one.Auth.{Principal}
use project_g_one.Session.Keeps.{Keeps, Keeps-for_rows}
use project_g_one.Consistency.Writes.{IsClosed, closed_rules}
use project_g_one.Api.Devices.{create_device, revoke_device}
use project_g_one.Api.Support.{
  SupportRequestCreate, create_support_request, decide_support_request, end_support_request,
}
use project_g_one.Api.Tokens.{ApiTokenCreate, create_api_token, revoke_api_token}
use project_g_one.Api.Users.{
  UserCreate, UserUpdate, create_user, update_user, new_password, check_last_admin, retarget,
  delete_user, without_target, retarget_profiles,
}

module _ {P : Database → Database → Type 0} (c : IsClosed P) (o : Outside) (p : Principal) where
  pub closed-create_device : (name : String) → Keeps P (create_device o p name)
  unfolding create_device
  closed-create_device name = search closed_rules depth 30

  pub closed-revoke_device : (id : String) → Keeps P (revoke_device o p id)
  unfolding revoke_device
  closed-revoke_device id = search closed_rules depth 30

  pub closed-create_api_token : (body : ApiTokenCreate) → Keeps P (create_api_token o p body)
  unfolding create_api_token
  closed-create_api_token body = search closed_rules depth 40

  pub closed-revoke_api_token : (id : String) → Keeps P (revoke_api_token o p id)
  unfolding revoke_api_token
  closed-revoke_api_token id = search closed_rules depth 40

  pub closed-create_user : (body : UserCreate) → Keeps P (create_user o p body)
  unfolding create_user
  closed-create_user body = search closed_rules depth 50 fits 20000

  closed-new_password : (new old : Option String) → Keeps P (new_password o p new old)
  unfolding new_password
  closed-new_password none old = search closed_rules
  closed-new_password (some password) old = search closed_rules depth 8

  closed-check_last_admin : (user : WorkspaceUser) → Keeps P (check_last_admin o p user)
  unfolding check_last_admin
  closed-check_last_admin user = search closed_rules depth 8

  closed-retarget :
      (user : WorkspaceUser) (profile : ClientDeploymentProfile)
      → Keeps P (retarget o p user profile)
  unfolding retarget without_target
  closed-retarget user profile = search closed_rules depth 12

  closed-retarget_profiles : (user : WorkspaceUser) → Keeps P (retarget_profiles o p user)
  unfolding retarget_profiles
  closed-retarget_profiles user = Keeps-for_rows Kind.profiles _ _ λ r h. closed-retarget user r

  pub closed-update_user : (id : String) (body : UserUpdate) → Keeps P (update_user o p id body)
  unfolding update_user
  closed-update_user id body = search (closed_rules, closed-new_password) depth 50 fits 20000

  pub closed-delete_user : (id : String) → Keeps P (delete_user o p id)
  unfolding delete_user
  closed-delete_user id =
      search (closed_rules, closed-check_last_admin, closed-retarget_profiles) depth 50 fits 20000

-- The requests for support, where what is claimed stays true under any write to their table.
module _ {P : Database → Database → Type 0} (c : IsClosed P)
    (new : (r : SupportRequest) → Keeps P (insert Kind.support_requests r))
    (changed : (r : SupportRequest) → Keeps P (save Kind.support_requests r)) (o : Outside)
    (p : Principal) where
  pub closed-create_support_request :
      (body : SupportRequestCreate) → Keeps P (create_support_request o p body)
  unfolding create_support_request
  closed-create_support_request body = search (closed_rules, new, changed) depth 30

  pub closed-decide_support_request :
      (id : String) (accept : Bool) → Keeps P (decide_support_request o p id accept)
  unfolding decide_support_request
  closed-decide_support_request id accept = search (closed_rules, new, changed) depth 40

  pub closed-end_support_request : (id : String) → Keeps P (end_support_request o p id)
  unfolding end_support_request
  closed-end_support_request id = search (closed_rules, new, changed) depth 40
