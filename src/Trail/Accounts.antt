-- ===== src/Trail/Accounts.antt =====
-- The audit trail of the handlers of devices, support requests, tokens and users.
use project_g_one.Prelude.{String, Bool}
use project_g_one.Outside.{Outside}
use project_g_one.Models.Tables.{Database}
use project_g_one.Auth.{Principal}
use project_g_one.Trail.Rules.{Trailed, trail_rules}
use project_g_one.Trail.Parts.{part_rules}
use project_g_one.Api.Devices.{create_device, revoke_device}
use project_g_one.Api.Support.{
  SupportRequestCreate, create_support_request, decide_support_request, end_support_request,
}
use project_g_one.Api.Tokens.{ApiTokenCreate, create_api_token, revoke_api_token}
use project_g_one.Api.Users.{UserCreate, UserUpdate, create_user, update_user, delete_user}

ruleset rules = (trail_rules, part_rules)

module _ (o : Outside) (p : Principal) (base : Database) where
  pub create_device-Trailed : (name : String) → Trailed p base (create_device o p name)
  unfolding create_device
  create_device-Trailed name = search rules depth 50 fits 20000

  pub revoke_device-Trailed : (id : String) → Trailed p base (revoke_device o p id)
  unfolding revoke_device
  revoke_device-Trailed id = search rules depth 50 fits 20000

  pub create_support_request-Trailed :
      (body : SupportRequestCreate) → Trailed p base (create_support_request o p body)
  unfolding create_support_request
  create_support_request-Trailed body = search rules depth 50 fits 20000

  pub decide_support_request-Trailed :
      (id : String) (accept : Bool) → Trailed p base (decide_support_request o p id accept)
  unfolding decide_support_request
  decide_support_request-Trailed id accept = search rules depth 50 fits 20000

  pub end_support_request-Trailed : (id : String) → Trailed p base (end_support_request o p id)
  unfolding end_support_request
  end_support_request-Trailed id = search rules depth 50 fits 20000

  pub create_api_token-Trailed :
      (body : ApiTokenCreate) → Trailed p base (create_api_token o p body)
  unfolding create_api_token
  create_api_token-Trailed body = search rules depth 50 fits 20000

  pub revoke_api_token-Trailed : (id : String) → Trailed p base (revoke_api_token o p id)
  unfolding revoke_api_token
  revoke_api_token-Trailed id = search rules depth 50 fits 20000

  pub create_user-Trailed : (body : UserCreate) → Trailed p base (create_user o p body)
  unfolding create_user
  create_user-Trailed body = search rules depth 50 fits 20000

  pub update_user-Trailed :
      (id : String) (body : UserUpdate) → Trailed p base (update_user o p id body)
  unfolding update_user
  update_user-Trailed id body = search rules depth 50 fits 20000

  pub delete_user-Trailed : (id : String) → Trailed p base (delete_user o p id)
  unfolding delete_user
  delete_user-Trailed id = search rules depth 50 fits 20000
