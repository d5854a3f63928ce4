-- ===== src/Trail/Parts.antt =====
-- The audit trail of the handlers of src/g_one/api.py that others are made of.
use project_g_one.Prelude.{String, List, Option, none, some, Bool}
use project_g_one.Outside.{Outside}
use project_g_one.Settings.{Settings}
use project_g_one.Models.{
  AuditEvent, VpnNetwork, WorkspaceUser, ClientDeploymentProfile, ClientEnrollmentCode,
}
use project_g_one.Models.Tables.{Kind, Database}
use project_g_one.Auth.{Principal, require_role}
use project_g_one.Auth.Token.{Codec}
use project_g_one.Session.Keeps.{Keeps, Keeps-for_rows}
use project_g_one.Session.Frame.{Frame, frame_rules}
use project_g_one.Api.Selects.{select_rules}
use project_g_one.Passwords.{hash_password}
use project_g_one.Api.Files.{checked_host}
use project_g_one.Api.Deployments.{validate_deployment_profile, DeploymentProfileCreate}
use project_g_one.Api.Users.{check_last_admin, new_password, retarget, retarget_profiles}
use project_g_one.Wireguard.Config.{generate_keypair, apply_config}
use project_g_one.Api.Vpn.{
  sync_vpn, network_response, new_network, changed_network, VpnNetworkCreate,
}
use project_g_one.Api.Client.{
  issue_peer, require_address, bootstrap_device, activate_code, redeem_code, assigned_profile,
  deliver_vpn, delivered, profile_shares, optional_response,
}
use project_g_one.Api.Sessions.{session_token, claim_installation}

module _ {ℓ} {R : List AuditEvent → Database → Type ℓ} where
  pub require_role-Frame :
      (q : Principal) (allowed : List String) → Keeps (Frame R) (require_role q allowed)
  unfolding require_role
  require_role-Frame q allowed = search (frame_rules, select_rules) depth 30 fits 20000

  pub hash_password-Frame :
      (o : Outside) (password : String) → Keeps (Frame R) (hash_password o password)
  unfolding hash_password
  hash_password-Frame o password = search (frame_rules, select_rules) depth 30 fits 20000

  pub checked_host-Frame :
      (o : Outside) (q : Principal) (text : String) → Keeps (Frame R) (checked_host o q text)
  unfolding checked_host
  checked_host-Frame o q text = search (frame_rules, select_rules) depth 30 fits 20000

  pub validate_deployment_profile-Frame :
      (o : Outside) (q : Principal) (body : DeploymentProfileCreate)
      → Keeps (Frame R) (validate_deployment_profile o q body)
  unfolding validate_deployment_profile
  validate_deployment_profile-Frame o q body =
      search (frame_rules, select_rules) depth 30 fits 20000

  pub check_last_admin-Frame :
      (o : Outside) (q : Principal) (user : WorkspaceUser)
      → Keeps (Frame R) (check_last_admin o q user)
  unfolding check_last_admin
  check_last_admin-Frame o q user = search (frame_rules, select_rules) depth 30 fits 20000

  pub new_password-Frame :
      (o : Outside) (q : Principal) (new old : Option String)
      → Keeps (Frame R) (new_password o q new old)
  unfolding new_password
  new_password-Frame o q none old = search frame_rules
  new_password-Frame o q (some password) old = search (frame_rules, hash_password-Frame) depth 8

  retarget-Frame :
      (o : Outside) (q : Principal) (user : WorkspaceUser) (profile : ClientDeploymentProfile)
      → Keeps (Frame R) (retarget o q user profile)
  unfolding retarget
  retarget-Frame o q user profile = search frame_rules depth 12

  pub retarget_profiles-Frame :
      (o : Outside) (q : Principal) (user : WorkspaceUser)
      → Keeps (Frame R) (retarget_profiles o q user)
  unfolding retarget_profiles
  retarget_profiles-Frame o q user =
      Keeps-for_rows Kind.profiles _ _ λ r h. retarget-Frame o q user r

  pub generate_keypair-Frame : (o : Outside) → Keeps (Frame R) (generate_keypair o)
  unfolding generate_keypair
  generate_keypair-Frame o = search (frame_rules, select_rules) depth 30 fits 20000

  pub apply_config-Frame :
      (o : Outside) (settings : Settings) (config : String)
      → Keeps (Frame R) (apply_config o config settings)
  unfolding apply_config
  apply_config-Frame o settings config = search (frame_rules, select_rules) depth 30 fits 20000

  pub sync_vpn-Frame :
      (o : Outside) (settings : Settings) (network : VpnNetwork)
      → Keeps (Frame R) (sync_vpn o settings network)
  unfolding sync_vpn
  sync_vpn-Frame o settings network =
      search (frame_rules, select_rules, apply_config-Frame) depth 30 fits 20000

  pub network_response-Frame :
      (o : Outside) (settings : Settings) (network : VpnNetwork)
      → Keeps (Frame R) (network_response o settings network)
  unfolding network_response
  network_response-Frame o settings network = search (frame_rules, select_rules) depth 30 fits 20000

  pub new_network-Frame :
      (o : Outside) (settings : Settings) (q : Principal) (body : VpnNetworkCreate) (cidr : String)
      → Keeps (Frame R) (new_network o settings q body cidr)
  unfolding new_network
  new_network-Frame o settings q body cidr = search (frame_rules, select_rules) depth 30 fits 20000

  pub changed_network-Frame :
      (o : Outside) (settings : Settings) (q : Principal) (body : VpnNetworkCreate) (cidr : String)
      (network : VpnNetwork)
      → Keeps (Frame R) (changed_network o settings q body cidr network)
  unfolding changed_network
  changed_network-Frame o settings q body cidr network =
      search (frame_rules, select_rules) depth 30 fits 20000

  pub issue_peer-Frame :
      (o : Outside) (settings : Settings) (q : Principal) (network : VpnNetwork)
      (name address routes key : String)
      → Keeps (Frame R) (issue_peer o settings q network name address routes key)
  unfolding issue_peer
  issue_peer-Frame o settings q network name address routes key =
      search (frame_rules, select_rules) depth 30 fits 20000

  pub require_address-Frame :
      (o : Outside) (settings : Settings) (q : Principal) (found : Option (WorkspaceUser × String))
      → Keeps (Frame R) (require_address o settings q found)
  unfolding require_address
  require_address-Frame o settings q found = search (frame_rules, select_rules) depth 30 fits 20000

  pub bootstrap_device-Frame :
      (o : Outside) (settings : Settings) (q : Principal) (name : String)
      → Keeps (Frame R) (bootstrap_device o settings q name)
  unfolding bootstrap_device
  bootstrap_device-Frame o settings q name = search (frame_rules, select_rules) depth 30 fits 20000

  pub activate_code-Frame :
      (o : Outside) (settings : Settings) (q : Principal) (code : ClientEnrollmentCode)
      → Keeps (Frame R) (activate_code o settings q code)
  unfolding activate_code
  activate_code-Frame o settings q code = search (frame_rules, select_rules) depth 30 fits 20000

  pub redeem_code-Frame :
      (o : Outside) (settings : Settings) (q : Principal) (raw : String)
      → Keeps (Frame R) (redeem_code o settings q raw)
  unfolding redeem_code
  redeem_code-Frame o settings q raw =
      search (frame_rules, select_rules, activate_code-Frame) depth 30 fits 20000

  pub assigned_profile-Frame :
      (o : Outside) (settings : Settings) (q : Principal)
      → Keeps (Frame R) (assigned_profile o settings q)
  unfolding assigned_profile
  assigned_profile-Frame o settings q = search (frame_rules, select_rules) depth 30 fits 20000

  pub deliver_vpn-Frame :
      (o : Outside) (settings : Settings) (q : Principal) (network : VpnNetwork)
      (user : WorkspaceUser) (assigned : String) (profile : Option ClientDeploymentProfile)
      (name : String)
      → Keeps (Frame R) (deliver_vpn o settings q network user assigned profile name)
  unfolding deliver_vpn
  deliver_vpn-Frame o settings q network user assigned profile name =
      search (frame_rules, select_rules, issue_peer-Frame, sync_vpn-Frame, generate_keypair-Frame)
        depth 30 fits 20000

  pub delivered-Frame :
      (o : Outside) (settings : Settings) (q : Principal) (network : Option VpnNetwork)
      (user : WorkspaceUser) (login : Bool) (profile : Option ClientDeploymentProfile)
      (name : String)
      → Keeps (Frame R) (delivered o settings q network user login profile name)
  unfolding delivered
  delivered-Frame o settings q network user login profile name =
      search (frame_rules, select_rules, deliver_vpn-Frame) depth 30 fits 20000

  pub profile_shares-Frame :
      (o : Outside) (settings : Settings) (q : Principal) (login : Bool)
      (profile : Option ClientDeploymentProfile)
      → Keeps (Frame R) (profile_shares o settings q login profile)
  unfolding profile_shares
  profile_shares-Frame o settings q login profile =
      search (frame_rules, select_rules) depth 30 fits 20000

  pub optional_response-Frame :
      (o : Outside) (settings : Settings) (q : Principal) (network : Option VpnNetwork)
      → Keeps (Frame R) (optional_response o settings q network)
  unfolding optional_response
  optional_response-Frame o settings q network =
      search (frame_rules, select_rules, network_response-Frame) depth 30 fits 20000

  pub session_token-Frame :
      (o : Outside) (codec : Codec) (settings : Settings) (q : Principal)
      → Keeps (Frame R) (session_token o codec settings q)
  unfolding session_token
  session_token-Frame o codec settings q = search (frame_rules, select_rules) depth 30 fits 20000

  pub claim_installation-Frame : Keeps (Frame R) claim_installation
  unfolding claim_installation
  claim_installation-Frame = record { at = λ w h. record { holds = h.holds } }

pub ruleset part_rules = (
  require_role-Frame, hash_password-Frame, checked_host-Frame, validate_deployment_profile-Frame,
  check_last_admin-Frame, generate_keypair-Frame, sync_vpn-Frame, network_response-Frame,
  new_network-Frame, changed_network-Frame, issue_peer-Frame, require_address-Frame,
  bootstrap_device-Frame, redeem_code-Frame, assigned_profile-Frame, delivered-Frame,
  profile_shares-Frame, optional_response-Frame, session_token-Frame, claim_installation-Frame,
  new_password-Frame, retarget_profiles-Frame,
)
