-- ===== src/Isolation/Network.antt =====
-- Isolation of the handlers of the VPN and of the Windows client.
use project_g_one.Prelude.{String, Option, ◌≡◌, Bool}
use project_g_one.Outside.{Outside}
use project_g_one.Settings.{Settings}
use project_g_one.Models.{VpnNetwork, WorkspaceUser, ClientDeploymentProfile, ClientEnrollmentCode}
use project_g_one.Models.Tables.{Database}
use project_g_one.Auth.{Principal}
use project_g_one.Session.Keeps.{Keeps}
use project_g_one.Session.Isolation.{IsIsolated}
use project_g_one.Isolation.Rules.{tenant_rules}
use project_g_one.Wireguard.Config.{generate_keypair, apply_config}
use project_g_one.Api.Vpn.{
  VpnNetworkCreate, VpnPeerCreate, network_response, sync_vpn, new_network, changed_network,
  configure_vpn_network, create_vpn_peer, update_vpn_peer_routes, revoke_vpn_peer,
}
use project_g_one.Api.Client.{
  issue_peer, require_address, enroll_client_vpn, bootstrap_device, activate_code, redeem_code,
  assigned_profile, deliver_vpn, delivered, profile_shares, optional_response, bootstrap_client,
}

module _ (o : Outside) (settings : Settings) (p : Principal) (base : Database) where
  generate_keypair-IsIsolated : Keeps (IsIsolated p.tenant_id base) (generate_keypair o)
  unfolding generate_keypair
  generate_keypair-IsIsolated = search tenant_rules depth 12

  apply_config-IsIsolated :
      (config : String) → Keeps (IsIsolated p.tenant_id base) (apply_config o config settings)
  unfolding apply_config
  apply_config-IsIsolated config = search tenant_rules depth 12

  sync_vpn-IsIsolated :
      (network : VpnNetwork) → Keeps (IsIsolated p.tenant_id base) (sync_vpn o settings network)
  unfolding sync_vpn
  sync_vpn-IsIsolated network = search (tenant_rules, apply_config-IsIsolated) depth 12

  network_response-IsIsolated :
      (network : VpnNetwork)
      → Keeps (IsIsolated p.tenant_id base) (network_response o settings network)
  unfolding network_response
  network_response-IsIsolated network = search tenant_rules depth 12

  new_network-IsIsolated :
      (body : VpnNetworkCreate) (cidr : String)
      → Keeps (IsIsolated p.tenant_id base) (new_network o settings p body cidr)
  unfolding new_network
  new_network-IsIsolated body cidr = search tenant_rules depth 12

  changed_network-IsIsolated :
      (body : VpnNetworkCreate) (cidr : String) (network : VpnNetwork)
      → network.tenant_id ≡ p.tenant_id
      → Keeps (IsIsolated p.tenant_id base) (changed_network o settings p body cidr network)
  unfolding changed_network
  changed_network-IsIsolated body cidr network own = search tenant_rules depth 12

  ruleset vpn_rules = (
    tenant_rules, generate_keypair-IsIsolated, sync_vpn-IsIsolated, network_response-IsIsolated,
    new_network-IsIsolated, changed_network-IsIsolated,
  )

  pub configure_vpn_network-IsIsolated :
      (body : VpnNetworkCreate)
      → Keeps (IsIsolated p.tenant_id base) (configure_vpn_network o settings p body)
  unfolding configure_vpn_network
  configure_vpn_network-IsIsolated body = search vpn_rules depth 40 fits 20000

  pub create_vpn_peer-IsIsolated :
      (body : VpnPeerCreate)
      → Keeps (IsIsolated p.tenant_id base) (create_vpn_peer o settings p body)
  unfolding create_vpn_peer
  create_vpn_peer-IsIsolated body = search vpn_rules depth 40 fits 20000

  pub update_vpn_peer_routes-IsIsolated :
      (id routes : String)
      → Keeps (IsIsolated p.tenant_id base) (update_vpn_peer_routes o settings p id routes)
  unfolding update_vpn_peer_routes
  update_vpn_peer_routes-IsIsolated id routes = search vpn_rules depth 40 fits 20000

  pub revoke_vpn_peer-IsIsolated :
      (id : String) → Keeps (IsIsolated p.tenant_id base) (revoke_vpn_peer o settings p id)
  unfolding revoke_vpn_peer
  revoke_vpn_peer-IsIsolated id = search vpn_rules depth 40 fits 20000

  issue_peer-IsIsolated :
      (network : VpnNetwork) (name address routes key : String)
      → Keeps
          (IsIsolated p.tenant_id base)
          (issue_peer o settings p network name address routes key)
  unfolding issue_peer
  issue_peer-IsIsolated network name address routes key = search vpn_rules depth 20 fits 20000

  require_address-IsIsolated :
      (found : Option (WorkspaceUser × String))
      → Keeps (IsIsolated p.tenant_id base) (require_address o settings p found)
  unfolding require_address
  require_address-IsIsolated found = search tenant_rules depth 12

  bootstrap_device-IsIsolated :
      (name : String) → Keeps (IsIsolated p.tenant_id base) (bootstrap_device o settings p name)
  unfolding bootstrap_device
  bootstrap_device-IsIsolated name = search tenant_rules depth 20

  activate_code-IsIsolated :
      (code : ClientEnrollmentCode)
      → code.tenant_id ≡ p.tenant_id
      → Keeps (IsIsolated p.tenant_id base) (activate_code o settings p code)
  unfolding activate_code
  activate_code-IsIsolated code own = search tenant_rules depth 20

  redeem_code-IsIsolated :
      (raw : String) → Keeps (IsIsolated p.tenant_id base) (redeem_code o settings p raw)
  unfolding redeem_code
  redeem_code-IsIsolated raw = search (tenant_rules, activate_code-IsIsolated) depth 20

  assigned_profile-IsIsolated : Keeps (IsIsolated p.tenant_id base) (assigned_profile o settings p)
  unfolding assigned_profile
  assigned_profile-IsIsolated = search tenant_rules depth 20

  deliver_vpn-IsIsolated :
      (network : VpnNetwork) (user : WorkspaceUser) (assigned : String)
      (profile : Option ClientDeploymentProfile) (name : String)
      → Keeps
          (IsIsolated p.tenant_id base)
          (deliver_vpn o settings p network user assigned profile name)
  unfolding deliver_vpn
  deliver_vpn-IsIsolated network user assigned profile name =
      search (vpn_rules, issue_peer-IsIsolated) depth 30 fits 20000

  delivered-IsIsolated :
      (network : Option VpnNetwork) (user : WorkspaceUser) (login : Bool)
      (profile : Option ClientDeploymentProfile) (name : String)
      → Keeps (IsIsolated p.tenant_id base) (delivered o settings p network user login profile name)
  unfolding delivered
  delivered-IsIsolated network user login profile name =
      search (tenant_rules, deliver_vpn-IsIsolated) depth 20

  profile_shares-IsIsolated :
      (login : Bool) (profile : Option ClientDeploymentProfile)
      → Keeps (IsIsolated p.tenant_id base) (profile_shares o settings p login profile)
  unfolding profile_shares
  profile_shares-IsIsolated login profile = search tenant_rules depth 20

  optional_response-IsIsolated :
      (network : Option VpnNetwork)
      → Keeps (IsIsolated p.tenant_id base) (optional_response o settings p network)
  unfolding optional_response
  optional_response-IsIsolated network = search (tenant_rules, network_response-IsIsolated) depth 20

  pub enroll_client_vpn-IsIsolated :
      (name : String) → Keeps (IsIsolated p.tenant_id base) (enroll_client_vpn o settings p name)
  unfolding enroll_client_vpn
  enroll_client_vpn-IsIsolated name =
      search (vpn_rules, issue_peer-IsIsolated, require_address-IsIsolated) depth 50 fits 20000

  pub bootstrap_client-IsIsolated :
      (name : String) (code : Option String)
      → Keeps (IsIsolated p.tenant_id base) (bootstrap_client o settings p name code)
  unfolding bootstrap_client
  bootstrap_client-IsIsolated name code =
      search
        (
          tenant_rules, bootstrap_device-IsIsolated, redeem_code-IsIsolated,
          assigned_profile-IsIsolated, delivered-IsIsolated, profile_shares-IsIsolated,
          optional_response-IsIsolated,
        )
        depth 50 fits 20000
