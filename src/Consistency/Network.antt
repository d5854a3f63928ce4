-- ===== src/Consistency/Network.antt =====
-- Closed invariants under the handlers of the VPN and of the Windows client.
use project_g_one.Prelude.{String, Option, Bool}
use project_g_one.Outside.{Outside}
use project_g_one.Settings.{Settings}
use project_g_one.Models.{VpnNetwork, WorkspaceUser, ClientDeploymentProfile, ClientEnrollmentCode}
use project_g_one.Models.Tables.{Database}
use project_g_one.Auth.{Principal}
use project_g_one.Session.Keeps.{Keeps}
use project_g_one.Consistency.Writes.{IsClosed, closed_rules}
use project_g_one.Wireguard.Config.{generate_keypair, apply_config}
use project_g_one.Api.Vpn.{
  VpnNetworkCreate, VpnPeerCreate, network_response, sync_vpn, new_network, changed_network,
  configure_vpn_network, create_vpn_peer, update_vpn_peer_routes, revoke_vpn_peer,
}
use project_g_one.Api.Client.{
  issue_peer, require_address, enroll_client_vpn, bootstrap_device, activate_code, redeem_code,
  assigned_profile, deliver_vpn, delivered, profile_shares, optional_response, bootstrap_client,
}

module _ {P : Database → Database → Type 0} (c : IsClosed P) (o : Outside) (settings : Settings)
    (p : Principal) where
  closed-generate_keypair : Keeps P (generate_keypair o)
  unfolding generate_keypair
  closed-generate_keypair = search closed_rules depth 12

  closed-apply_config : (config : String) → Keeps P (apply_config o config settings)
  unfolding apply_config
  closed-apply_config config = search closed_rules depth 12

  closed-sync_vpn : (network : VpnNetwork) → Keeps P (sync_vpn o settings network)
  unfolding sync_vpn
  closed-sync_vpn network = search (closed_rules, closed-apply_config) depth 12

  closed-network_response : (network : VpnNetwork) → Keeps P (network_response o settings network)
  unfolding network_response
  closed-network_response network = search closed_rules depth 12

  closed-new_network :
      (body : VpnNetworkCreate) (cidr : String) → Keeps P (new_network o settings p body cidr)
  unfolding new_network
  closed-new_network body cidr = search closed_rules depth 12

  closed-changed_network :
      (body : VpnNetworkCreate) (cidr : String) (network : VpnNetwork)
      → Keeps P (changed_network o settings p body cidr network)
  unfolding changed_network
  closed-changed_network body cidr network = search closed_rules depth 12

  ruleset vpn_rules = (
    closed_rules, closed-generate_keypair, closed-sync_vpn, closed-network_response,
    closed-new_network, closed-changed_network,
  )

  pub closed-configure_vpn_network :
      (body : VpnNetworkCreate) → Keeps P (configure_vpn_network o settings p body)
  unfolding configure_vpn_network
  closed-configure_vpn_network body = search vpn_rules depth 40 fits 20000

  pub closed-create_vpn_peer : (body : VpnPeerCreate) → Keeps P (create_vpn_peer o settings p body)
  unfolding create_vpn_peer
  closed-create_vpn_peer body = search vpn_rules depth 40 fits 20000

  pub closed-update_vpn_peer_routes :
      (id routes : String) → Keeps P (update_vpn_peer_routes o settings p id routes)
  unfolding update_vpn_peer_routes
  closed-update_vpn_peer_routes id routes = search vpn_rules depth 40 fits 20000

  pub closed-revoke_vpn_peer : (id : String) → Keeps P (revoke_vpn_peer o settings p id)
  unfolding revoke_vpn_peer
  closed-revoke_vpn_peer id = search vpn_rules depth 40 fits 20000

  closed-issue_peer :
      (network : VpnNetwork) (name address routes key : String)
      → Keeps P (issue_peer o settings p network name address routes key)
  unfolding issue_peer
  closed-issue_peer network name address routes key = search vpn_rules depth 20 fits 20000

  closed-require_address :
      (found : Option (WorkspaceUser × String)) → Keeps P (require_address o settings p found)
  unfolding require_address
  closed-require_address found = search closed_rules depth 12

  closed-bootstrap_device : (name : String) → Keeps P (bootstrap_device o settings p name)
  unfolding bootstrap_device
  closed-bootstrap_device name = search closed_rules depth 20

  closed-activate_code : (code : ClientEnrollmentCode) → Keeps P (activate_code o settings p code)
  unfolding activate_code
  closed-activate_code code = search closed_rules depth 20

  closed-redeem_code : (raw : String) → Keeps P (redeem_code o settings p raw)
  unfolding redeem_code
  closed-redeem_code raw = search (closed_rules, closed-activate_code) depth 20

  closed-assigned_profile : Keeps P (assigned_profile o settings p)
  unfolding assigned_profile
  closed-assigned_profile = search closed_rules depth 20

  closed-deliver_vpn :
      (network : VpnNetwork) (user : WorkspaceUser) (assigned : String)
      (profile : Option ClientDeploymentProfile) (name : String)
      → Keeps P (deliver_vpn o settings p network user assigned profile name)
  unfolding deliver_vpn
  closed-deliver_vpn network user assigned profile name =
      search (vpn_rules, closed-issue_peer) depth 30 fits 20000

  closed-delivered :
      (network : Option VpnNetwork) (user : WorkspaceUser) (login : Bool)
      (profile : Option ClientDeploymentProfile) (name : String)
      → Keeps P (delivered o settings p network user login profile name)
  unfolding delivered
  closed-delivered network user login profile name =
      search (closed_rules, closed-deliver_vpn) depth 20

  closed-profile_shares :
      (login : Bool) (profile : Option ClientDeploymentProfile)
      → Keeps P (profile_shares o settings p login profile)
  unfolding profile_shares
  closed-profile_shares login profile = search closed_rules depth 20

  closed-optional_response :
      (network : Option VpnNetwork) → Keeps P (optional_response o settings p network)
  unfolding optional_response
  closed-optional_response network = search (closed_rules, closed-network_response) depth 20

  pub closed-enroll_client_vpn : (name : String) → Keeps P (enroll_client_vpn o settings p name)
  unfolding enroll_client_vpn
  closed-enroll_client_vpn name =
      search (vpn_rules, closed-issue_peer, closed-require_address) depth 50 fits 20000

  pub closed-bootstrap_client :
      (name : String) (code : Option String) → Keeps P (bootstrap_client o settings p name code)
  unfolding bootstrap_client
  closed-bootstrap_client name code =
      search
        (
          closed_rules, closed-bootstrap_device, closed-redeem_code, closed-assigned_profile,
          closed-delivered, closed-profile_shares, closed-optional_response,
        )
        depth 50 fits 20000
