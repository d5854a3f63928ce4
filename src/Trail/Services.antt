-- ===== src/Trail/Services.antt =====
-- The audit trail of the handlers of file servers, deployments, the VPN and its clients.
use project_g_one.Api.Download.{download_client_deployment}
use project_g_one.Prelude.{String, Option}
use project_g_one.Outside.{Outside}
use project_g_one.Settings.{Settings}
use project_g_one.Models.Tables.{Database}
use project_g_one.Auth.{Principal}
use project_g_one.Trail.Rules.{Trailed, trail_rules}
use project_g_one.Trail.Parts.{part_rules}
use project_g_one.Api.Files.{
  FileServerCreate, create_file_server, update_file_server, delete_file_server,
}
use project_g_one.Api.Deployments.{
  DeploymentProfileCreate, create_client_deployment, update_client_deployment,
  delete_client_deployment,
}
use project_g_one.Api.Vpn.{
  VpnNetworkCreate, VpnPeerCreate, configure_vpn_network, create_vpn_peer, update_vpn_peer_routes,
  revoke_vpn_peer,
}
use project_g_one.Api.Client.{enroll_client_vpn, bootstrap_client}

ruleset rules = (trail_rules, part_rules)

module _ (o : Outside) (settings : Settings) (p : Principal) (base : Database) where
  pub create_file_server-Trailed :
      (body : FileServerCreate) → Trailed p base (create_file_server o p body)
  unfolding create_file_server
  create_file_server-Trailed body = search rules depth 50 fits 20000

  pub update_file_server-Trailed :
      (id : String) (body : FileServerCreate) → Trailed p base (update_file_server o p id body)
  unfolding update_file_server
  update_file_server-Trailed id body = search rules depth 50 fits 20000

  pub delete_file_server-Trailed : (id : String) → Trailed p base (delete_file_server o p id)
  unfolding delete_file_server
  delete_file_server-Trailed id = search rules depth 50 fits 20000

  pub create_client_deployment-Trailed :
      (body : DeploymentProfileCreate) → Trailed p base (create_client_deployment o p body)
  unfolding create_client_deployment
  create_client_deployment-Trailed body = search rules depth 50 fits 20000

  pub update_client_deployment-Trailed :
      (id : String) (body : DeploymentProfileCreate)
      → Trailed p base (update_client_deployment o p id body)
  unfolding update_client_deployment
  update_client_deployment-Trailed id body = search rules depth 50 fits 20000

  pub delete_client_deployment-Trailed :
      (id : String) → Trailed p base (delete_client_deployment o p id)
  unfolding delete_client_deployment
  delete_client_deployment-Trailed id = search rules depth 50 fits 20000

  pub configure_vpn_network-Trailed :
      (body : VpnNetworkCreate) → Trailed p base (configure_vpn_network o settings p body)
  unfolding configure_vpn_network
  configure_vpn_network-Trailed body = search rules depth 50 fits 20000

  pub create_vpn_peer-Trailed :
      (body : VpnPeerCreate) → Trailed p base (create_vpn_peer o settings p body)
  unfolding create_vpn_peer
  create_vpn_peer-Trailed body = search rules depth 50 fits 20000

  pub update_vpn_peer_routes-Trailed :
      (id routes : String) → Trailed p base (update_vpn_peer_routes o settings p id routes)
  unfolding update_vpn_peer_routes
  update_vpn_peer_routes-Trailed id routes = search rules depth 50 fits 20000

  pub revoke_vpn_peer-Trailed : (id : String) → Trailed p base (revoke_vpn_peer o settings p id)
  unfolding revoke_vpn_peer
  revoke_vpn_peer-Trailed id = search rules depth 50 fits 20000

  pub enroll_client_vpn-Trailed :
      (name : String) → Trailed p base (enroll_client_vpn o settings p name)
  unfolding enroll_client_vpn
  enroll_client_vpn-Trailed name = search rules depth 50 fits 20000

  pub bootstrap_client-Trailed :
      (name : String) (code : Option String)
      → Trailed p base (bootstrap_client o settings p name code)
  unfolding bootstrap_client
  bootstrap_client-Trailed name code = search rules depth 50 fits 20000

  pub download_client_deployment-Trailed :
      (id : String) (subject : Option String) (url : String)
      → Trailed p base (download_client_deployment o p id subject url)
  unfolding download_client_deployment
  download_client_deployment-Trailed id subject url = search rules depth 50 fits 20000
