-- ===== src/Requests/Reads.antt =====
-- The handlers of src/g_one/api.py that only read, under any invariant.
use project_g_one.Outside.{Outside}
use project_g_one.Settings.{Settings}
use project_g_one.Models.Tables.{Database}
use project_g_one.Auth.{Principal}
use project_g_one.Session.Keeps.{Keeps, keeps_rules}
use project_g_one.Api.Selects.{query_rules}
use project_g_one.Api.Devices.{list_devices}
use project_g_one.Api.Support.{list_support_requests}
use project_g_one.Api.Tokens.{list_tokens}
use project_g_one.Api.Users.{list_users}
use project_g_one.Api.Roles.{list_roles, list_audit_events}
use project_g_one.Api.Files.{list_file_servers}
use project_g_one.Api.Deployments.{list_client_deployments}
use project_g_one.Api.Vpn.{read_vpn_network, list_vpn_peers}
use project_g_one.Auth.{require_role}
use project_g_one.Api.Vpn.{network_response}
use project_g_one.Models.{VpnNetwork}
use project_g_one.Prelude.{String, List}

module _ {ℓ} {P : Database → Database → Type ℓ} where
  pub Keeps-require_role :
      (p : Principal) (allowed : List String) → Keeps P (require_role p allowed)
  unfolding require_role
  Keeps-require_role p allowed = search keeps_rules

  pub Keeps-network_response :
      (o : Outside) (settings : Settings) (network : VpnNetwork)
      → Keeps P (network_response o settings network)
  unfolding network_response
  Keeps-network_response o settings network = search keeps_rules depth 12

ruleset read_rules = (keeps_rules, query_rules, Keeps-require_role, Keeps-network_response)

module _ {ℓ} {P : Database → Database → Type ℓ} where
  pub Keeps-list_devices : (o : Outside) (p : Principal) → Keeps P (list_devices o p)
  unfolding list_devices
  Keeps-list_devices o p = search read_rules depth 20

  pub Keeps-list_support_requests :
      (o : Outside) (p : Principal) → Keeps P (list_support_requests o p)
  unfolding list_support_requests
  Keeps-list_support_requests o p = search read_rules depth 20

  pub Keeps-list_tokens : (o : Outside) (p : Principal) → Keeps P (list_tokens o p)
  unfolding list_tokens
  Keeps-list_tokens o p = search read_rules depth 20

  pub Keeps-list_users : (o : Outside) (p : Principal) → Keeps P (list_users o p)
  unfolding list_users
  Keeps-list_users o p = search read_rules depth 20

  pub Keeps-list_roles : (p : Principal) → Keeps P (list_roles p)
  unfolding list_roles
  Keeps-list_roles p = search read_rules depth 20

  pub Keeps-list_audit_events : (p : Principal) → Keeps P (list_audit_events p)
  unfolding list_audit_events
  Keeps-list_audit_events p = search read_rules depth 20

  pub Keeps-list_file_servers : (o : Outside) (p : Principal) → Keeps P (list_file_servers o p)
  unfolding list_file_servers
  Keeps-list_file_servers o p = search read_rules depth 20

  pub Keeps-list_client_deployments :
      (o : Outside) (p : Principal) → Keeps P (list_client_deployments o p)
  unfolding list_client_deployments
  Keeps-list_client_deployments o p = search read_rules depth 20

  pub Keeps-read_vpn_network :
      (o : Outside) (settings : Settings) (p : Principal) → Keeps P (read_vpn_network o settings p)
  unfolding read_vpn_network
  Keeps-read_vpn_network o settings p = search read_rules depth 20

  pub Keeps-list_vpn_peers :
      (o : Outside) (settings : Settings) (p : Principal) → Keeps P (list_vpn_peers o settings p)
  unfolding list_vpn_peers
  Keeps-list_vpn_peers o settings p = search read_rules depth 20
