-- ===== src/Api/Queries.antt =====
-- The routes of src/g_one/api.py that only read, with their replies.
use project_g_one.Prelude.{List, map, [], ◌∷◌, String}
use project_g_one.Outside.{Outside}
use project_g_one.Settings.{Settings}
use project_g_one.Auth.{Principal}
use project_g_one.Session.{Handler, ◌>>=◌, pure}
use project_g_one.Api.Replies.{
  UserRead, ApiTokenRead, DeviceRead, SupportRequestRead, AuditEventRead, VpnPeerRead,
  FileServerRead, DeploymentProfileRead, read_user, read_token, read_device, read_support_request,
  read_event, read_peer, read_file_server, read_profile,
}
use project_g_one.Api.Roles.{RoleRead, list_roles, list_audit_events}
use project_g_one.Api.Sessions.{get_current_principal}
use project_g_one.Api.Users.{list_users}
use project_g_one.Api.Tokens.{list_tokens}
use project_g_one.Api.Devices.{list_devices}
use project_g_one.Api.Support.{list_support_requests}
use project_g_one.Api.Files.{list_file_servers}
use project_g_one.Api.Deployments.{list_client_deployments}
use project_g_one.Api.Vpn.{VpnNetworkRead, read_vpn_network, list_vpn_peers}

-- The routes by the last parts of their paths.
pub data Query : Type 0 where
  me roles users tokens devices support_requests audit_events file_servers client_deployments :
      Query
  vpn_network vpn_peers healthz readyz : Query

pub data Reply : Type 0 where
  principal_reply : Principal → Reply
  roles_reply : List RoleRead → Reply
  users_reply : List UserRead → Reply
  tokens_reply : List ApiTokenRead → Reply
  devices_reply : List DeviceRead → Reply
  support_requests_reply : List SupportRequestRead → Reply
  audit_events_reply : List AuditEventRead → Reply
  file_servers_reply : List FileServerRead → Reply
  deployments_reply : List DeploymentProfileRead → Reply
  network_reply : VpnNetworkRead → Reply
  peers_reply : List VpnPeerRead → Reply
  status_reply : List (String × String) → Reply

unfoldable pub health : List (String × String)
health = ("status", "ok") ∷ []

-- `session.execute(text("SELECT 1"))` succeeds where the database can be reached.
unfoldable pub ready : Handler (List (String × String))
ready = pure (("status", "ready") ∷ [])

module _ {A : Type 0} where
  -- The handler, its result given as the reply that the route declares.
  unfoldable pub replied : (A → Reply) → Handler A → Handler Reply
  replied f m = do found ← m; pure (f found)

module _ (o : Outside) (settings : Settings) (p : Principal) where
  unfoldable pub answer : Query → Handler Reply
  answer Query.me = pure (principal_reply (get_current_principal p))
  answer Query.roles = replied roles_reply (list_roles p)
  answer Query.users = replied (λ found. users_reply (map read_user found)) (list_users o p)
  answer Query.tokens = replied (λ found. tokens_reply (map read_token found)) (list_tokens o p)
  answer Query.devices = replied (λ found. devices_reply (map read_device found)) (list_devices o p)
  answer Query.support_requests =
      replied (λ found. support_requests_reply (map read_support_request found))
        (list_support_requests o p)
  answer Query.audit_events =
      replied (λ found. audit_events_reply (map read_event found)) (list_audit_events p)
  answer Query.file_servers =
      replied (λ found. file_servers_reply (map read_file_server found)) (list_file_servers o p)
  answer Query.client_deployments =
      replied (λ found. deployments_reply (map read_profile found)) (list_client_deployments o p)
  answer Query.vpn_network = replied network_reply (read_vpn_network o settings p)
  answer Query.vpn_peers =
      replied (λ found. peers_reply (map read_peer found)) (list_vpn_peers o settings p)
  answer Query.healthz = pure (status_reply health)
  answer Query.readyz = replied status_reply ready
