-- ===== src/Requests.antt =====
-- The routes of src/g_one/api.py that a signed-in principal calls, as one type of calls, and their
-- dispatch to the handlers.
pub mod Reads
pub mod Isolation
pub mod Trail
pub mod Access
pub mod Consistency
pub mod Progress
pub mod Setup
pub mod Decision
pub mod Answer
pub mod SignIn
pub mod Deletion
use project_g_one.Prelude.{String, Bool, Option, List, [], ◌∷◌}
use project_g_one.Outside.{Outside}
use project_g_one.Settings.{Settings}
use project_g_one.Models.Tables.{Database}
use project_g_one.Auth.{Principal}
use project_g_one.Session.{World, Handler, Outcome, returned, raised, run_request}
use project_g_one.Api.Devices
use project_g_one.Api.Support
use project_g_one.Api.Support.{SupportRequestCreate}
use project_g_one.Api.Tokens
use project_g_one.Api.Tokens.{ApiTokenCreate}
use project_g_one.Api.Users
use project_g_one.Api.Users.{UserCreate, UserUpdate}
use project_g_one.Api.Roles
use project_g_one.Api.Files
use project_g_one.Api.Files.{FileServerCreate}
use project_g_one.Api.Deployments
use project_g_one.Api.Deployments.{DeploymentProfileCreate}
use project_g_one.Api.Vpn
use project_g_one.Api.Vpn.{VpnNetworkCreate, VpnPeerCreate}
use project_g_one.Api.Client
use project_g_one.Api.Download

pub data Call : Type 0 where
  create_device : String → Call
  revoke_device : String → Call
  list_devices : Call
  create_support_request : SupportRequestCreate → Call
  decide_support_request : String → Bool → Call
  end_support_request : String → Call
  list_support_requests : Call
  create_api_token : ApiTokenCreate → Call
  revoke_api_token : String → Call
  list_tokens : Call
  create_user : UserCreate → Call
  update_user : String → UserUpdate → Call
  delete_user : String → Call
  list_users : Call
  list_roles : Call
  list_audit_events : Call
  create_file_server : FileServerCreate → Call
  update_file_server : String → FileServerCreate → Call
  delete_file_server : String → Call
  list_file_servers : Call
  create_client_deployment : DeploymentProfileCreate → Call
  update_client_deployment : String → DeploymentProfileCreate → Call
  delete_client_deployment : String → Call
  list_client_deployments : Call
  configure_vpn_network : VpnNetworkCreate → Call
  create_vpn_peer : VpnPeerCreate → Call
  update_vpn_peer_routes : String → String → Call
  revoke_vpn_peer : String → Call
  read_vpn_network : Call
  list_vpn_peers : Call
  enroll_client_vpn : String → Call
  bootstrap_client : String → Option String → Call
  -- The profile, the subject and the base of the request's URL.
  download_client_deployment : String → Option String → String → Call

-- The handler, with its reply left out.
abbrev pub ended : {A : Type 0} → Outcome A → Outcome (Unit {0})
ended (returned a) = returned tt
ended (raised e) = raised e

abbrev pub silent : {A : Type 0} → Handler A → Handler (Unit {0})
silent m w = let (r, w') = m w in (ended r, w')

module _ (o : Outside) (settings : Settings) (p : Principal) where
  unfoldable pub dispatch : Call → Handler (Unit {0})
  dispatch (Call.create_device x) = silent (Devices.create_device o p x)
  dispatch (Call.revoke_device x) = silent (Devices.revoke_device o p x)
  dispatch Call.list_devices = silent (Devices.list_devices o p)
  dispatch (Call.create_support_request x) = silent (Support.create_support_request o p x)
  dispatch (Call.decide_support_request x y) = silent (Support.decide_support_request o p x y)
  dispatch (Call.end_support_request x) = silent (Support.end_support_request o p x)
  dispatch Call.list_support_requests = silent (Support.list_support_requests o p)
  dispatch (Call.create_api_token x) = silent (Tokens.create_api_token o p x)
  dispatch (Call.revoke_api_token x) = silent (Tokens.revoke_api_token o p x)
  dispatch Call.list_tokens = silent (Tokens.list_tokens o p)
  dispatch (Call.create_user x) = silent (Users.create_user o p x)
  dispatch (Call.update_user x y) = silent (Users.update_user o p x y)
  dispatch (Call.delete_user x) = silent (Users.delete_user o p x)
  dispatch Call.list_users = silent (Users.list_users o p)
  dispatch Call.list_roles = silent (Roles.list_roles p)
  dispatch Call.list_audit_events = silent (Roles.list_audit_events p)
  dispatch (Call.create_file_server x) = silent (Files.create_file_server o p x)
  dispatch (Call.update_file_server x y) = silent (Files.update_file_server o p x y)
  dispatch (Call.delete_file_server x) = silent (Files.delete_file_server o p x)
  dispatch Call.list_file_servers = silent (Files.list_file_servers o p)
  dispatch (Call.create_client_deployment x) = silent (Deployments.create_client_deployment o p x)
  dispatch (Call.update_client_deployment x y) =
      silent (Deployments.update_client_deployment o p x y)
  dispatch (Call.delete_client_deployment x) = silent (Deployments.delete_client_deployment o p x)
  dispatch Call.list_client_deployments = silent (Deployments.list_client_deployments o p)
  dispatch (Call.configure_vpn_network x) = silent (Vpn.configure_vpn_network o settings p x)
  dispatch (Call.create_vpn_peer x) = silent (Vpn.create_vpn_peer o settings p x)
  dispatch (Call.update_vpn_peer_routes x y) = silent (Vpn.update_vpn_peer_routes o settings p x y)
  dispatch (Call.revoke_vpn_peer x) = silent (Vpn.revoke_vpn_peer o settings p x)
  dispatch Call.read_vpn_network = silent (Vpn.read_vpn_network o settings p)
  dispatch Call.list_vpn_peers = silent (Vpn.list_vpn_peers o settings p)
  dispatch (Call.enroll_client_vpn x) = silent (Client.enroll_client_vpn o settings p x)
  dispatch (Call.bootstrap_client x y) = silent (Client.bootstrap_client o settings p x y)
  dispatch (Call.download_client_deployment x y z) =
      silent (Download.download_client_deployment o p x y z)

-- One request: what it reads from outside, who sends it, and what it asks for.
pub record Request : Type 0 where
  pub outside : Outside
  pub principal : Principal
  pub call : Call

unfoldable pub handle : Settings → Request → Database → Database
unfolding run_request dispatch
handle settings r db = (run_request (dispatch r.outside settings r.principal r.call) db).1

-- Requests one after the other, each with a session of its own.
unfoldable pub serve : Settings → List Request → Database → Database
unfolding handle
serve settings [] db = db
serve settings (r ∷ rs) db = serve settings rs (handle settings r db)
