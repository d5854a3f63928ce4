-- ===== src/Requests/Consistency.antt =====
-- A relation of the working and the committed database that every write of src/g_one/api.py keeps, under the calls of principals.
use project_g_one.Prelude.{String, Bool}
use project_g_one.Outside.{Outside}
use project_g_one.Settings.{Settings}
use project_g_one.Models.Tables.{Database}
use project_g_one.Auth.{Principal}
use project_g_one.Api.Support.{
  SupportRequestCreate, create_support_request, decide_support_request, end_support_request,
}
use project_g_one.Session.{Handler}
use project_g_one.Session.Keeps.{Keeps}
use project_g_one.Consistency.Writes.{IsClosed}
use project_g_one.Consistency.Accounts.{
  closed-create_api_token, closed-create_device, closed-create_user, closed-delete_user,
  closed-revoke_api_token, closed-revoke_device, closed-update_user,
}
use project_g_one.Consistency.Services.{
  closed-create_client_deployment, closed-create_file_server, closed-delete_client_deployment,
  closed-delete_file_server, closed-update_client_deployment, closed-update_file_server,
  closed-download_client_deployment,
}
use project_g_one.Consistency.Network.{
  closed-bootstrap_client, closed-configure_vpn_network, closed-create_vpn_peer,
  closed-enroll_client_vpn, closed-revoke_vpn_peer, closed-update_vpn_peer_routes,
}
use project_g_one.Requests.Reads.{
  Keeps-list_devices, Keeps-list_support_requests, Keeps-list_tokens, Keeps-list_users,
  Keeps-list_roles, Keeps-list_audit_events, Keeps-list_file_servers, Keeps-list_client_deployments,
  Keeps-read_vpn_network, Keeps-list_vpn_peers,
}
use project_g_one.Requests.{Call, silent, dispatch}

module _ {P : Database → Database → Type 0} where
  closed_silent : {A : Type 0} (m : Handler A) → Keeps P m → Keeps P (silent m)
  closed_silent m k = record { at = k.at }

  module _ (c : IsClosed P) (o : Outside) (settings : Settings) where
    pub dispatch-closed :
        (p : Principal)
        → ((body : SupportRequestCreate) → Keeps P (create_support_request o p body))
        → ((id : String) (accept : Bool) → Keeps P (decide_support_request o p id accept))
        → ((id : String) → Keeps P (end_support_request o p id))
        → (call : Call) → Keeps P (dispatch o settings p call)
    unfolding dispatch
    dispatch-closed p new decided ended (Call.create_device x) =
        closed_silent _ (closed-create_device c o p x)
    dispatch-closed p new decided ended (Call.revoke_device x) =
        closed_silent _ (closed-revoke_device c o p x)
    dispatch-closed p new decided ended Call.list_devices = closed_silent _ (Keeps-list_devices o p)
    dispatch-closed p new decided ended (Call.create_support_request x) = closed_silent _ (new x)
    dispatch-closed p new decided ended (Call.decide_support_request x y) =
        closed_silent _ (decided x y)
    dispatch-closed p new decided ended (Call.end_support_request x) = closed_silent _ (ended x)
    dispatch-closed p new decided ended Call.list_support_requests =
        closed_silent _ (Keeps-list_support_requests o p)
    dispatch-closed p new decided ended (Call.create_api_token x) =
        closed_silent _ (closed-create_api_token c o p x)
    dispatch-closed p new decided ended (Call.revoke_api_token x) =
        closed_silent _ (closed-revoke_api_token c o p x)
    dispatch-closed p new decided ended Call.list_tokens = closed_silent _ (Keeps-list_tokens o p)
    dispatch-closed p new decided ended (Call.create_user x) =
        closed_silent _ (closed-create_user c o p x)
    dispatch-closed p new decided ended (Call.update_user x y) =
        closed_silent _ (closed-update_user c o p x y)
    dispatch-closed p new decided ended (Call.delete_user x) =
        closed_silent _ (closed-delete_user c o p x)
    dispatch-closed p new decided ended Call.list_users = closed_silent _ (Keeps-list_users o p)
    dispatch-closed p new decided ended Call.list_roles = closed_silent _ (Keeps-list_roles p)
    dispatch-closed p new decided ended Call.list_audit_events =
        closed_silent _ (Keeps-list_audit_events p)
    dispatch-closed p new decided ended (Call.create_file_server x) =
        closed_silent _ (closed-create_file_server c o p x)
    dispatch-closed p new decided ended (Call.update_file_server x y) =
        closed_silent _ (closed-update_file_server c o p x y)
    dispatch-closed p new decided ended (Call.delete_file_server x) =
        closed_silent _ (closed-delete_file_server c o p x)
    dispatch-closed p new decided ended Call.list_file_servers =
        closed_silent _ (Keeps-list_file_servers o p)
    dispatch-closed p new decided ended (Call.create_client_deployment x) =
        closed_silent _ (closed-create_client_deployment c o p x)
    dispatch-closed p new decided ended (Call.update_client_deployment x y) =
        closed_silent _ (closed-update_client_deployment c o p x y)
    dispatch-closed p new decided ended (Call.delete_client_deployment x) =
        closed_silent _ (closed-delete_client_deployment c o p x)
    dispatch-closed p new decided ended Call.list_client_deployments =
        closed_silent _ (Keeps-list_client_deployments o p)
    dispatch-closed p new decided ended (Call.configure_vpn_network x) =
        closed_silent _ (closed-configure_vpn_network c o settings p x)
    dispatch-closed p new decided ended (Call.create_vpn_peer x) =
        closed_silent _ (closed-create_vpn_peer c o settings p x)
    dispatch-closed p new decided ended (Call.update_vpn_peer_routes x y) =
        closed_silent _ (closed-update_vpn_peer_routes c o settings p x y)
    dispatch-closed p new decided ended (Call.revoke_vpn_peer x) =
        closed_silent _ (closed-revoke_vpn_peer c o settings p x)
    dispatch-closed p new decided ended Call.read_vpn_network =
        closed_silent _ (Keeps-read_vpn_network o settings p)
    dispatch-closed p new decided ended Call.list_vpn_peers =
        closed_silent _ (Keeps-list_vpn_peers o settings p)
    dispatch-closed p new decided ended (Call.enroll_client_vpn x) =
        closed_silent _ (closed-enroll_client_vpn c o settings p x)
    dispatch-closed p new decided ended (Call.bootstrap_client x y) =
        closed_silent _ (closed-bootstrap_client c o settings p x y)
    dispatch-closed p new decided ended (Call.download_client_deployment x y z) =
        closed_silent _ (closed-download_client_deployment c o p x y z)
