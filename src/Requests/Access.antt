-- ===== src/Requests/Access.antt =====
-- Which calls need a role, and what a principal without it gets.
use project_g_one.Prelude.{◌≡◌, ap, String, true, Option, none, some, List, [], ◌∷◌, arith}
use mathlib.Core.Path.{subst}
use project_g_one.Outside.{Outside}
use project_g_one.Settings.{Settings}
use project_g_one.Models.Tables.{Database}
use project_g_one.Auth.{Principal, is_disjoint, require_role}
use project_g_one.Session.{World, Handler, raised, http, ◌>>=◌, start, run_request, raise_if}
use project_g_one.Api.Support
use project_g_one.Api.Tokens
use project_g_one.Api.Users
use project_g_one.Api.Roles
use project_g_one.Api.Files
use project_g_one.Api.Deployments
use project_g_one.Api.Vpn
use project_g_one.Requests.{Call, Request, silent, dispatch}

-- The roles one of which the call needs, and none where the handler asks for no role.
abbrev pub allowed_roles : Call → Option (List String)
allowed_roles (Call.create_device _) = none
allowed_roles (Call.revoke_device _) = none
allowed_roles Call.list_devices = none
allowed_roles (Call.decide_support_request _ _) = none
allowed_roles (Call.end_support_request _) = none
allowed_roles Call.list_support_requests = none
allowed_roles Call.list_client_deployments = none
allowed_roles Call.read_vpn_network = none
allowed_roles (Call.enroll_client_vpn _) = none
allowed_roles (Call.bootstrap_client _ _) = none
allowed_roles (Call.download_client_deployment _ _ _) = none
allowed_roles (Call.create_support_request _) = some ("support" ∷ "tenant_admin" ∷ [])
allowed_roles Call.list_vpn_peers = some ("tenant_admin" ∷ "support" ∷ [])
allowed_roles Call.list_audit_events = some ("tenant_admin" ∷ "auditor" ∷ [])
allowed_roles _ = some ("tenant_admin" ∷ [])

module _ (p : Principal) where
  -- Without one of the roles the handler ends at once.
  abbrev IsGuarded : Option (List String) → Handler (Unit {0}) → Type 0
  IsGuarded none m = Unit
  IsGuarded (some roles) m =
      is_disjoint p.roles roles ≡ true
      → (w : World) → m w ≡ (raised (http 403 "insufficient role"), w)

  guarded :
      {A : Type 0} (roles : List String) (f : Unit {0} → Handler A)
      → IsGuarded (some roles) (silent (require_role p roles >>= f))
  unfolding ◌>>=◌ require_role raise_if
  guarded roles f h w = ground (arith)

module _ (o : Outside) (settings : Settings) (p : Principal) where
  dispatch-IsGuarded : (call : Call) → IsGuarded p (allowed_roles call) (dispatch o settings p call)
  unfolding dispatch Support.create_support_request Tokens.create_api_token Tokens.revoke_api_token
      Tokens.list_tokens Users.create_user Users.update_user Users.delete_user Users.list_users
      Roles.list_roles Roles.list_audit_events Files.create_file_server Files.update_file_server
      Files.delete_file_server Files.list_file_servers Deployments.create_client_deployment
      Deployments.update_client_deployment Deployments.delete_client_deployment
      Vpn.configure_vpn_network Vpn.create_vpn_peer Vpn.update_vpn_peer_routes Vpn.revoke_vpn_peer
      Vpn.list_vpn_peers
  dispatch-IsGuarded (Call.create_device x) = tt
  dispatch-IsGuarded (Call.revoke_device x) = tt
  dispatch-IsGuarded Call.list_devices = tt
  dispatch-IsGuarded (Call.create_support_request x) = guarded p _ _
  dispatch-IsGuarded (Call.decide_support_request x y) = tt
  dispatch-IsGuarded (Call.end_support_request x) = tt
  dispatch-IsGuarded Call.list_support_requests = tt
  dispatch-IsGuarded (Call.create_api_token x) = guarded p _ _
  dispatch-IsGuarded (Call.revoke_api_token x) = guarded p _ _
  dispatch-IsGuarded Call.list_tokens = guarded p _ _
  dispatch-IsGuarded (Call.create_user x) = guarded p _ _
  dispatch-IsGuarded (Call.update_user x y) = guarded p _ _
  dispatch-IsGuarded (Call.delete_user x) = guarded p _ _
  dispatch-IsGuarded Call.list_users = guarded p _ _
  dispatch-IsGuarded Call.list_roles = guarded p _ _
  dispatch-IsGuarded Call.list_audit_events = guarded p _ _
  dispatch-IsGuarded (Call.create_file_server x) = guarded p _ _
  dispatch-IsGuarded (Call.update_file_server x y) = guarded p _ _
  dispatch-IsGuarded (Call.delete_file_server x) = guarded p _ _
  dispatch-IsGuarded Call.list_file_servers = guarded p _ _
  dispatch-IsGuarded (Call.create_client_deployment x) = guarded p _ _
  dispatch-IsGuarded (Call.update_client_deployment x y) = guarded p _ _
  dispatch-IsGuarded (Call.delete_client_deployment x) = guarded p _ _
  dispatch-IsGuarded Call.list_client_deployments = tt
  dispatch-IsGuarded (Call.configure_vpn_network x) = guarded p _ _
  dispatch-IsGuarded (Call.create_vpn_peer x) = guarded p _ _
  dispatch-IsGuarded (Call.update_vpn_peer_routes x y) = guarded p _ _
  dispatch-IsGuarded (Call.revoke_vpn_peer x) = guarded p _ _
  dispatch-IsGuarded Call.read_vpn_network = tt
  dispatch-IsGuarded Call.list_vpn_peers = guarded p _ _
  dispatch-IsGuarded (Call.enroll_client_vpn x) = tt
  dispatch-IsGuarded (Call.bootstrap_client x y) = tt
  dispatch-IsGuarded (Call.download_client_deployment x y z) = tt

-- A call that needs a role, from a principal that has none of the accepted ones, is answered with
-- 403, and the database stays as it was.
pub dispatch-forbidden :
    (settings : Settings) (r : Request) (roles : List String) (db : Database)
    → allowed_roles r.call ≡ some roles
    → is_disjoint r.principal.roles roles ≡ true
    → run_request (dispatch r.outside settings r.principal r.call) db
      ≡ (raised (http 403 "insufficient role"), db)
unfolding run_request start
dispatch-forbidden settings r roles db needs lacks =
    ap (λ x. (x.0, x.1.committed))
      (subst (λ x. IsGuarded r.principal x (dispatch r.outside settings r.principal r.call)) needs
        (dispatch-IsGuarded r.outside settings r.principal r.call) lacks (start db))
