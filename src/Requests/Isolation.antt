-- ===== src/Requests/Isolation.antt =====
-- Tenants under the requests of src/g_one/api.py: whose rows a request changes.
use project_g_one.Prelude.{
  ◌≡◌, ◌≢◌, refl, sym, ◌∙◌, ap, String, List, [], ◌∷◌, ◌==◌, arith, eq_iff, where_true,
}
use project_g_one.Outside.{Outside}
use project_g_one.Settings.{Settings}
use project_g_one.Models.Tables.{Kind, RowOf, tenant_of, Database}
use project_g_one.Auth.{Principal}
use project_g_one.Session.{Handler, start}
use project_g_one.Session.Keeps.{Keeps}
use project_g_one.Session.Isolation.{IsIsolated, foreign}
use project_g_one.Isolation.Accounts.{
  create_device-IsIsolated, revoke_device-IsIsolated, create_support_request-IsIsolated,
  decide_support_request-IsIsolated, end_support_request-IsIsolated, create_api_token-IsIsolated,
  revoke_api_token-IsIsolated, create_user-IsIsolated, update_user-IsIsolated,
  delete_user-IsIsolated,
}
use project_g_one.Isolation.Services.{
  create_file_server-IsIsolated, update_file_server-IsIsolated, delete_file_server-IsIsolated,
  create_client_deployment-IsIsolated, update_client_deployment-IsIsolated,
  delete_client_deployment-IsIsolated, download_client_deployment-IsIsolated,
}
use project_g_one.Isolation.Network.{
  configure_vpn_network-IsIsolated, create_vpn_peer-IsIsolated, update_vpn_peer_routes-IsIsolated,
  revoke_vpn_peer-IsIsolated, enroll_client_vpn-IsIsolated, bootstrap_client-IsIsolated,
}
use project_g_one.Requests.Reads.{
  Keeps-list_devices, Keeps-list_support_requests, Keeps-list_tokens, Keeps-list_users,
  Keeps-list_roles, Keeps-list_audit_events, Keeps-list_file_servers, Keeps-list_client_deployments,
  Keeps-read_vpn_network, Keeps-list_vpn_peers,
}
use project_g_one.Requests.{Call, Request, silent, dispatch, handle, serve}

silent-IsIsolated :
    {A : Type 0} {tenant : String} {base : Database} (m : Handler A)
    → Keeps (IsIsolated tenant base) m
    → Keeps (IsIsolated tenant base) (silent m)
silent-IsIsolated m k = record { at = k.at }

module _ (o : Outside) (settings : Settings) (p : Principal) (base : Database) where
  pub dispatch-IsIsolated :
      (call : Call) → Keeps (IsIsolated p.tenant_id base) (dispatch o settings p call)
  unfolding dispatch
  dispatch-IsIsolated (Call.create_device x) =
      silent-IsIsolated _ (create_device-IsIsolated o p base x)
  dispatch-IsIsolated (Call.revoke_device x) =
      silent-IsIsolated _ (revoke_device-IsIsolated o p base x)
  dispatch-IsIsolated Call.list_devices = silent-IsIsolated _ (Keeps-list_devices o p)
  dispatch-IsIsolated (Call.create_support_request x) =
      silent-IsIsolated _ (create_support_request-IsIsolated o p base x)
  dispatch-IsIsolated (Call.decide_support_request x y) =
      silent-IsIsolated _ (decide_support_request-IsIsolated o p base x y)
  dispatch-IsIsolated (Call.end_support_request x) =
      silent-IsIsolated _ (end_support_request-IsIsolated o p base x)
  dispatch-IsIsolated Call.list_support_requests =
      silent-IsIsolated _ (Keeps-list_support_requests o p)
  dispatch-IsIsolated (Call.create_api_token x) =
      silent-IsIsolated _ (create_api_token-IsIsolated o p base x)
  dispatch-IsIsolated (Call.revoke_api_token x) =
      silent-IsIsolated _ (revoke_api_token-IsIsolated o p base x)
  dispatch-IsIsolated Call.list_tokens = silent-IsIsolated _ (Keeps-list_tokens o p)
  dispatch-IsIsolated (Call.create_user x) = silent-IsIsolated _ (create_user-IsIsolated o p base x)
  dispatch-IsIsolated (Call.update_user x y) =
      silent-IsIsolated _ (update_user-IsIsolated o p base x y)
  dispatch-IsIsolated (Call.delete_user x) = silent-IsIsolated _ (delete_user-IsIsolated o p base x)
  dispatch-IsIsolated Call.list_users = silent-IsIsolated _ (Keeps-list_users o p)
  dispatch-IsIsolated Call.list_roles = silent-IsIsolated _ (Keeps-list_roles p)
  dispatch-IsIsolated Call.list_audit_events = silent-IsIsolated _ (Keeps-list_audit_events p)
  dispatch-IsIsolated (Call.create_file_server x) =
      silent-IsIsolated _ (create_file_server-IsIsolated o p base x)
  dispatch-IsIsolated (Call.update_file_server x y) =
      silent-IsIsolated _ (update_file_server-IsIsolated o p base x y)
  dispatch-IsIsolated (Call.delete_file_server x) =
      silent-IsIsolated _ (delete_file_server-IsIsolated o p base x)
  dispatch-IsIsolated Call.list_file_servers = silent-IsIsolated _ (Keeps-list_file_servers o p)
  dispatch-IsIsolated (Call.create_client_deployment x) =
      silent-IsIsolated _ (create_client_deployment-IsIsolated o p base x)
  dispatch-IsIsolated (Call.update_client_deployment x y) =
      silent-IsIsolated _ (update_client_deployment-IsIsolated o p base x y)
  dispatch-IsIsolated (Call.delete_client_deployment x) =
      silent-IsIsolated _ (delete_client_deployment-IsIsolated o p base x)
  dispatch-IsIsolated Call.list_client_deployments =
      silent-IsIsolated _ (Keeps-list_client_deployments o p)
  dispatch-IsIsolated (Call.configure_vpn_network x) =
      silent-IsIsolated _ (configure_vpn_network-IsIsolated o settings p base x)
  dispatch-IsIsolated (Call.create_vpn_peer x) =
      silent-IsIsolated _ (create_vpn_peer-IsIsolated o settings p base x)
  dispatch-IsIsolated (Call.update_vpn_peer_routes x y) =
      silent-IsIsolated _ (update_vpn_peer_routes-IsIsolated o settings p base x y)
  dispatch-IsIsolated (Call.revoke_vpn_peer x) =
      silent-IsIsolated _ (revoke_vpn_peer-IsIsolated o settings p base x)
  dispatch-IsIsolated Call.read_vpn_network =
      silent-IsIsolated _ (Keeps-read_vpn_network o settings p)
  dispatch-IsIsolated Call.list_vpn_peers = silent-IsIsolated _ (Keeps-list_vpn_peers o settings p)
  dispatch-IsIsolated (Call.enroll_client_vpn x) =
      silent-IsIsolated _ (enroll_client_vpn-IsIsolated o settings p base x)
  dispatch-IsIsolated (Call.bootstrap_client x y) =
      silent-IsIsolated _ (bootstrap_client-IsIsolated o settings p base x y)
  dispatch-IsIsolated (Call.download_client_deployment x y z) =
      silent-IsIsolated _ (download_client_deployment-IsIsolated o p base x y z)

-- Whatever a principal asks for, the rows of all other tenants are after the request what they were
-- before it, in every table.
pub handle-foreign :
    (settings : Settings) (r : Request) (db : Database) (k : Kind)
    → foreign r.principal.tenant_id k ((handle settings r db).rows k)
      ≡ foreign r.principal.tenant_id k (db.rows k)
unfolding handle start
handle-foreign settings r db k =
    ((dispatch-IsIsolated r.outside settings r.principal db r.call).at (start db) (record {
      in_session = λ j. refl;
      in_database = λ j. refl;
      state_in_session = refl;
      state_in_database = refl;
    })).in_database
      k

-- The rows of a table that are of the tenant.
abbrev pub own : String → (k : Kind) → List (RowOf k) → List (RowOf k)
own tenant k = where_true (λ r. tenant_of k r == tenant)

own-foreign :
    (t u : String) (k : Kind) (rs : List (RowOf k)) → u ≢ t → own t k (foreign u k rs) ≡ own t k rs
own-foreign t u k [] ne = refl
own-foreign t u k (r ∷ rs) ne =
    ground (arith, own-foreign t u k rs ne, eq_iff (tenant_of k r) t, eq_iff (tenant_of k r) u)

-- All requests are from other tenants.
abbrev pub AllForeign : String → List Request → Type 0
AllForeign tenant [] = Unit
AllForeign tenant (r ∷ rs) = (r.principal.tenant_id ≢ tenant) × AllForeign tenant rs

-- However many requests the principals of other tenants make, the rows of a tenant are the same
-- after them as before, in every table.
pub serve-own :
    (settings : Settings) (tenant : String) (rs : List Request) (db : Database) (k : Kind)
    → AllForeign tenant rs
    → own tenant k ((serve settings rs db).rows k) ≡ own tenant k (db.rows k)
unfolding serve
serve-own settings tenant [] db k others = refl
serve-own settings tenant (r ∷ rs) db k others =
    let next = handle settings r db in
    let u = r.principal.tenant_id in
    serve-own settings tenant rs next k others.1
    ∙ sym (own-foreign tenant u k (next.rows k) others.0)
    ∙ ap (own tenant k) (handle-foreign settings r db k)
    ∙ own-foreign tenant u k (db.rows k) others.0

-- No request of a principal changes the installation state.
pub handle-initialized :
    (settings : Settings) (r : Request) (db : Database)
    → (handle settings r db).initialized ≡ db.initialized
unfolding handle start
handle-initialized settings r db =
    ((dispatch-IsIsolated r.outside settings r.principal db r.call).at (start db) (record {
      in_session = λ j. refl;
      in_database = λ j. refl;
      state_in_session = refl;
      state_in_database = refl;
    })).state_in_database

pub serve-initialized :
    (settings : Settings) (rs : List Request) (db : Database)
    → (serve settings rs db).initialized ≡ db.initialized
unfolding serve
serve-initialized settings [] db = refl
serve-initialized settings (r ∷ rs) db =
    serve-initialized settings rs (handle settings r db) ∙ handle-initialized settings r db
