-- ===== src/Requests/Trail.antt =====
-- The audit log under the requests of src/g_one/api.py.
use project_g_one.Prelude.{◌≡◌, refl, sym, ◌∙◌, ap, inl, inr, List, [], ◌∷◌, ◌++◌}
use mathlib.Core.List.{append_assoc, append-nil}
use project_g_one.Outside.{Outside}
use project_g_one.Settings.{Settings}
use project_g_one.Models.{AuditEvent}
use project_g_one.Models.Tables.{Kind, Database}
use project_g_one.Auth.{Principal}
use project_g_one.Session.{Handler, start}
use project_g_one.Trail.Rules.{Trailed, Trailed-Keeps, IsOf, IsAccounted}
use project_g_one.Trail.Accounts.{
  create_device-Trailed, revoke_device-Trailed, create_support_request-Trailed,
  decide_support_request-Trailed, end_support_request-Trailed, create_api_token-Trailed,
  revoke_api_token-Trailed, create_user-Trailed, update_user-Trailed, delete_user-Trailed,
}
use project_g_one.Trail.Services.{
  create_file_server-Trailed, update_file_server-Trailed, delete_file_server-Trailed,
  create_client_deployment-Trailed, update_client_deployment-Trailed,
  delete_client_deployment-Trailed, configure_vpn_network-Trailed, create_vpn_peer-Trailed,
  update_vpn_peer_routes-Trailed, revoke_vpn_peer-Trailed, enroll_client_vpn-Trailed,
  bootstrap_client-Trailed, download_client_deployment-Trailed,
}
use project_g_one.Requests.Reads.{
  Keeps-list_devices, Keeps-list_support_requests, Keeps-list_tokens, Keeps-list_users,
  Keeps-list_roles, Keeps-list_audit_events, Keeps-list_file_servers, Keeps-list_client_deployments,
  Keeps-read_vpn_network, Keeps-list_vpn_peers,
}
use project_g_one.Requests.{Call, Request, silent, dispatch, handle, serve}

silent-Trailed :
    {A : Type 0} {p : Principal} {base : Database} (m : Handler A)
    → Trailed p base m
    → Trailed p base (silent m)
silent-Trailed m k = record { at = k.at }

module _ (o : Outside) (settings : Settings) (p : Principal) (base : Database) where
  pub dispatch-Trailed : (call : Call) → Trailed p base (dispatch o settings p call)
  unfolding dispatch
  dispatch-Trailed (Call.create_device x) = silent-Trailed _ (create_device-Trailed o p base x)
  dispatch-Trailed (Call.revoke_device x) = silent-Trailed _ (revoke_device-Trailed o p base x)
  dispatch-Trailed Call.list_devices = silent-Trailed _ (Trailed-Keeps _ (Keeps-list_devices o p))
  dispatch-Trailed (Call.create_support_request x) =
      silent-Trailed _ (create_support_request-Trailed o p base x)
  dispatch-Trailed (Call.decide_support_request x y) =
      silent-Trailed _ (decide_support_request-Trailed o p base x y)
  dispatch-Trailed (Call.end_support_request x) =
      silent-Trailed _ (end_support_request-Trailed o p base x)
  dispatch-Trailed Call.list_support_requests =
      silent-Trailed _ (Trailed-Keeps _ (Keeps-list_support_requests o p))
  dispatch-Trailed (Call.create_api_token x) =
      silent-Trailed _ (create_api_token-Trailed o p base x)
  dispatch-Trailed (Call.revoke_api_token x) =
      silent-Trailed _ (revoke_api_token-Trailed o p base x)
  dispatch-Trailed Call.list_tokens = silent-Trailed _ (Trailed-Keeps _ (Keeps-list_tokens o p))
  dispatch-Trailed (Call.create_user x) = silent-Trailed _ (create_user-Trailed o p base x)
  dispatch-Trailed (Call.update_user x y) = silent-Trailed _ (update_user-Trailed o p base x y)
  dispatch-Trailed (Call.delete_user x) = silent-Trailed _ (delete_user-Trailed o p base x)
  dispatch-Trailed Call.list_users = silent-Trailed _ (Trailed-Keeps _ (Keeps-list_users o p))
  dispatch-Trailed Call.list_roles = silent-Trailed _ (Trailed-Keeps _ (Keeps-list_roles p))
  dispatch-Trailed Call.list_audit_events =
      silent-Trailed _ (Trailed-Keeps _ (Keeps-list_audit_events p))
  dispatch-Trailed (Call.create_file_server x) =
      silent-Trailed _ (create_file_server-Trailed o settings p base x)
  dispatch-Trailed (Call.update_file_server x y) =
      silent-Trailed _ (update_file_server-Trailed o settings p base x y)
  dispatch-Trailed (Call.delete_file_server x) =
      silent-Trailed _ (delete_file_server-Trailed o settings p base x)
  dispatch-Trailed Call.list_file_servers =
      silent-Trailed _ (Trailed-Keeps _ (Keeps-list_file_servers o p))
  dispatch-Trailed (Call.create_client_deployment x) =
      silent-Trailed _ (create_client_deployment-Trailed o settings p base x)
  dispatch-Trailed (Call.update_client_deployment x y) =
      silent-Trailed _ (update_client_deployment-Trailed o settings p base x y)
  dispatch-Trailed (Call.delete_client_deployment x) =
      silent-Trailed _ (delete_client_deployment-Trailed o settings p base x)
  dispatch-Trailed Call.list_client_deployments =
      silent-Trailed _ (Trailed-Keeps _ (Keeps-list_client_deployments o p))
  dispatch-Trailed (Call.configure_vpn_network x) =
      silent-Trailed _ (configure_vpn_network-Trailed o settings p base x)
  dispatch-Trailed (Call.create_vpn_peer x) =
      silent-Trailed _ (create_vpn_peer-Trailed o settings p base x)
  dispatch-Trailed (Call.update_vpn_peer_routes x y) =
      silent-Trailed _ (update_vpn_peer_routes-Trailed o settings p base x y)
  dispatch-Trailed (Call.revoke_vpn_peer x) =
      silent-Trailed _ (revoke_vpn_peer-Trailed o settings p base x)
  dispatch-Trailed Call.read_vpn_network =
      silent-Trailed _ (Trailed-Keeps _ (Keeps-read_vpn_network o settings p))
  dispatch-Trailed Call.list_vpn_peers =
      silent-Trailed _ (Trailed-Keeps _ (Keeps-list_vpn_peers o settings p))
  dispatch-Trailed (Call.enroll_client_vpn x) =
      silent-Trailed _ (enroll_client_vpn-Trailed o settings p base x)
  dispatch-Trailed (Call.bootstrap_client x y) =
      silent-Trailed _ (bootstrap_client-Trailed o settings p base x y)
  dispatch-Trailed (Call.download_client_deployment x y z) =
      silent-Trailed _ (download_client_deployment-Trailed o settings p base x y z)

-- A request leaves the database as it was, or its log has one event more, which names the
-- principal and its tenant.
pub handle-IsAccounted :
    (settings : Settings) (r : Request) (db : Database)
    → IsAccounted r.principal db (handle settings r db)
unfolding handle start
handle-IsAccounted settings r db =
    (dispatch-Trailed r.outside settings r.principal db r.call).at (start db)
      (record { holds = record { same = refl; log_same = refl } })

-- The events that the requests recorded, each by the principal of one of them, in their order.
pub data Recorded : List Request → List AuditEvent → Type 0 where
  nothing : Recorded [] []
  silently :
      {r : Request} {rs : List Request} {es : List AuditEvent}
      → Recorded rs es
      → Recorded (r ∷ rs) es
  recorded :
      {r : Request} {rs : List Request} {es : List AuditEvent} (e : AuditEvent)
      → IsOf r.principal e
      → Recorded rs es
      → Recorded (r ∷ rs) (e ∷ es)

-- After any requests the log is the old log, unchanged, followed by new events: at most one for
-- each request, in order, each with the request's principal as its actor.
pub serve-log :
    (settings : Settings) (rs : List Request) (db : Database)
    → (es : List AuditEvent) × ((serve settings rs db).rows Kind.audit_events
        ≡ db.rows Kind.audit_events ++ es)
      × Recorded rs es
unfolding serve
serve-log settings [] db = ([], sym (append-nil _), nothing)
serve-log settings (r ∷ rs) db =
    extend (handle-IsAccounted settings r db) (serve-log settings rs (handle settings r db))
  where
    Log : List Request → List AuditEvent → Type 0
    Log qs old =
        (es : List AuditEvent) × ((serve settings rs (handle settings r db)).rows Kind.audit_events
          ≡ old ++ es)
        × Recorded qs es

    extend :
        IsAccounted r.principal db (handle settings r db)
        → Log rs ((handle settings r db).rows Kind.audit_events)
        → Log (r ∷ rs) (db.rows Kind.audit_events)
    extend (inl same) (es, log, rec) =
        (es, log ∙ ap (λ (d : Database). d.rows Kind.audit_events ++ es) same, silently rec)
    extend (inr (e, more, own)) (es, log, rec) = (
      e ∷ es,
      log
          ∙ ap (λ (x : List AuditEvent). x ++ es) more
          ∙ append_assoc (db.rows Kind.audit_events) (e ∷ []) es,
      recorded e own rec,
    )
