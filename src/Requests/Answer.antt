-- ===== src/Requests/Answer.antt =====
-- An owner's decision goes through: `decide_support_request` of src/g_one/api.py.
use Prim.Native.String.{◌++◌}
use project_g_one.Prelude.{
  ◌≡◌, refl, ◌<◌, String, Bool, true, false, some, List, [], ◌∷◌, any, ◌==◌, arith, if◌then◌else◌,
  eq_iff,
}
use project_g_one.Outside.{Outside}
use project_g_one.Models.{SupportRequest, AuditEvent}
use project_g_one.Models.Tables.{Kind, Database, with_table}
use project_g_one.Models.Constraints.{insert_conflict, update_conflict, same_unique}
use project_g_one.Auth.{Principal}
use project_g_one.Session.{
  returned, ◌>>=◌, start, run_request, pure, raise, raise_if, insert, save, select_first, select_or,
  commit, read,
}
use project_g_one.Api.Audit.{audit}
use project_g_one.Api.Support.{decide_support_request, get_support_request, target_device, is_owned}
use project_g_one.Requests.Decision.{stored_request, stored_device}

no_update_conflict :
    (a : SupportRequest) (rs : List SupportRequest)
    → update_conflict Kind.support_requests a rs ≡ false
unfolding update_conflict same_unique
no_update_conflict a [] = refl
no_update_conflict a (r ∷ rs) = ground (arith, no_update_conflict a rs)

no_insert_conflict :
    (a : AuditEvent) (es : List AuditEvent)
    → any (λ e. a.id == e.id) es ≡ false
    → insert_conflict Kind.audit_events a es ≡ false
unfolding insert_conflict same_unique
no_insert_conflict a [] h = refl
no_insert_conflict a (e ∷ es) h = ground (arith, no_insert_conflict a es)

module _ (o : Outside) (p : Principal) (db : Database) where
  -- Where the owner of the target device decides on a request that is pending and has not expired, and
  -- the new audit event has an id of its own, the decision returns that request with its new state and
  -- the time of the decision.
  pub decide_support_request-returns :
      (id : String) (accept : Bool) (request : SupportRequest)
      → stored_request o p db id ≡ some request
      → is_owned (stored_device o p db request) p.subject ≡ true
      → request.state ≡ "pending"
      → o.clock 0 < request.expires_at
      → any (λ e. o.uuid4 2 == e.id) (db.rows Kind.audit_events) ≡ false
      → (run_request (decide_support_request o p id accept) db).0
        ≡ returned (record request {
          state = if accept then "accepted" else "denied";
          decided_at = some (o.clock 1);
        })
  unfolding run_request start decide_support_request get_support_request target_device ◌>>=◌
      raise_if raise pure insert save commit read audit select_first select_or with_table
  decide_support_request-returns id accept request e owned pending early fresh = ground (
    arith,
    eq_iff request.state "pending",
    no_update_conflict
        (record request {
          state = if accept then "accepted" else "denied";
          decided_at = some (o.clock 1);
        })
        (db.rows Kind.support_requests),
    no_insert_conflict (event request) (db.rows Kind.audit_events) fresh,
  )
    where
      event : SupportRequest → AuditEvent
      event request = record {
        id = o.uuid4 2;
        tenant_id = p.tenant_id;
        actor_id = p.subject;
        action = "support." ++ (if accept then "accepted" else "denied");
        target_type = "support_request";
        target_id = request.id;
        outcome = "success";
        details = [];
        occurred_at = o.clock 3;
      }
