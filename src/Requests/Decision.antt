-- ===== src/Requests/Decision.antt =====
-- The decision on a support request and its end: `decide_support_request` and
-- `end_support_request` of src/g_one/api.py.
use project_g_one.Prelude.{
  ◌≡◌, refl, ◌<◌, String, Bool, true, Option, none, some, ◌==◌, ◌&&◌, arith, find_first,
  if◌then◌else◌, eq_iff, ◌⊎◌,
}
use project_g_one.Outside.{Outside}
use project_g_one.Models.{Device, SupportRequest}
use project_g_one.Models.Tables.{Kind, Database}
use project_g_one.Auth.{Principal}
use project_g_one.Session.{
  returned, ◌>>=◌, start, run_request, pure, raise, raise_if, insert, save, select_first, select_or,
  commit, read,
}
use project_g_one.Api.Audit.{audit}
use project_g_one.Api.Support.{
  decide_support_request, get_support_request, target_device, is_owned, end_support_request,
}

module _ (o : Outside) (p : Principal) (db : Database) where
  -- The request with the id, among the tenant's.
  abbrev pub stored_request : String → Option SupportRequest
  stored_request id =
      find_first (λ r. r.tenant_id == p.tenant_id && r.id == id) (db.rows Kind.support_requests)

  -- The device of a request, among the tenant's.
  abbrev pub stored_device : SupportRequest → Option Device
  stored_device request =
      find_first (λ d. d.tenant_id == p.tenant_id && d.id == request.target_device_id)
        (db.rows Kind.devices)

  -- The stored request is pending and not expired, the principal owns its device, and the reply
  -- is that request as decided.
  abbrev pub IsDecided : String → Bool → SupportRequest → Type 0
  IsDecided id accept reply =
      (request : SupportRequest) × (stored_request id ≡ some request)
      × (is_owned (stored_device request) p.subject ≡ true)
      × (request.state ≡ "pending")
      × (o.clock 0 < request.expires_at)
      × (reply.id ≡ request.id)
      × (reply.state ≡ (if accept then "accepted" else "denied"))

  -- A decision that returns was made by the owner of the target device, on a request of the tenant
  -- that was pending and had not expired; the reply is that request with its new state.
  pub decide_support_request-IsDecided :
      (id : String) (accept : Bool) (reply : SupportRequest)
      → (run_request (decide_support_request o p id accept) db).0 ≡ returned reply
      → IsDecided id accept reply
  unfolding run_request start decide_support_request get_support_request target_device ◌>>=◌
      raise_if raise pure insert save commit read audit select_first select_or
  decide_support_request-IsDecided id accept reply h = decided (stored_request id) refl
    where
      decided :
          (found : Option SupportRequest) → stored_request id ≡ found → IsDecided id accept reply
      decided none e = ground (arith)
      decided (some request) e = (
        request,
        e,
        ground (arith),
        ground (arith, eq_iff request.state "pending"),
        ground (arith),
        ground (arith),
        ground (arith),
      )

  -- The stored request was accepted, the principal is its requester or owns its device, and the
  -- reply is that request as ended.
  abbrev pub IsEnded : String → SupportRequest → Type 0
  IsEnded id reply =
      (request : SupportRequest) × (stored_request id ≡ some request)
      × ((request.requester_id ≡ p.subject) ⊎ (is_owned (stored_device request) p.subject ≡ true))
      × (request.state ≡ "accepted")
      × (reply.id ≡ request.id)
      × (reply.state ≡ "ended")

  -- A session that ends was accepted, and it is ended by its requester or by the owner of the target
  -- device; the reply is that request with the state "ended".
  pub end_support_request-IsEnded :
      (id : String) (reply : SupportRequest)
      → (run_request (end_support_request o p id) db).0 ≡ returned reply
      → IsEnded id reply
  unfolding run_request start end_support_request get_support_request target_device ◌>>=◌ raise_if
      raise pure insert save commit read audit select_first select_or
  end_support_request-IsEnded id reply h = ended (stored_request id) refl
    where
      ended : (found : Option SupportRequest) → stored_request id ≡ found → IsEnded id reply
      ended none e = ground (arith)
      ended (some request) e = (
        request,
        e,
        ground (arith, eq_iff p.subject request.requester_id),
        ground (arith, eq_iff request.state "accepted"),
        ground (arith),
        ground (arith),
      )
