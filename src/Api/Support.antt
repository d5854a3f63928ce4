-- ===== src/Api/Support.antt =====
-- Remote support: the request handlers of src/g_one/api.py, and the permissions and the body of
-- src/g_one/schemas.py.
use Prim.Native.String.{◌++◌}
use project_g_one.Prelude.{
  ℕ, ◌+◌, ◌*◌, String, Bool, false, not, ◌&&◌, ◌||◌, List, [], ◌∷◌, ◌==◌, Option, none, some, leb,
  ltb, if◌then◌else◌, map, any, sort_by, take,
}
use project_g_one.Text.Sets.{sorted_set}
use project_g_one.Outside.{Outside}
use project_g_one.Models.{Device, SupportRequest, texts}
use project_g_one.Models.Tables.{Kind}
use project_g_one.Auth.{Principal, has_role, require_role}
use project_g_one.Session.{
  Handler, ◌>>=◌, ◌>>◌, pure, raise, raise_if, http, insert, save, select_first, select_or,
  select_all, commit,
}
use project_g_one.Api.Audit.{now, new_id, audit}

pub data SupportPermission : Type 0 where
  screen_view input_control clipboard file_transfer : SupportPermission

-- `permission.value`
abbrev pub value_of : SupportPermission → String
value_of screen_view = "screen_view"
value_of input_control = "input_control"
value_of clipboard = "clipboard"
value_of file_transfer = "file_transfer"

pub record SupportRequestCreate : Type 0 where
  pub target_device_id : String
  pub purpose : String
  pub permissions : List SupportPermission
  pub lifetime_seconds : ℕ

-- `device is not None and device.owner_id == subject`
abbrev pub is_owned : Option Device → String → Bool
is_owned none subject = false
is_owned (some device) subject = device.owner_id == subject

module _ (o : Outside) (p : Principal) where
  unfoldable pub create_support_request : SupportRequestCreate → Handler SupportRequest
  create_support_request body = do
    require_role p ("support" ∷ "tenant_admin" ∷ [])
    device ← select_or (http 404 "active device not found") Kind.devices (λ d.
        d.tenant_id == p.tenant_id && (d.id == body.target_device_id && d.status == "registered"))
    at ← now o
    id ← new_id o
    created ← now o
    let request : SupportRequest = record {
      id = id;
      tenant_id = p.tenant_id;
      requester_id = p.subject;
      target_device_id = device.id;
      purpose = body.purpose;
      permissions = sorted_set (map value_of body.permissions);
      state = "pending";
      created_at = created;
      expires_at = at + body.lifetime_seconds * 1_000_000;
      decided_at = none;
      ended_at = none;
    }
    insert Kind.support_requests request
    audit o p "support.requested" "support_request" id
        (("permissions", texts request.permissions) ∷ [])
    commit
    pure request

  -- A member sees the requests for the devices that it owns.
  unfoldable pub list_support_requests : Handler (List SupportRequest)
  list_support_requests = do
    owned ← select_all Kind.devices (λ d. d.tenant_id == p.tenant_id && d.owner_id == p.subject)
    found ← select_all Kind.support_requests (λ r.
        r.tenant_id == p.tenant_id
        && (has_role p "tenant_admin"
            || has_role p "support"
            || any (λ d. r.target_device_id == d.id) owned))
    pure (take 200 (sort_by (λ a b. ltb b.created_at a.created_at) found))

  unfoldable pub get_support_request : String → Handler SupportRequest
  get_support_request request_id =
      select_or (http 404 "support request not found") Kind.support_requests
        (λ r. r.tenant_id == p.tenant_id && r.id == request_id)

  unfoldable pub target_device : SupportRequest → Handler (Option Device)
  target_device request =
      select_first Kind.devices
        (λ d. d.tenant_id == p.tenant_id && d.id == request.target_device_id)

  unfoldable pub decide_support_request : String → Bool → Handler SupportRequest
  decide_support_request request_id accept = do
    request ← get_support_request request_id
    device ← target_device request
    raise_if (not (is_owned device p.subject)) (http 403 "target device ownership required")
    raise_if (not (request.state == "pending")) (http 409 "support request is no longer pending")
    at ← now o
    if leb request.expires_at at
        then (do
          save Kind.support_requests (record request { state = "expired" })
          audit o p "support.expired" "support_request" request.id []
          commit
          raise (http 410 "support request expired"))
        else (do
          decided ← now o
          let state = if accept then "accepted" else "denied"
          let changed : SupportRequest = record request { state = state; decided_at = some decided }
          save Kind.support_requests changed
          audit o p ("support." ++ state) "support_request" request.id []
          commit
          pure changed)

  unfoldable pub end_support_request : String → Handler SupportRequest
  end_support_request request_id = do
    request ← get_support_request request_id
    device ← target_device request
    raise_if (not (p.subject == request.requester_id) && not (is_owned device p.subject))
        (http 403 "session participant required")
    raise_if (not (request.state == "accepted")) (http 409 "support session is not active")
    at ← now o
    let changed : SupportRequest = record request { state = "ended"; ended_at = some at }
    save Kind.support_requests changed
    audit o p "support.ended" "support_request" request.id []
    commit
    pure changed
