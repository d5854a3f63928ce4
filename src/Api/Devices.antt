-- ===== src/Api/Devices.antt =====
-- The devices of a tenant: `create_device`, `list_devices` and `revoke_device` of src/g_one/api.py.
use project_g_one.Prelude.{
  String, not, ◌&&◌, ◌||◌, List, [], ◌==◌, none, some, if◌then◌else◌, sort_by, ltb,
}
use project_g_one.Outside.{Outside}
use project_g_one.Models.{Device}
use project_g_one.Models.Tables.{Kind}
use project_g_one.Auth.{Principal, has_role}
use project_g_one.Session.{
  Handler, ◌>>=◌, ◌>>◌, pure, raise_if, http, insert, save, select_or, select_all, commit,
}
use project_g_one.Api.Audit.{now, new_id, audit}

module _ (o : Outside) (p : Principal) where
  unfoldable pub create_device : String → Handler Device
  create_device name = do
    id ← new_id o
    at ← now o
    let device : Device = record {
      id = id;
      tenant_id = p.tenant_id;
      owner_id = p.subject;
      name = name;
      platform = "windows";
      status = "registered";
      created_at = at;
      revoked_at = none;
    }
    insert Kind.devices device
    audit o p "device.registered" "device" id []
    commit
    pure device

  unfoldable pub list_devices : Handler (List Device)
  list_devices = do
    found ← select_all Kind.devices (λ d.
        d.tenant_id == p.tenant_id
        && (has_role p "tenant_admin" || has_role p "support" || d.owner_id == p.subject))
    pure (sort_by (λ a b. ltb a.created_at b.created_at) found)

  unfoldable pub revoke_device : String → Handler (Unit {0})
  revoke_device device_id = do
    device ←
        select_or (http 404 "device not found") Kind.devices
          (λ d. d.tenant_id == p.tenant_id && d.id == device_id)
    raise_if (not (device.owner_id == p.subject) && not (has_role p "tenant_admin"))
        (http 403 "device ownership required")
    if device.status == "revoked" then pure tt else do
      at ← now o
      save Kind.devices (record device { status = "revoked"; revoked_at = some at })
      audit o p "device.revoked" "device" device.id []
      commit
