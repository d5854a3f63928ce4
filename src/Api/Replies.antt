-- ===== src/Api/Replies.antt =====
-- The replies of src/g_one/schemas.py: each picks the fields of a row that the outside may see
-- (`from_attributes`), and FastAPI applies it as the `response_model` of a route.
use project_g_one.Prelude.{ℕ, String, Bool, Option, List}
use project_g_one.Models.{
  Detail, Device, SupportRequest, AuditEvent, WorkspaceUser, ApiToken, VpnPeer, FileServer,
  ClientDeploymentProfile,
}

pub record UserRead : Type 0 where
  pub id : String
  pub subject : String
  pub display_name : String
  pub email : Option String
  pub roles : List String
  pub vpn_address : Option String
  pub allowed_ips : String
  pub policy_version : ℕ
  pub status : String
  pub created_at : ℕ
  pub updated_at : ℕ

abbrev pub read_user : WorkspaceUser → UserRead
read_user u = record {
  id = u.id;
  subject = u.subject;
  display_name = u.display_name;
  email = u.email;
  roles = u.roles;
  vpn_address = u.vpn_address;
  allowed_ips = u.allowed_ips;
  policy_version = u.policy_version;
  status = u.status;
  created_at = u.created_at;
  updated_at = u.updated_at;
}

pub record ApiTokenRead : Type 0 where
  pub id : String
  pub name : String
  pub prefix : String
  pub scopes : List String
  pub created_by : String
  pub expires_at : ℕ
  pub created_at : ℕ
  pub revoked_at : Option ℕ

abbrev pub read_token : ApiToken → ApiTokenRead
read_token t = record {
  id = t.id;
  name = t.name;
  prefix = t.prefix;
  scopes = t.scopes;
  created_by = t.created_by;
  expires_at = t.expires_at;
  created_at = t.created_at;
  revoked_at = t.revoked_at;
}

pub record DeviceRead : Type 0 where
  pub id : String
  pub owner_id : String
  pub name : String
  pub platform : String
  pub status : String
  pub created_at : ℕ
  pub revoked_at : Option ℕ

abbrev pub read_device : Device → DeviceRead
read_device d = record {
  id = d.id;
  owner_id = d.owner_id;
  name = d.name;
  platform = d.platform;
  status = d.status;
  created_at = d.created_at;
  revoked_at = d.revoked_at;
}

pub record SupportRequestRead : Type 0 where
  pub id : String
  pub requester_id : String
  pub target_device_id : String
  pub purpose : String
  pub permissions : List String
  pub state : String
  pub created_at : ℕ
  pub expires_at : ℕ
  pub decided_at : Option ℕ
  pub ended_at : Option ℕ

abbrev pub read_support_request : SupportRequest → SupportRequestRead
read_support_request r = record {
  id = r.id;
  requester_id = r.requester_id;
  target_device_id = r.target_device_id;
  purpose = r.purpose;
  permissions = r.permissions;
  state = r.state;
  created_at = r.created_at;
  expires_at = r.expires_at;
  decided_at = r.decided_at;
  ended_at = r.ended_at;
}

pub record AuditEventRead : Type 0 where
  pub id : String
  pub actor_id : String
  pub action : String
  pub target_type : String
  pub target_id : String
  pub outcome : String
  pub details : List (String × Detail)
  pub occurred_at : ℕ

abbrev pub read_event : AuditEvent → AuditEventRead
read_event e = record {
  id = e.id;
  actor_id = e.actor_id;
  action = e.action;
  target_type = e.target_type;
  target_id = e.target_id;
  outcome = e.outcome;
  details = e.details;
  occurred_at = e.occurred_at;
}

pub record VpnPeerRead : Type 0 where
  pub id : String
  pub network_id : String
  pub name : String
  pub public_key : String
  pub address : String
  pub allowed_ips : String
  pub persistent_keepalive : ℕ
  pub enabled : Bool
  pub created_at : ℕ
  pub revoked_at : Option ℕ

abbrev pub read_peer : VpnPeer → VpnPeerRead
read_peer q = record {
  id = q.id;
  network_id = q.network_id;
  name = q.name;
  public_key = q.public_key;
  address = q.address;
  allowed_ips = q.allowed_ips;
  persistent_keepalive = q.persistent_keepalive;
  enabled = q.enabled;
  created_at = q.created_at;
  revoked_at = q.revoked_at;
}

pub record FileServerRead : Type 0 where
  pub id : String
  pub name : String
  pub host : String
  pub shares : List String
  pub enabled : Bool
  pub created_at : ℕ
  pub updated_at : ℕ

abbrev pub read_file_server : FileServer → FileServerRead
read_file_server s = record {
  id = s.id;
  name = s.name;
  host = s.host;
  shares = s.shares;
  enabled = s.enabled;
  created_at = s.created_at;
  updated_at = s.updated_at;
}

pub record DeploymentProfileRead : Type 0 where
  pub id : String
  pub name : String
  pub vpn_network_id : String
  pub allowed_ips : String
  pub file_server_ids : List String
  pub target_subjects : List String
  pub deliver_vpn_on_login : Bool
  pub deliver_file_servers_on_login : Bool
  pub revision : ℕ
  pub enabled : Bool
  pub created_at : ℕ
  pub updated_at : ℕ

abbrev pub read_profile : ClientDeploymentProfile → DeploymentProfileRead
read_profile c = record {
  id = c.id;
  name = c.name;
  vpn_network_id = c.vpn_network_id;
  allowed_ips = c.allowed_ips;
  file_server_ids = c.file_server_ids;
  target_subjects = c.target_subjects;
  deliver_vpn_on_login = c.deliver_vpn_on_login;
  deliver_file_servers_on_login = c.deliver_file_servers_on_login;
  revision = c.revision;
  enabled = c.enabled;
  created_at = c.created_at;
  updated_at = c.updated_at;
}
