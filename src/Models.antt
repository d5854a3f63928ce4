-- ===== src/Models.antt =====
-- src/g_one/models.py: the rows of the tables. Times are counts of microseconds, a JSON column is a
-- list of texts or a list of `details`.
pub mod Tables
pub mod Constraints
use project_g_one.Prelude.{ℕ, String, Bool, Option, List}

pub record Device : Type 0 where
  pub id : String
  pub tenant_id : String
  pub owner_id : String
  pub name : String
  pub platform : String
  pub status : String
  pub created_at : ℕ
  pub revoked_at : Option ℕ

pub record SupportRequest : Type 0 where
  pub id : String
  pub tenant_id : String
  pub requester_id : String
  pub target_device_id : String
  pub purpose : String
  pub permissions : List String
  pub state : String
  pub created_at : ℕ
  pub expires_at : ℕ
  pub decided_at : Option ℕ
  pub ended_at : Option ℕ

-- A value of the `details` of an audit event.
pub data Detail : Type 0 where
  text : String → Detail
  texts : List String → Detail
  number : ℕ → Detail
  flag : Bool → Detail

pub record AuditEvent : Type 0 where
  pub id : String
  pub tenant_id : String
  pub actor_id : String
  pub action : String
  pub target_type : String
  pub target_id : String
  pub outcome : String
  pub details : List (String × Detail)
  pub occurred_at : ℕ

pub record WorkspaceUser : Type 0 where
  pub id : String
  pub tenant_id : String
  pub subject : String
  pub display_name : String
  pub email : Option String
  pub password_hash : Option String
  pub roles : List String
  pub vpn_address : Option String
  pub allowed_ips : String
  pub policy_version : ℕ
  pub status : String
  pub created_at : ℕ
  pub updated_at : ℕ

pub record ApiToken : Type 0 where
  pub id : String
  pub tenant_id : String
  pub name : String
  pub token_hash : String
  pub prefix : String
  pub scopes : List String
  pub created_by : String
  pub expires_at : ℕ
  pub created_at : ℕ
  pub revoked_at : Option ℕ

pub record VpnNetwork : Type 0 where
  pub id : String
  pub tenant_id : String
  pub name : String
  pub address_cidr : String
  pub endpoint : String
  pub listen_port : ℕ
  pub dns : Option String
  pub enabled : Bool
  pub created_at : ℕ
  pub updated_at : ℕ

pub record VpnPeer : Type 0 where
  pub id : String
  pub tenant_id : String
  pub network_id : String
  pub name : String
  pub public_key : String
  pub address : String
  pub allowed_ips : String
  pub persistent_keepalive : ℕ
  pub enabled : Bool
  pub created_at : ℕ
  pub revoked_at : Option ℕ

pub record FileServer : Type 0 where
  pub id : String
  pub tenant_id : String
  pub name : String
  pub host : String
  pub shares : List String
  pub enabled : Bool
  pub created_at : ℕ
  pub updated_at : ℕ

pub record ClientDeploymentProfile : Type 0 where
  pub id : String
  pub tenant_id : String
  pub name : String
  pub vpn_network_id : String
  pub allowed_ips : String
  pub file_server_ids : List String
  pub target_subjects : List String
  pub deliver_vpn_on_login : Bool
  pub deliver_file_servers_on_login : Bool
  pub revision : ℕ
  pub enabled : Bool
  pub created_at : ℕ
  pub updated_at : ℕ

pub record ClientEnrollmentCode : Type 0 where
  pub id : String
  pub tenant_id : String
  pub profile_id : String
  pub subject : String
  pub token_hash : String
  pub expires_at : ℕ
  pub created_by : String
  pub created_at : ℕ
  pub used_at : Option ℕ
