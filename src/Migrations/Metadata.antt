-- ===== src/Migrations/Metadata.antt =====
-- The tables that the classes of src/g_one/models.py declare, as `Base.metadata` holds them.
use project_g_one.Prelude.{String, List, [], ◌∷◌}
use project_g_one.Migrations.Tables.{
  index_on, string, integer, boolean, json, date_time, Table, not_null, may_be_null, key_column,
}

abbrev pub devices_table : Table
devices_table = record {
  columns =
      key_column "id" (string 36)
      ∷ not_null "tenant_id" (string 128)
      ∷ not_null "owner_id" (string 128)
      ∷ not_null "name" (string 128)
      ∷ not_null "platform" (string 32)
      ∷ not_null "status" (string 20)
      ∷ not_null "created_at" date_time
      ∷ may_be_null "revoked_at" date_time
      ∷ [];
  unique = ("tenant_id" ∷ "id" ∷ []) ∷ [];
  foreign_keys = [];
  indexes =
      index_on "ix_devices_tenant_id" "tenant_id" ∷ index_on "ix_devices_owner_id" "owner_id" ∷ [];
}

abbrev pub support_requests_table : Table
support_requests_table = record {
  columns =
      key_column "id" (string 36)
      ∷ not_null "tenant_id" (string 128)
      ∷ not_null "requester_id" (string 128)
      ∷ not_null "target_device_id" (string 36)
      ∷ not_null "purpose" (string 500)
      ∷ not_null "permissions" json
      ∷ not_null "state" (string 20)
      ∷ not_null "created_at" date_time
      ∷ not_null "expires_at" date_time
      ∷ may_be_null "decided_at" date_time
      ∷ may_be_null "ended_at" date_time
      ∷ [];
  unique = [];
  foreign_keys =
      record {
        columns = "tenant_id" ∷ "target_device_id" ∷ [];
        table = "devices";
        referred = "tenant_id" ∷ "id" ∷ [];
      }
      ∷ [];
  indexes = index_on "ix_support_requests_tenant_id" "tenant_id" ∷ [];
}

abbrev pub audit_events_table : Table
audit_events_table = record {
  columns =
      key_column "id" (string 36)
      ∷ not_null "tenant_id" (string 128)
      ∷ not_null "actor_id" (string 128)
      ∷ not_null "action" (string 100)
      ∷ not_null "target_type" (string 50)
      ∷ not_null "target_id" (string 128)
      ∷ not_null "outcome" (string 20)
      ∷ not_null "details" json
      ∷ not_null "occurred_at" date_time
      ∷ [];
  unique = [];
  foreign_keys = [];
  indexes = index_on "ix_audit_events_tenant_id" "tenant_id" ∷ [];
}

abbrev pub installation_state_table : Table
installation_state_table = record {
  columns = key_column "id" integer ∷ not_null "initialized" boolean ∷ [];
  unique = [];
  foreign_keys = [];
  indexes = [];
}

abbrev pub workspace_users_table : Table
workspace_users_table = record {
  columns =
      key_column "id" (string 36)
      ∷ not_null "tenant_id" (string 128)
      ∷ not_null "subject" (string 128)
      ∷ not_null "display_name" (string 128)
      ∷ may_be_null "email" (string 255)
      ∷ may_be_null "password_hash" (string 255)
      ∷ not_null "roles" json
      ∷ may_be_null "vpn_address" (string 64)
      ∷ not_null "allowed_ips" (string 1024)
      ∷ not_null "policy_version" integer
      ∷ not_null "status" (string 20)
      ∷ not_null "created_at" date_time
      ∷ not_null "updated_at" date_time
      ∷ [];
  unique = ("tenant_id" ∷ "subject" ∷ []) ∷ [];
  foreign_keys = [];
  indexes = index_on "ix_workspace_users_tenant_id" "tenant_id" ∷ [];
}

abbrev pub api_tokens_table : Table
api_tokens_table = record {
  columns =
      key_column "id" (string 36)
      ∷ not_null "tenant_id" (string 128)
      ∷ not_null "name" (string 128)
      ∷ not_null "token_hash" (string 64)
      ∷ not_null "prefix" (string 16)
      ∷ not_null "scopes" json
      ∷ not_null "created_by" (string 128)
      ∷ not_null "expires_at" date_time
      ∷ not_null "created_at" date_time
      ∷ may_be_null "revoked_at" date_time
      ∷ [];
  unique = ("tenant_id" ∷ "token_hash" ∷ []) ∷ [];
  foreign_keys = [];
  indexes = index_on "ix_api_tokens_tenant_id" "tenant_id" ∷ [];
}

abbrev pub vpn_networks_table : Table
vpn_networks_table = record {
  columns =
      key_column "id" (string 36)
      ∷ not_null "tenant_id" (string 128)
      ∷ not_null "name" (string 128)
      ∷ not_null "address_cidr" (string 64)
      ∷ not_null "endpoint" (string 255)
      ∷ not_null "listen_port" integer
      ∷ may_be_null "dns" (string 255)
      ∷ not_null "enabled" boolean
      ∷ not_null "created_at" date_time
      ∷ not_null "updated_at" date_time
      ∷ [];
  unique = ("tenant_id" ∷ []) ∷ ("tenant_id" ∷ "id" ∷ []) ∷ [];
  foreign_keys = [];
  indexes = index_on "ix_vpn_networks_tenant_id" "tenant_id" ∷ [];
}

abbrev pub vpn_peers_table : Table
vpn_peers_table = record {
  columns =
      key_column "id" (string 36)
      ∷ not_null "tenant_id" (string 128)
      ∷ not_null "network_id" (string 36)
      ∷ not_null "name" (string 128)
      ∷ not_null "public_key" (string 44)
      ∷ not_null "address" (string 64)
      ∷ not_null "allowed_ips" (string 1024)
      ∷ not_null "persistent_keepalive" integer
      ∷ not_null "enabled" boolean
      ∷ not_null "created_at" date_time
      ∷ may_be_null "revoked_at" date_time
      ∷ [];
  unique =
      ("tenant_id" ∷ "network_id" ∷ "public_key" ∷ [])
      ∷ ("tenant_id" ∷ "network_id" ∷ "address" ∷ [])
      ∷ [];
  foreign_keys =
      record {
        columns = "tenant_id" ∷ "network_id" ∷ [];
        table = "vpn_networks";
        referred = "tenant_id" ∷ "id" ∷ [];
      }
      ∷ [];
  indexes = index_on "ix_vpn_peers_tenant_id" "tenant_id" ∷ [];
}

abbrev pub file_servers_table : Table
file_servers_table = record {
  columns =
      key_column "id" (string 36)
      ∷ not_null "tenant_id" (string 128)
      ∷ not_null "name" (string 128)
      ∷ not_null "host" (string 255)
      ∷ not_null "shares" json
      ∷ not_null "enabled" boolean
      ∷ not_null "created_at" date_time
      ∷ not_null "updated_at" date_time
      ∷ [];
  unique = ("tenant_id" ∷ "id" ∷ []) ∷ ("tenant_id" ∷ "name" ∷ []) ∷ [];
  foreign_keys = [];
  indexes = index_on "ix_file_servers_tenant_id" "tenant_id" ∷ [];
}

abbrev pub client_deployment_profiles_table : Table
client_deployment_profiles_table = record {
  columns =
      key_column "id" (string 36)
      ∷ not_null "tenant_id" (string 128)
      ∷ not_null "name" (string 128)
      ∷ not_null "vpn_network_id" (string 36)
      ∷ not_null "allowed_ips" (string 1024)
      ∷ not_null "file_server_ids" json
      ∷ not_null "target_subjects" json
      ∷ not_null "deliver_vpn_on_login" boolean
      ∷ not_null "deliver_file_servers_on_login" boolean
      ∷ not_null "revision" integer
      ∷ not_null "enabled" boolean
      ∷ not_null "created_at" date_time
      ∷ not_null "updated_at" date_time
      ∷ [];
  unique = ("tenant_id" ∷ "id" ∷ []) ∷ ("tenant_id" ∷ "name" ∷ []) ∷ [];
  foreign_keys = [];
  indexes = index_on "ix_client_deployment_profiles_tenant_id" "tenant_id" ∷ [];
}

abbrev pub client_enrollment_codes_table : Table
client_enrollment_codes_table = record {
  columns =
      key_column "id" (string 36)
      ∷ not_null "tenant_id" (string 128)
      ∷ not_null "profile_id" (string 36)
      ∷ not_null "subject" (string 128)
      ∷ not_null "token_hash" (string 64)
      ∷ not_null "expires_at" date_time
      ∷ not_null "created_by" (string 128)
      ∷ not_null "created_at" date_time
      ∷ may_be_null "used_at" date_time
      ∷ [];
  unique = ("token_hash" ∷ []) ∷ [];
  foreign_keys = [];
  indexes =
      index_on "ix_client_enrollment_codes_tenant_id" "tenant_id"
      ∷ index_on "ix_client_enrollment_codes_profile_id" "profile_id"
      ∷ [];
}

-- `Base.metadata.tables`
abbrev pub metadata : List (String × Table)
metadata =
    ("devices", devices_table)
    ∷ ("support_requests", support_requests_table)
    ∷ ("audit_events", audit_events_table)
    ∷ ("installation_state", installation_state_table)
    ∷ ("workspace_users", workspace_users_table)
    ∷ ("api_tokens", api_tokens_table)
    ∷ ("vpn_networks", vpn_networks_table)
    ∷ ("vpn_peers", vpn_peers_table)
    ∷ ("file_servers", file_servers_table)
    ∷ ("client_deployment_profiles", client_deployment_profiles_table)
    ∷ ("client_enrollment_codes", client_enrollment_codes_table)
    ∷ []
