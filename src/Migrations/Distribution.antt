-- ===== src/Migrations/Distribution.antt =====
-- src/g_one/alembic/versions/0006_client_distribution.py
use project_g_one.Prelude.{[], ◌∷◌}
use project_g_one.Migrations.Tables.{
  index_on, string, integer, boolean, json, date_time, Table, not_null, may_be_null, key_column,
}
use project_g_one.Migrations.Alembic.{
  run, create_table, drop_table, has_table, Script, ◌>>◌, inspect, unless,
}

abbrev pub file_servers_created : Table
file_servers_created = record {
  columns =
      key_column "id" (string 36)
      ∷ not_null "tenant_id" (string 128)
      ∷ not_null "name" (string 128)
      ∷ not_null "host" (string 255)
      ∷ not_null "shares" json
      ∷ not_null "enabled" boolean
      ∷ not_null "created_at" date_time
      ∷ not_null "updated_at" date_time
      ∷ [];
  unique = ("tenant_id" ∷ "id" ∷ []) ∷ ("tenant_id" ∷ "name" ∷ []) ∷ [];
  foreign_keys = [];
  indexes = index_on "ix_file_servers_tenant_id" "tenant_id" ∷ [];
}

abbrev pub client_deployment_profiles_created : Table
client_deployment_profiles_created = record {
  columns =
      key_column "id" (string 36)
      ∷ not_null "tenant_id" (string 128)
      ∷ not_null "name" (string 128)
      ∷ not_null "vpn_network_id" (string 36)
      ∷ not_null "allowed_ips" (string 1024)
      ∷ not_null "file_server_ids" json
      ∷ not_null "target_subjects" json
      ∷ not_null "revision" integer
      ∷ not_null "enabled" boolean
      ∷ not_null "created_at" date_time
      ∷ not_null "updated_at" date_time
      ∷ [];
  unique = ("tenant_id" ∷ "id" ∷ []) ∷ ("tenant_id" ∷ "name" ∷ []) ∷ [];
  foreign_keys = [];
  indexes = index_on "ix_client_deployment_profiles_tenant_id" "tenant_id" ∷ [];
}

abbrev pub client_enrollment_codes_created : Table
client_enrollment_codes_created = record {
  columns =
      key_column "id" (string 36)
      ∷ not_null "tenant_id" (string 128)
      ∷ not_null "profile_id" (string 36)
      ∷ not_null "subject" (string 128)
      ∷ not_null "token_hash" (string 64)
      ∷ not_null "expires_at" date_time
      ∷ not_null "created_by" (string 128)
      ∷ not_null "created_at" date_time
      ∷ may_be_null "used_at" date_time
      ∷ [];
  unique = ("token_hash" ∷ []) ∷ [];
  foreign_keys = [];
  indexes =
      index_on "ix_client_enrollment_codes_tenant_id" "tenant_id"
      ∷ index_on "ix_client_enrollment_codes_profile_id" "profile_id"
      ∷ [];
}

abbrev pub upgrade : Script
upgrade = inspect (λ v. do
  unless (has_table "file_servers" v) (run (create_table "file_servers" file_servers_created))
  unless (has_table "client_deployment_profiles" v)
      (run (create_table "client_deployment_profiles" client_deployment_profiles_created))
  unless (has_table "client_enrollment_codes" v)
      (run (create_table "client_enrollment_codes" client_enrollment_codes_created)))

abbrev pub downgrade : Script
downgrade = do
  run (drop_table "client_enrollment_codes")
  run (drop_table "client_deployment_profiles")
  run (drop_table "file_servers")
