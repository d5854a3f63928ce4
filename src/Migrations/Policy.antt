-- ===== src/Migrations/Policy.antt =====
-- src/g_one/alembic/versions/0004_user_client_policy.py
use project_g_one.Prelude.{contains}
use project_g_one.Migrations.Tables.{string, integer, Column, not_null, may_be_null, with_default}
use project_g_one.Migrations.Alembic.{
  run, add_column, drop_column, Script, ◌>>◌, inspect, unless, get_columns,
}

abbrev pub password_hash_column : Column
password_hash_column = may_be_null "password_hash" (string 255)

abbrev pub vpn_address_column : Column
vpn_address_column = may_be_null "vpn_address" (string 64)

abbrev pub allowed_ips_column : Column
allowed_ips_column = with_default "" (not_null "allowed_ips" (string 1024))

abbrev pub policy_version_column : Column
policy_version_column = with_default "1" (not_null "policy_version" integer)

abbrev pub upgrade : Script
upgrade = inspect (λ v. get_columns "workspace_users" v (λ columns. do
  unless (contains "password_hash" columns)
      (run (add_column "workspace_users" password_hash_column))
  unless (contains "vpn_address" columns) (run (add_column "workspace_users" vpn_address_column))
  unless (contains "allowed_ips" columns) (run (add_column "workspace_users" allowed_ips_column))
  unless (contains "policy_version" columns)
      (run (add_column "workspace_users" policy_version_column))))

abbrev pub downgrade : Script
downgrade = do
  run (drop_column "workspace_users" "policy_version")
  run (drop_column "workspace_users" "allowed_ips")
  run (drop_column "workspace_users" "vpn_address")
  run (drop_column "workspace_users" "password_hash")
