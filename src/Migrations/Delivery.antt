-- ===== src/Migrations/Delivery.antt =====
-- src/g_one/alembic/versions/0007_remove_workspace_add_login_delivery.py
use project_g_one.Prelude.{contains}
use project_g_one.Migrations.Tables.{boolean, Column, not_null, with_default}
use project_g_one.Migrations.Alembic.{
  run, create_table, drop_table, add_column, drop_column, View, has_table, Script, ◌>>◌, inspect,
  unless, when, get_columns,
}
use project_g_one.Migrations.Accounts.{workspaces_created}

abbrev pub deliver_vpn_on_login_column : Column
deliver_vpn_on_login_column = with_default "true" (not_null "deliver_vpn_on_login" boolean)

abbrev pub deliver_file_servers_on_login_column : Column
deliver_file_servers_on_login_column =
    with_default "true" (not_null "deliver_file_servers_on_login" boolean)

abbrev pub add_delivery : View → Script
add_delivery v = get_columns "client_deployment_profiles" v (λ columns. do
  unless (contains "deliver_vpn_on_login" columns)
      (run (add_column "client_deployment_profiles" deliver_vpn_on_login_column))
  unless (contains "deliver_file_servers_on_login" columns)
      (run (add_column "client_deployment_profiles" deliver_file_servers_on_login_column)))

abbrev pub upgrade : Script
upgrade = inspect (λ v. do
  when (has_table "client_deployment_profiles" v) (add_delivery v)
  when (has_table "workspaces" v) (run (drop_table "workspaces")))

abbrev pub downgrade : Script
downgrade = do
  run (create_table "workspaces" workspaces_created)
  run (drop_column "client_deployment_profiles" "deliver_file_servers_on_login")
  run (drop_column "client_deployment_profiles" "deliver_vpn_on_login")
