-- ===== src/Migrations/Accounts.antt =====
-- src/g_one/alembic/versions/0003_admin_testbed.py
use project_g_one.Prelude.{[], ◌∷◌}
use project_g_one.Migrations.Tables.{
  string, json, date_time, Table, not_null, may_be_null, key_column,
}
use project_g_one.Migrations.Alembic.{
  run, create_table, drop_table, create_index, has_table, Script, ◌>>◌, inspect, unless,
}

abbrev pub workspaces_created : Table
workspaces_created = record {
  columns =
      key_column "id" (string 128)
      ∷ not_null "name" (string 128)
      ∷ not_null "status" (string 20)
      ∷ not_null "created_at" date_time
      ∷ not_null "updated_at" date_time
      ∷ [];
  unique = [];
  foreign_keys = [];
  indexes = [];
}

abbrev pub workspace_users_created : Table
workspace_users_created = record {
  columns =
      key_column "id" (string 36)
      ∷ not_null "tenant_id" (string 128)
      ∷ not_null "subject" (string 128)
      ∷ not_null "display_name" (string 128)
      ∷ may_be_null "email" (string 255)
      ∷ not_null "roles" json
      ∷ not_null "status" (string 20)
      ∷ not_null "created_at" date_time
      ∷ not_null "updated_at" date_time
      ∷ [];
  unique = ("tenant_id" ∷ "subject" ∷ []) ∷ [];
  foreign_keys = [];
  indexes = [];
}

abbrev pub api_tokens_created : Table
api_tokens_created = record {
  columns =
      key_column "id" (string 36)
      ∷ not_null "tenant_id" (string 128)
      ∷ not_null "name" (string 128)
      ∷ not_null "token_hash" (string 64)
      ∷ not_null "prefix" (string 16)
      ∷ not_null "scopes" json
      ∷ not_null "created_by" (string 128)
      ∷ not_null "expires_at" date_time
      ∷ not_null "created_at" date_time
      ∷ may_be_null "revoked_at" date_time
      ∷ [];
  unique = ("tenant_id" ∷ "token_hash" ∷ []) ∷ [];
  foreign_keys = [];
  indexes = [];
}

abbrev pub upgrade : Script
upgrade = inspect (λ v. do
  unless (has_table "workspaces" v) (run (create_table "workspaces" workspaces_created))
  unless (has_table "workspace_users" v) (do
    run (create_table "workspace_users" workspace_users_created)
    run (create_index "ix_workspace_users_tenant_id" "workspace_users" ("tenant_id" ∷ [])))
  unless (has_table "api_tokens" v) (do
    run (create_table "api_tokens" api_tokens_created)
    run (create_index "ix_api_tokens_tenant_id" "api_tokens" ("tenant_id" ∷ []))))

abbrev pub downgrade : Script
downgrade = do
  run (drop_table "api_tokens")
  run (drop_table "workspace_users")
  run (drop_table "workspaces")
