-- ===== src/Migrations/Foundation.antt =====
-- src/g_one/alembic/versions/0001_control_plane_foundation.py
use project_g_one.Prelude.{String, List, [], ◌∷◌, contains}
use Prim.Native.String.{◌++◌}
use project_g_one.Migrations.Tables.{
  string, json, date_time, Table, not_null, may_be_null, key_column,
}
use project_g_one.Migrations.Alembic.{
  run, create_table, drop_table, create_index, View, has_table, Script, pass, ◌>>◌, inspect, unless,
  get_indexes,
}

abbrev pub devices_created : Table
devices_created = record {
  columns =
      key_column "id" (string 36)
      ∷ not_null "tenant_id" (string 128)
      ∷ not_null "owner_id" (string 128)
      ∷ not_null "name" (string 128)
      ∷ not_null "platform" (string 32)
      ∷ not_null "status" (string 20)
      ∷ not_null "created_at" date_time
      ∷ may_be_null "revoked_at" date_time
      ∷ [];
  unique = ("tenant_id" ∷ "id" ∷ []) ∷ [];
  foreign_keys = [];
  indexes = [];
}

abbrev pub support_requests_created : Table
support_requests_created = record {
  columns =
      key_column "id" (string 36)
      ∷ not_null "tenant_id" (string 128)
      ∷ not_null "requester_id" (string 128)
      ∷ not_null "target_device_id" (string 36)
      ∷ not_null "purpose" (string 500)
      ∷ not_null "permissions" json
      ∷ not_null "state" (string 20)
      ∷ not_null "created_at" date_time
      ∷ not_null "expires_at" date_time
      ∷ may_be_null "decided_at" date_time
      ∷ may_be_null "ended_at" date_time
      ∷ [];
  unique = [];
  foreign_keys =
      record {
        columns = "tenant_id" ∷ "target_device_id" ∷ [];
        table = "devices";
        referred = "tenant_id" ∷ "id" ∷ [];
      }
      ∷ [];
  indexes = [];
}

abbrev pub audit_events_created : Table
audit_events_created = record {
  columns =
      key_column "id" (string 36)
      ∷ not_null "tenant_id" (string 128)
      ∷ not_null "actor_id" (string 128)
      ∷ not_null "action" (string 100)
      ∷ not_null "target_type" (string 50)
      ∷ not_null "target_id" (string 128)
      ∷ not_null "outcome" (string 20)
      ∷ not_null "details" json
      ∷ not_null "occurred_at" date_time
      ∷ [];
  unique = [];
  foreign_keys = [];
  indexes = [];
}

-- The columns with an index of their own, and its name.
abbrev pub foundation_indexes : List (String × String)
foundation_indexes =
    ("devices", "tenant_id")
    ∷ ("devices", "owner_id")
    ∷ ("support_requests", "tenant_id")
    ∷ ("audit_events", "tenant_id")
    ∷ []

abbrev pub index_name : String → String → String
index_name table column = "ix_" ++ (table ++ ("_" ++ column))

abbrev pub create_if_missing : String → Script → Script
create_if_missing name create = inspect (λ v. unless (has_table name v) create)

abbrev pub create_index_if_missing : View → String × String → Script
create_index_if_missing v (table, column) =
    let index = index_name table column in
    get_indexes table v
      (λ indexes. unless (contains index indexes) (run (create_index index table (column ∷ []))))

abbrev pub create_indexes_if_missing : View → List (String × String) → Script
create_indexes_if_missing v [] = pass
create_indexes_if_missing v (i ∷ rest) = do
  create_index_if_missing v i
  create_indexes_if_missing v rest

abbrev pub create_tables : Script
create_tables = do
  create_if_missing "devices" (run (create_table "devices" devices_created))
  create_if_missing "support_requests"
      (run (create_table "support_requests" support_requests_created))
  create_if_missing "audit_events" (run (create_table "audit_events" audit_events_created))

abbrev pub upgrade : Script
upgrade = do create_tables; inspect (λ v. create_indexes_if_missing v foundation_indexes)

abbrev pub downgrade : Script
downgrade = do
  run (drop_table "audit_events")
  run (drop_table "support_requests")
  run (drop_table "devices")
