-- ===== src/Migrations/Bootstrap.antt =====
-- src/g_one/alembic/versions/0005_installation_bootstrap.py
use project_g_one.Prelude.{Bool, [], ◌∷◌, Option, none, some}
use project_g_one.Migrations.Tables.{integer, boolean, Table, not_null, key_column, with_default}
use project_g_one.Migrations.Alembic.{
  run, create_table, drop_table, insert_installation, View, has_table, Script, pass, ◌>>◌, inspect,
  unless, select_first,
}

abbrev pub installation_state_created : Table
installation_state_created = record {
  columns = key_column "id" integer ∷ with_default "false" (not_null "initialized" boolean) ∷ [];
  unique = [];
  foreign_keys = [];
  indexes = [];
}

-- The row says that the installation is done when a user is there already.
abbrev pub insert_state : View → Script
insert_state v =
    select_first "workspace_users" v v.any_user
      (λ existing_user. run (insert_installation existing_user))

abbrev pub insert_state_if_missing : View → Option Bool → Script
insert_state_if_missing v (some state) = pass
insert_state_if_missing v none = insert_state v

abbrev pub upgrade : Script
upgrade = do
  inspect (λ v.
      unless (has_table "installation_state" v)
        (run (create_table "installation_state" installation_state_created)))
  inspect (λ v. select_first "installation_state" v v.installation (insert_state_if_missing v))

abbrev pub downgrade : Script
downgrade = run (drop_table "installation_state")
