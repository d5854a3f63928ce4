-- ===== src/Migrations/Versions.antt =====
-- The migrations of src/g_one/alembic/versions in the order of their revisions, as Alembic runs them.
use project_g_one.Prelude.{String, List, [], ◌∷◌, Option, none, some, ◌==◌, if◌then◌else◌, ◌++◌}
use project_g_one.Migrations.Tables.{Table, string, key_column}
use project_g_one.Migrations.Alembic.{
  create_table, set_version, has_table, Script, pass, fail, run, inspect, ◌>>◌, unless,
}
use project_g_one.Migrations.Foundation
use project_g_one.Migrations.Vpn
use project_g_one.Migrations.Accounts
use project_g_one.Migrations.Policy
use project_g_one.Migrations.Bootstrap
use project_g_one.Migrations.Distribution
use project_g_one.Migrations.Delivery

pub record Migration : Type 0 where
  pub revision : String
  pub down_revision : Option String
  pub upgrade : Script
  pub downgrade : Script

abbrev migration : String → Option String → Script → Script → Migration
migration name before up down = record {
  revision = name;
  down_revision = before;
  upgrade = up;
  downgrade = down;
}

-- From the first revision to the head.
abbrev pub versions : List Migration
versions =
    migration "0001" none Foundation.upgrade Foundation.downgrade
    ∷ migration "0002" (some "0001") Vpn.upgrade Vpn.downgrade
    ∷ migration "0003" (some "0002") Accounts.upgrade Accounts.downgrade
    ∷ migration "0004" (some "0003") Policy.upgrade Policy.downgrade
    ∷ migration "0005" (some "0004") Bootstrap.upgrade Bootstrap.downgrade
    ∷ migration "0006" (some "0005") Distribution.upgrade Distribution.downgrade
    ∷ migration "0007" (some "0006") Delivery.upgrade Delivery.downgrade
    ∷ []

-- The table of Alembic, made before the first migration.
abbrev pub version_table : Table
version_table = record {
  columns = key_column "version_num" (string 32) ∷ [];
  unique = [];
  foreign_keys = [];
  indexes = [];
}

abbrev ensure_version_table : Script
ensure_version_table = inspect (λ v.
    unless (has_table "alembic_version" v) (run (create_table "alembic_version" version_table)))

abbrev upgrade_all : List Migration → Script
upgrade_all [] = pass
upgrade_all (m ∷ rest) = m.upgrade >> (run (set_version (some m.revision)) >> upgrade_all rest)

abbrev downgrade_all : List Migration → Script
downgrade_all [] = pass
downgrade_all (m ∷ rest) = m.downgrade >> (run (set_version m.down_revision) >> downgrade_all rest)

-- The upgrades after the revision that the database is at; a revision that is none of them is an error.
abbrev upgrade_after : Option String → List Migration → Script
upgrade_after none ms = upgrade_all ms
upgrade_after (some r) [] = fail
upgrade_after (some r) (m ∷ rest) =
    let after = upgrade_after (some r) rest in if m.revision == r then upgrade_all rest else after

-- The downgrades from the revision that the database is at, the latest first.
abbrev downgrade_from : Option String → List Migration → Script
downgrade_from none ms = pass
downgrade_from (some r) [] = fail
downgrade_from (some r) (m ∷ rest) =
    let earlier = downgrade_from (some r) rest in
    if m.revision == r then downgrade_all (m ∷ rest) else earlier

abbrev newest_first : List Migration → List Migration
newest_first [] = []
newest_first (m ∷ rest) = newest_first rest ++ m ∷ []

-- `alembic upgrade head`
abbrev pub upgrade_head : Script
upgrade_head = ensure_version_table >> inspect (λ v. upgrade_after v.revision versions)

-- `alembic downgrade base`
abbrev pub downgrade_base : Script
downgrade_base =
    ensure_version_table >> inspect (λ v. downgrade_from v.revision (newest_first versions))
