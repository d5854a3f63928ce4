-- ===== src/Migrations/Vpn.antt =====
-- src/g_one/alembic/versions/0002_wireguard_vpn.py
use project_g_one.Prelude.{[], ◌∷◌}
use project_g_one.Migrations.Tables.{
  string, integer, boolean, date_time, Table, not_null, may_be_null, key_column,
}
use project_g_one.Migrations.Alembic.{
  run, create_table, drop_table, create_index, has_table, Script, ◌>>◌, inspect, unless,
}

abbrev pub vpn_networks_created : Table
vpn_networks_created = record {
  columns =
      key_column "id" (string 36)
      ∷ not_null "tenant_id" (string 128)
      ∷ not_null "name" (string 128)
      ∷ not_null "address_cidr" (string 64)
      ∷ not_null "endpoint" (string 255)
      ∷ not_null "listen_port" integer
      ∷ may_be_null "dns" (string 255)
      ∷ not_null "enabled" boolean
      ∷ not_null "created_at" date_time
      ∷ not_null "updated_at" date_time
      ∷ [];
  unique = ("tenant_id" ∷ []) ∷ ("tenant_id" ∷ "id" ∷ []) ∷ [];
  foreign_keys = [];
  indexes = [];
}

abbrev pub vpn_peers_created : Table
vpn_peers_created = record {
  columns =
      key_column "id" (string 36)
      ∷ not_null "tenant_id" (string 128)
      ∷ not_null "network_id" (string 36)
      ∷ not_null "name" (string 128)
      ∷ not_null "public_key" (string 44)
      ∷ not_null "address" (string 64)
      ∷ not_null "allowed_ips" (string 1024)
      ∷ not_null "persistent_keepalive" integer
      ∷ not_null "enabled" boolean
      ∷ not_null "created_at" date_time
      ∷ may_be_null "revoked_at" date_time
      ∷ [];
  unique =
      ("tenant_id" ∷ "network_id" ∷ "public_key" ∷ [])
      ∷ ("tenant_id" ∷ "network_id" ∷ "address" ∷ [])
      ∷ [];
  foreign_keys =
      record {
        columns = "tenant_id" ∷ "network_id" ∷ [];
        table = "vpn_networks";
        referred = "tenant_id" ∷ "id" ∷ [];
      }
      ∷ [];
  indexes = [];
}

abbrev pub upgrade : Script
upgrade = inspect (λ v. do
  unless (has_table "vpn_networks" v) (do
    run (create_table "vpn_networks" vpn_networks_created)
    run (create_index "ix_vpn_networks_tenant_id" "vpn_networks" ("tenant_id" ∷ [])))
  unless (has_table "vpn_peers" v) (do
    run (create_table "vpn_peers" vpn_peers_created)
    run (create_index "ix_vpn_peers_tenant_id" "vpn_peers" ("tenant_id" ∷ []))))

abbrev pub downgrade : Script
downgrade = do run (drop_table "vpn_peers"); run (drop_table "vpn_networks")
