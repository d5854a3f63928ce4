-- ===== src/Migrations/Tables.antt =====
-- The tables that the migrations and the models of g_one declare, with SQLAlchemy's constructs for them.
use project_g_one.Prelude.{
  ℕ, String, Bool, true, false, List, [], ◌∷◌, ◌++◌, Option, none, some, ◌==◌, map, not, where_true,
  any, all, contains, nat_eq, ◌&&◌, ◌||◌,
}

pub data ColumnType : Type 0 where
  string : ℕ → ColumnType
  integer boolean json : ColumnType
  -- DateTime(timezone=True)
  date_time : ColumnType

-- `sa.Column`; a default of the server is a text, as in the schema.
pub record Column : Type 0 where
  pub name : String
  pub kind : ColumnType
  pub primary_key : Bool
  pub nullable : Bool
  pub server_default : Option String

pub record ForeignKey : Type 0 where
  pub columns : List String
  pub table : String
  pub referred : List String

pub record Index : Type 0 where
  pub name : String
  pub columns : List String

abbrev pub index_on : String → String → Index
index_on name column = record { name = name; columns = column ∷ [] }

pub record Table : Type 0 where
  pub columns : List Column
  pub unique : List (List String)
  pub foreign_keys : List ForeignKey
  pub indexes : List Index

abbrev pub not_null : String → ColumnType → Column
not_null name kind = record {
  name = name;
  kind = kind;
  primary_key = false;
  nullable = false;
  server_default = none;
}

abbrev pub may_be_null : String → ColumnType → Column
may_be_null name kind = record {
  name = name;
  kind = kind;
  primary_key = false;
  nullable = true;
  server_default = none;
}

abbrev pub key_column : String → ColumnType → Column
key_column name kind = record {
  name = name;
  kind = kind;
  primary_key = true;
  nullable = false;
  server_default = none;
}

abbrev pub with_default : String → Column → Column
with_default text c = record c { server_default = some text }

abbrev pub column_names : Table → List String
column_names t = map (λ (c : Column). c.name) t.columns

abbrev pub with_column : Column → Table → Table
with_column c t = record t { columns = t.columns ++ c ∷ [] }

abbrev pub without_column : String → Table → Table
without_column name t = record t {
  columns = where_true (λ (c : Column). not (c.name == name)) t.columns;
}

abbrev pub index_names : Table → List String
index_names t = map (λ (i : Index). i.name) t.indexes

abbrev pub with_index : Index → Table → Table
with_index index t = record t { indexes = t.indexes ++ index ∷ [] }

abbrev pub same_kind : ColumnType → ColumnType → Bool
same_kind (string m) (string n) = nat_eq m n
same_kind integer integer = true
same_kind boolean boolean = true
same_kind json json = true
same_kind date_time date_time = true
same_kind _ _ = false

abbrev pub same_names : List String → List String → Bool
same_names [] [] = true
same_names (s ∷ ss) (t ∷ ts) = s == t && same_names ss ts
same_names _ _ = false

-- Columns of a table, each named once.
abbrev pub are_distinct : List String → Bool
are_distinct [] = true
are_distinct (n ∷ rest) = not (contains n rest) && are_distinct rest

abbrev pub are_columns : List String → Table → Bool
are_columns [] t = false
are_columns (n ∷ rest) t =
    are_distinct (n ∷ rest) && all (λ name. contains name (column_names t)) (n ∷ rest)

-- The primary key or a unique constraint of the table.
abbrev pub is_key : List String → Table → Bool
is_key names t =
    same_names names
      (map (λ (c : Column). c.name) (where_true (λ (c : Column). c.primary_key) t.columns))
    || any (same_names names) t.unique

abbrev pub same_kinds : List String → Table → List String → Table → Bool
same_kinds [] t [] u = true
same_kinds (m ∷ ms) t (n ∷ ns) u =
    any
      (λ (c : Column).
        c.name == m && any (λ (d : Column). d.name == n && same_kind c.kind d.kind) u.columns)
      t.columns
    && same_kinds ms t ns u
same_kinds _ _ _ _ = false

-- The tables of the program, with the one of Alembic for the revision.
abbrev pub own_tables : List String
own_tables =
    "devices" ∷ "support_requests" ∷ "audit_events" ∷ "vpn_networks" ∷ "vpn_peers" ∷ "workspaces"
    ∷ "workspace_users" ∷ "api_tokens" ∷ "installation_state" ∷ "file_servers"
    ∷ "client_deployment_profiles" ∷ "client_enrollment_codes" ∷ "alembic_version" ∷ []

abbrev pub is_own : String → Bool
is_own j = any (λ name. name == j) own_tables
