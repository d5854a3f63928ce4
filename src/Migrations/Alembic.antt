-- ===== src/Migrations/Alembic.antt =====
-- What the migrations ask of `alembic.op` and `sa.inspect`, and what they rely on of the database.
use project_g_one.Prelude.{
  String, Bool, true, false, not, ◌&&◌, ◌||◌, List, Option, none, some, if◌then◌else◌, contains,
  is_none, all, any, ◌==◌, ◌∷◌, [],
}
use project_g_one.Migrations.Tables.{
  Column, ForeignKey, Index, index_names, are_distinct, Table, column_names, with_column,
  without_column, with_index, are_columns, is_key, same_kinds, own_tables, same_names,
}

pub data Operation : Type 0 where
  create_table : String → Table → Operation
  drop_table : String → Operation
  add_column : String → Column → Operation
  drop_column : String → String → Operation
  -- The name of the index, then the table's, then its columns.
  create_index : String → String → List String → Operation
  -- `INSERT INTO installation_state (id, initialized) VALUES (1, …)`
  insert_installation : Bool → Operation
  -- The row of alembic_version, which is Alembic's own.
  set_version : Option String → Operation

-- What the inspector and the two queries of the migrations see of a database.
pub record View : Type 0 where
  pub tables : String → Option Table
  -- The row of installation_state with the id 1: its `initialized`.
  pub installation : Option Bool
  -- workspace_users has a row.
  pub any_user : Bool
  -- The row of alembic_version: the revision that the database is at.
  pub revision : Option String
  -- The tables that a foreign key of another program's table refers to.
  pub outside : List String

abbrev pub is_there {ℓ} : {A : Type ℓ} → Option A → Bool
is_there none = false
is_there (some a) = true

abbrev pub has_table : String → View → Bool
has_table name v = is_there (v.tables name)

abbrev pub put : String → Option Table → View → View
put name t v = record v { tables = λ j. if name == j then t else v.tables j }

-- The keys and the indexes are of columns of the table, and each column and each index has a name of
-- its own.
abbrev pub is_sound : Table → Bool
is_sound t =
    are_columns (column_names t) t
    && all (λ names. are_columns names t) t.unique
    && all (λ (k : ForeignKey). are_columns k.columns t) t.foreign_keys
    && are_distinct (index_names t)
    && all (λ (i : Index). are_columns i.columns t) t.indexes

abbrev pub is_key_of : List String → List String → Table → Option Table → Bool
is_key_of columns referred t none = false
is_key_of columns referred t (some u) = is_key referred u && same_kinds columns t referred u

-- The foreign key refers to a key of a table that is there, of the same types.
abbrev pub is_met : Table → View → ForeignKey → Bool
is_met t v k = is_key_of k.columns k.referred t (v.tables k.table)

abbrev pub refers_to : String → Option Table → Bool
refers_to name none = false
refers_to name (some t) = any (λ (k : ForeignKey). k.table == name) t.foreign_keys

-- Another table has a foreign key to this one.
abbrev pub is_referred : String → View → Bool
is_referred name v =
    any (λ other. not (other == name) && refers_to name (v.tables other)) own_tables
    || contains name v.outside

abbrev pub is_in_key : String → Table → Bool
is_in_key name t =
    any (λ (c : Column). c.primary_key && c.name == name) t.columns
    || any (contains name) t.unique
    || any (λ (k : ForeignKey). contains name k.columns) t.foreign_keys
    || any (λ (i : Index). contains name i.columns) t.indexes

-- The operations on the table that they name; none when the database refuses.
abbrev pub created : Table → Option Table → Option (Option Table)
created t none = if is_sound t then some (some t) else none
created t (some u) = none

abbrev pub dropped : Option Table → Option (Option Table)
dropped none = none
dropped (some t) = some none

abbrev pub column_added : Column → Option Table → Option (Option Table)
column_added c none = none
column_added c (some t) =
    if contains c.name (column_names t) || c.primary_key
    then none
    else if c.nullable || not (is_none c.server_default)
    then some (some (with_column c t))
    else none

abbrev pub column_dropped : String → Option Table → Option (Option Table)
column_dropped name none = none
column_dropped name (some t) =
    if contains name (column_names t)
      && not (is_in_key name t)
      && are_columns (column_names (without_column name t)) t
    then some (some (without_column name t))
    else none

abbrev pub index_created : String → List String → Option Table → Option (Option Table)
index_created index columns none = none
index_created index columns (some t) =
    if contains index (index_names t) || not (are_columns columns t)
    then none
    else some (some (with_index (record { name = index; columns = columns }) t))

abbrev pub put_if : String → View → Option (Option Table) → Option View
put_if name v none = none
put_if name v (some t) = some (put name t v)

-- The rows of a table go with the table.
abbrev pub without_rows : String → View → View
without_rows name v = record v {
  installation = if name == "installation_state" then none else v.installation;
  any_user = if name == "workspace_users" then false else v.any_user;
  revision = if name == "alembic_version" then none else v.revision;
}

-- The row names every column of the table.
abbrev pub row_inserted : Bool → Option Table → Option Bool → View → Option View
row_inserted initialized none row v = none
row_inserted initialized (some t) none v =
    if same_names (column_names t) ("id" ∷ "initialized" ∷ [])
    then some (record v { installation = some initialized })
    else none
row_inserted initialized (some t) (some b) v = none

abbrev pub version_set : Option String → Option Table → View → Option View
version_set r none v = none
version_set r (some t) v =
    if same_names (column_names t) ("version_num" ∷ [])
    then some (record v { revision = r })
    else none

-- What the documentation of MariaDB and of Alembic says of the operations, and no more than that: a
-- table is created once, and its foreign keys refer to keys of tables that are there; it is dropped
-- where no other table refers to it; an index names columns of its table; a column without a default
-- is added only where it may be null, and one that is in a key or an index is not dropped. What an
-- operation does not name stays as it is. Limits of size and the form of a default are not looked at.
abbrev pub apply : Operation → View → Option View
apply (create_table name t) v =
    if all (is_met t v) t.foreign_keys then put_if name v (created t (v.tables name)) else none
apply (drop_table name) v =
    if is_referred name v then none else put_if name (without_rows name v) (dropped (v.tables name))
apply (add_column name c) v = put_if name v (column_added c (v.tables name))
apply (drop_column name column) v = put_if name v (column_dropped column (v.tables name))
apply (create_index index name columns) v =
    put_if name v (index_created index columns (v.tables name))
apply (insert_installation initialized) v =
    row_inserted initialized (v.tables "installation_state") v.installation v
apply (set_version r) v = version_set r (v.tables "alembic_version") v

-- A script of operations and of looks at the database.
pub data Script : Type 0 where
  pass : Script
  -- An error that the script raises itself.
  fail : Script
  then_run : Operation → Script → Script
  -- `sa.inspect(op.get_bind())`
  inspect : (View → Script) → Script

abbrev pub run : Operation → Script
run o = then_run o pass

abbrev pub and_then : Script → Script → Script
and_then pass t = t
and_then fail t = fail
and_then (then_run o s) t = then_run o (and_then s t)
and_then (inspect f) t = inspect (λ v. and_then (f v) t)

-- One operation, or block of operations, after the other.
infixr 5 ◌>>◌
abbrev pub ◌>>◌ : Script → Script → Script
s >> t = and_then s t

abbrev pub unless : Bool → Script → Script
unless b s = if b then pass else s

abbrev pub when : Bool → Script → Script
when b s = if b then s else pass

-- A query on a table, which raises when there is no such table.
abbrev pub on_table {ℓ} : {A : Type ℓ} → Option A → (A → Script) → Script
on_table none f = fail
on_table (some t) f = f t

-- `inspector.get_columns(table)`, the names
abbrev pub get_columns : String → View → (List String → Script) → Script
get_columns name v f = on_table (v.tables name) (λ t. f (column_names t))

-- `inspector.get_indexes(table)`, the names
abbrev pub get_indexes : String → View → (List String → Script) → Script
get_indexes name v f = on_table (v.tables name) (λ t. f (index_names t))

-- The first row of a query on a table.
abbrev pub select_first {ℓ} : {A : Type ℓ} → String → View → A → (A → Script) → Script
select_first name v row f = on_table (v.tables name) (λ t. f row)
