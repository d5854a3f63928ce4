-- ===== src/Migrations/Compare.antt =====
-- A table of a database beside the one that src/g_one/models.py declares under its name.
use project_g_one.Prelude.{
  String, Bool, true, false, ◌&&◌, not, List, [], ◌∷◌, Option, none, some, any, all, ◌==◌,
}
use project_g_one.Migrations.Tables.{Column, ForeignKey, Index, Table, same_kind, same_names}
use project_g_one.Migrations.Alembic.{View}

abbrev pub bool_eq : Bool → Bool → Bool
bool_eq true b = b
bool_eq false b = not b

-- The default of the server is left out: the rows that the program inserts name all columns.
abbrev pub same_column : Column → Column → Bool
same_column c d =
    c.name == d.name
    && (same_kind c.kind d.kind
        && (bool_eq c.primary_key d.primary_key && bool_eq c.nullable d.nullable))

abbrev pub same_key : ForeignKey → ForeignKey → Bool
same_key k l =
    k.table == l.table && (same_names k.columns l.columns && same_names k.referred l.referred)

abbrev pub same_index : Index → Index → Bool
same_index i j = i.name == j.name && same_names i.columns j.columns

-- The same members, in any order.
abbrev pub same_members {ℓ} : {A : Type ℓ} → (A → A → Bool) → List A → List A → Bool
same_members same xs ys = all (λ x. any (same x) ys) xs && all (λ y. any (same y) xs) ys

abbrev pub matches : Table → Table → Bool
matches t u =
    same_members same_column t.columns u.columns
    && (same_members same_names t.unique u.unique
        && (same_members same_key t.foreign_keys u.foreign_keys
            && same_members same_index t.indexes u.indexes))

abbrev pub matches_declared : Table → Option Table → Bool
matches_declared t none = false
matches_declared t (some u) = matches t u

-- Every table of the list is there as it is declared.
abbrev pub up_to_date : List (String × Table) → View → Bool
up_to_date [] v = true
up_to_date ((name, t) ∷ rest) v = matches_declared t (v.tables name) && up_to_date rest v
