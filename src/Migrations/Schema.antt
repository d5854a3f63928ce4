-- ===== src/Migrations/Schema.antt =====
-- The databases on which src/g_one/alembic/versions is run: without the program's tables, and with the tables that `create_all` of src/g_one/models.py makes.
use mathlib.Core.Path.{fun_ext}
use project_g_one.Prelude.{
  ◌≡◌, refl, ◌∙◌, String, Bool, true, List, [], ◌∷◌, Option, none, some, if◌then◌else◌, ◌==◌,
  Bool-cases, inl, inr,
}
use project_g_one.Migrations.Tables.{Table, is_own}
use project_g_one.Migrations.Alembic.{View}

abbrev pub table_of : String → List (String × Table) → Option Table
table_of j [] = none
table_of j ((name, t) ∷ rest) = if name == j then some t else table_of j rest

-- The program's tables in the database are the ones of the list, Alembic has not run on it yet, and no
-- table of another program refers to one of them.
unfoldable pub Holds : List (String × Table) → View → Type 0
Holds ts v =
    ((j : String) → is_own j ≡ true → v.tables j ≡ table_of j ts)
    × (v.revision ≡ none)
    × (v.outside ≡ [])

-- Such a database, by the tables of other programs and by its rows.
abbrev pub start : List (String × Table) → (String → Option Table) → Option Bool → Bool → View
start ts others installation any_user = record {
  tables = λ j. if is_own j then table_of j ts else others j;
  installation = installation;
  any_user = any_user;
  revision = none;
  outside = [];
}

pub Holds-start :
    (ts : List (String × Table)) (v : View)
    → Holds ts v
    → v ≡ start ts v.tables v.installation v.any_user
unfolding Holds
Holds-start ts v (own, r, out) = λ i. record {
  tables = fun_ext same i;
  installation = v.installation;
  any_user = v.any_user;
  revision = r i;
  outside = out i;
}
  where
    same : (j : String) → v.tables j ≡ (if is_own j then table_of j ts else v.tables j)
    same j = elim (Bool-cases (is_own j)) [ inl e ↦ own j e ∙ rw e refl | inr e ↦ rw e refl ]
