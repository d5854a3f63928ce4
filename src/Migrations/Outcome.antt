-- ===== src/Migrations/Outcome.antt =====
-- What `alembic upgrade head` and `alembic downgrade base` make of such a database.
use project_g_one.Prelude.{
  ◌≡◌, refl, sym, ap, ◌∙◌, true, false, String, Bool, List, [], ◌∷◌, Option, none, some, ◌==◌, ◌||◌,
  any, Bool-cases, inl, inr, eq_iff, arith,
}
use project_g_one.Migrations.Tables.{Table, own_tables, is_own}
use project_g_one.Migrations.Alembic.{View, Script, ◌>>◌}
use project_g_one.Migrations.Running.{run_on_view}
use project_g_one.Migrations.Versions.{upgrade_head, downgrade_base, version_table}
use project_g_one.Migrations.Schema.{start}
use project_g_one.Migrations.Compare.{up_to_date}
use project_g_one.Migrations.Metadata.{metadata}

-- The schema is the one of the models and at the head, and nothing else of the program's is there: the
-- tables that test_upgrade_builds_database_from_scratch_outside_project_directory expects.
unfoldable pub IsCurrent : View → Type 0
IsCurrent w =
    (up_to_date metadata w ≡ true)
    × (w.tables "workspaces" ≡ none)
    × (w.tables "alembic_version" ≡ some version_table)
    × (w.revision ≡ some "0007")

-- The view that the script leaves.
abbrev or_view : View → Option View → View
or_view v none = v
or_view v (some w) = w

abbrev pub outcome : Script → View → View
outcome s v = or_view v (run_on_view s v)

unfoldable Differ : String → List String → Type 0
Differ j [] = Unit {0}
Differ j (name ∷ rest) = ((name == j) ≡ false) × Differ j rest

unmatched :
    (j : String) (names : List String) → any (λ name. name == j) names ≡ false → Differ j names
unfolding Differ
unmatched j [] h = tt
unmatched j (name ∷ rest) h = elim (Bool-cases (name == j)) [
  | inl e ↦ ground (arith, e, h)
  | inr e ↦ (e, unmatched j rest (sym (ap (λ b. b || any (λ name. name == j) rest) e) ∙ h))
]

-- A row that is there stays; else the row says whether an account is there.
abbrev pub state_or : Option Bool → Bool → Bool
state_or none any_user = any_user
state_or (some initialized) any_user = initialized

AllSame : (String → Option Table) → (String → Option Table) → List String → Type 0
AllSame f g [] = Unit {0}
AllSame f g (name ∷ rest) = (f name ≡ g name) × AllSame f g rest

same_at :
    (f g : String → Option Table) (names : List String)
    → AllSame f g names
    → (j : String) → any (λ name. name == j) names ≡ true
    → f j ≡ g j
unfolding AllSame
same_at f g [] all j h = ground (arith, h)
same_at f g (name ∷ rest) (e, all) j h = elim (Bool-cases (name == j)) [
  | inl k ↦ let p = (eq_iff name j).0 k in sym (ap f p) ∙ e ∙ ap g p
  | inr k ↦ same_at f g rest all j (sym (ap (λ b. b || any (λ name. name == j) rest) k) ∙ h)
]

same_tables :
    (f g : String → Option Table)
    → AllSame f g own_tables
    → ((j : String) → is_own j ≡ false → f j ≡ g j)
    → (j : String) → f j ≡ g j
same_tables f g own others j = elim (Bool-cases (is_own j)) [
  | inl h ↦ same_at f g own_tables own j h
  | inr h ↦ others j h
]

-- What an upgrade of a database with these tables does.
unfoldable pub Upgrades : List (String × Table) → Type 0
Upgrades ts =
    (others : String → Option Table) (installation : Option Bool) (any_user : Bool)
    → let v = start ts others installation any_user in
      let w = outcome upgrade_head v in
      (run_on_view upgrade_head v ≡ some w)
      × IsCurrent w
      × (w.installation ≡ some (state_or installation any_user))
      × (run_on_view upgrade_head w ≡ some w)
      × ((j : String) → is_own j ≡ false → w.tables j ≡ others j)

-- The database has no table of the program.
pub none-Upgrades : Upgrades []
unfolding Differ IsCurrent Upgrades
none-Upgrades others none u = (
  refl,
  (refl, refl, refl, refl),
  refl,
  refl,
  λ j h.
      let (h1, (h2, (h3, (h4, (h5, (h6, (h7, (h8, (h9, (h10, (h11, (h12, (h13, last))))))))))))) =
        unmatched j own_tables h in
      rw (h1, h2, h3, h4, h5, h6, h7, h8, h9, h10, h11, h12, h13) refl,
)
none-Upgrades others (some b) u = (
  refl,
  (refl, refl, refl, refl),
  refl,
  refl,
  λ j h.
      let (h1, (h2, (h3, (h4, (h5, (h6, (h7, (h8, (h9, (h10, (h11, (h12, (h13, last))))))))))))) =
        unmatched j own_tables h in
      rw (h1, h2, h3, h4, h5, h6, h7, h8, h9, h10, h11, h12, h13) refl,
)

-- The database has the tables that `create_all` makes.
pub metadata-Upgrades : Upgrades metadata
unfolding Differ IsCurrent Upgrades
metadata-Upgrades others none u = (
  refl,
  (refl, refl, refl, refl),
  refl,
  refl,
  λ j h.
      let (h1, (h2, (h3, (h4, (h5, (h6, (h7, (h8, (h9, (h10, (h11, (h12, (h13, last))))))))))))) =
        unmatched j own_tables h in
      rw (h1, h2, h3, h4, h5, h6, h7, h8, h9, h10, h11, h12, h13) refl,
)
metadata-Upgrades others (some b) u = (
  refl,
  (refl, refl, refl, refl),
  refl,
  refl,
  λ j h.
      let (h1, (h2, (h3, (h4, (h5, (h6, (h7, (h8, (h9, (h10, (h11, (h12, (h13, last))))))))))))) =
        unmatched j own_tables h in
      rw (h1, h2, h3, h4, h5, h6, h7, h8, h9, h10, h11, h12, h13) refl,
)

-- What the downgrade after an upgrade of a database with these tables does.
unfoldable pub Downgrades : List (String × Table) → Type 0
Downgrades ts =
    (others : String → Option Table) (installation : Option Bool) (any_user : Bool)
    → let v = start ts others installation any_user in
      let left = start (("alembic_version", version_table) ∷ []) others none false in
      let w = outcome (upgrade_head >> downgrade_base) v in
      (run_on_view (upgrade_head >> downgrade_base) v ≡ some w)
      × ((j : String) → w.tables j ≡ left.tables j)
      × (w.installation ≡ none)
      × (w.any_user ≡ false)
      × (w.revision ≡ none)
      × (w.outside ≡ [])

pub none-Downgrades : Downgrades []
unfolding Differ AllSame Downgrades
none-Downgrades others none u = (
  refl,
  same_tables _ _
      (
        refl,
        (
          refl,
          (
            refl,
            (refl, (refl, (refl, (refl, (refl, (refl, (refl, (refl, (refl, (refl, tt)))))))))),
          ),
        ),
      )
      (λ j h.
        let (h1, (h2, (h3, (h4, (h5, (h6, (h7, (h8, (h9, (h10, (h11, (h12, (h13, last))))))))))))) =
          unmatched j own_tables h in
        rw (h1, h2, h3, h4, h5, h6, h7, h8, h9, h10, h11, h12, h13) refl),
  refl,
  refl,
  refl,
  refl,
)
none-Downgrades others (some b) u = (
  refl,
  same_tables _ _
      (
        refl,
        (
          refl,
          (
            refl,
            (refl, (refl, (refl, (refl, (refl, (refl, (refl, (refl, (refl, (refl, tt)))))))))),
          ),
        ),
      )
      (λ j h.
        let (h1, (h2, (h3, (h4, (h5, (h6, (h7, (h8, (h9, (h10, (h11, (h12, (h13, last))))))))))))) =
          unmatched j own_tables h in
        rw (h1, h2, h3, h4, h5, h6, h7, h8, h9, h10, h11, h12, h13) refl),
  refl,
  refl,
  refl,
  refl,
)

pub metadata-Downgrades : Downgrades metadata
unfolding Differ AllSame Downgrades
metadata-Downgrades others none u = (
  refl,
  same_tables _ _
      (
        refl,
        (
          refl,
          (
            refl,
            (refl, (refl, (refl, (refl, (refl, (refl, (refl, (refl, (refl, (refl, tt)))))))))),
          ),
        ),
      )
      (λ j h.
        let (h1, (h2, (h3, (h4, (h5, (h6, (h7, (h8, (h9, (h10, (h11, (h12, (h13, last))))))))))))) =
          unmatched j own_tables h in
        rw (h1, h2, h3, h4, h5, h6, h7, h8, h9, h10, h11, h12, h13) refl),
  refl,
  refl,
  refl,
  refl,
)
metadata-Downgrades others (some b) u = (
  refl,
  same_tables _ _
      (
        refl,
        (
          refl,
          (
            refl,
            (refl, (refl, (refl, (refl, (refl, (refl, (refl, (refl, (refl, (refl, tt)))))))))),
          ),
        ),
      )
      (λ j h.
        let (h1, (h2, (h3, (h4, (h5, (h6, (h7, (h8, (h9, (h10, (h11, (h12, (h13, last))))))))))))) =
          unmatched j own_tables h in
        rw (h1, h2, h3, h4, h5, h6, h7, h8, h9, h10, h11, h12, h13) refl),
  refl,
  refl,
  refl,
  refl,
)
