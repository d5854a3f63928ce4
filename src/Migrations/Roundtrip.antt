-- ===== src/Migrations/Roundtrip.antt =====
-- Running `alembic upgrade head` and `alembic downgrade base` on a database.
use project_g_one.Prelude.{◌≡◌, ◌⊎◌, inl, inr, ap, ◌∙◌, String, false, some, none, List, [], ◌∷◌}
use project_g_one.Migrations.Tables.{Table, is_own}
use project_g_one.Migrations.Alembic.{View, Script}
use project_g_one.Migrations.Running.{Alembic, Leads, run_on, run_on_view, run_on-Leads}
use project_g_one.Migrations.Versions.{upgrade_head, version_table}
use project_g_one.Migrations.Schema.{Holds, start, Holds-start}
use project_g_one.Migrations.Metadata.{metadata}
use project_g_one.Migrations.Outcome.{
  IsCurrent, outcome, state_or, Upgrades, none-Upgrades, metadata-Upgrades,
}

-- Alembic has not run yet, and the program's tables are all missing, or as `create_all` makes them.
abbrev pub IsKnown : View → Type 0
IsKnown v = Holds [] v ⊎ Holds metadata v

-- What is left of the program after a downgrade: the table of Alembic, without a revision.
abbrev pub without_program : View → View
without_program v = start (("alembic_version", version_table) ∷ []) v.tables none false

-- Where the script leads from a view that is like this one.
script-Leads :
    (a : Alembic) (s : Script) (d : a.Store) (v w : View)
    → a.view d ≡ v
    → run_on_view s v ≡ some w
    → Leads a.view (run_on a s d) w
script-Leads a s d v w e h = run_on-Leads a s d w (ap (run_on_view s) e ∙ h)

module _ (a : Alembic) where
  open a use {Store, view}

  -- What the upgrade makes of the database.
  abbrev pub IsUpgraded : Store → Store → Type 0
  IsUpgraded d d' =
      IsCurrent (view d')
      × ((view d').installation ≡ some (state_or (view d).installation (view d).any_user))
      × ((j : String) → is_own j ≡ false → (view d').tables j ≡ (view d).tables j)
      × Leads view (run_on a upgrade_head d') (view d')

  upgrade_from :
      (ts : List (String × Table))
      → Upgrades ts
      → (d : Store) → Holds ts (view d)
      → (d' : Store) × ((run_on a upgrade_head d ≡ some d') × IsUpgraded d d')
  unfolding Upgrades
  upgrade_from ts up d h =
      let v = view d in
      let start_view = start ts v.tables v.installation v.any_user in
      let (run, current, row, again, kept) = up v.tables v.installation v.any_user in
      let (d', (r, k)) =
        script-Leads a upgrade_head d start_view (outcome upgrade_head start_view)
          (Holds-start ts v h) run in
      (
        d',
        (
          r,
          (
            rw k current,
            rw k row,
            (λ j o. ap (λ w. w.tables j) k ∙ kept j o),
            run_on-Leads a upgrade_head d' (view d') (rw k again),
          ),
        ),
      )

  pub upgrade-IsUpgraded :
      (d : Store)
      → IsKnown (view d)
      → (d' : Store) × ((run_on a upgrade_head d ≡ some d') × IsUpgraded d d')
  upgrade-IsUpgraded d (inl h) = upgrade_from [] none-Upgrades d h
  upgrade-IsUpgraded d (inr h) = upgrade_from metadata metadata-Upgrades d h

  -- On a database without the program's tables, or with the tables that `create_all` makes, `alembic
  -- upgrade head` succeeds. Afterwards every table of the models is there as the models declare it, up
  -- to the order of its parts and the defaults of the server, with the table of Alembic at the last
  -- revision and without the table of workspaces. Any table that the program does not own is as
  -- before, and a second upgrade succeeds and changes nothing of this.
  pub upgrade_head-up_to_date :
      (d : Store)
      → IsKnown (view d)
      → (d' : Store) × ((run_on a upgrade_head d ≡ some d')
          × (IsCurrent (view d')
              × (((j : String) → is_own j ≡ false → (view d').tables j ≡ (view d).tables j)
                  × Leads view (run_on a upgrade_head d') (view d'))))
  upgrade_head-up_to_date d h =
      let (d', (r, (current, row, kept, again))) = upgrade-IsUpgraded d h in
      (d', (r, (current, (kept, again))))
