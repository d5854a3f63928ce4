-- ===== src/Migrations/Takeover.antt =====
-- The migrations of src/g_one/alembic/versions before `create_initial_administrator` of src/g_one/api.py.
use project_g_one.Prelude.{◌≡◌, ◌∙◌, ap, true, some, List}
use project_g_one.Outside.{Outside}
use project_g_one.Settings.{Settings}
use project_g_one.Auth.Token.{Codec}
use project_g_one.Models.Tables.{Database}
use project_g_one.Session.{raised, http, run_request}
use project_g_one.Api.Sessions.{AdministratorSetup, create_initial_administrator}
use project_g_one.Requests.{Request, serve}
use project_g_one.Requests.Isolation.{serve-initialized}
use project_g_one.Requests.Setup.{claimed-refused}
use project_g_one.Migrations.Running.{Alembic, run_on}
use project_g_one.Migrations.Versions.{upgrade_head}
use project_g_one.Migrations.Outcome.{state_or}
use project_g_one.Migrations.Roundtrip.{IsKnown, upgrade-IsUpgraded}

module _ (a : Alembic) where
  open a use {Store, view}

  -- A database without the program's tables, or with the tables that `create_all` makes, that holds an
  -- account, and no row of the installation that says otherwise, is upgraded to one where, after any
  -- requests of signed-in principals, every setup of an administrator is answered with 409 and leaves
  -- the database as it is. `rows` are the rows that the program reads.
  pub upgraded-refused :
      (rows : Store → Database)
      → ((d : Store) → (rows d).initialized ≡ (view d).installation)
      → (o : Outside) (codec : Codec) (settings : Settings) (body : AdministratorSetup)
        (rs : List Request)
      → (d : Store) → IsKnown (view d)
      → state_or (view d).installation (view d).any_user ≡ true
      → (d' : Store) × ((run_on a upgrade_head d ≡ some d')
          × (run_request
                (create_initial_administrator o codec settings body)
                (serve settings rs (rows d'))
              ≡ (
                raised (http 409 "administrator has already been configured"),
                serve settings rs (rows d'),
              )))
  upgraded-refused rows same o codec settings body rs d known h =
      let (d', (r, (current, row, kept, again))) = upgrade-IsUpgraded a d known in
      let installed = same d' ∙ row ∙ ap some h in
      (
        d',
        (
          r,
          claimed-refused o codec settings body (serve settings rs (rows d'))
              (serve-initialized settings rs (rows d') ∙ installed),
        ),
      )
