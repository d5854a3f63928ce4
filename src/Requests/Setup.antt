-- ===== src/Requests/Setup.antt =====
-- The first administrator: `create_initial_administrator` of src/g_one/api.py among
-- the other requests.
use project_g_one.Prelude.{◌≡◌, ◌∙◌, String, true, some, List, arith}
use project_g_one.Outside.{Outside}
use project_g_one.Settings.{Settings}
use project_g_one.Models.Tables.{Database}
use project_g_one.Passwords.{hash_password}
use project_g_one.Auth.Token.{Codec}
use project_g_one.Session.{
  returned, raised, http, ◌>>=◌, start, run_request, pure, raise, insert, commit, rollback,
  except_integrity, read,
}
use project_g_one.Api.Audit.{audit}
use project_g_one.Api.Sessions.{
  AdministratorSetup, create_initial_administrator, claim_installation, session_token,
}
use project_g_one.Requests.{Request, serve}
use project_g_one.Requests.Isolation.{serve-initialized}

module _ (o : Outside) (codec : Codec) (settings : Settings) (body : AdministratorSetup) where
  -- Where an administrator is set up, another is refused.
  pub claimed-refused :
      (db : Database)
      → db.initialized ≡ some true
      → run_request (create_initial_administrator o codec settings body) db
        ≡ (raised (http 409 "administrator has already been configured"), db)
  unfolding run_request start create_initial_administrator claim_installation ◌>>=◌ rollback raise
  claimed-refused db h = ground (arith)

  -- A setup that returns has marked the installation.
  returned-initialized :
      (db : Database) (token : String)
      → (run_request (create_initial_administrator o codec settings body) db).0 ≡ returned token
      → (run_request (create_initial_administrator o codec settings body) db).1.initialized
        ≡ some true
  unfolding run_request start create_initial_administrator claim_installation ◌>>=◌ rollback raise
      pure insert commit except_integrity read audit session_token hash_password
  returned-initialized db token h = ground (arith)

-- Once an administrator was set up and its token returned, then after any requests of signed-in
-- principals every other setup is answered with 409 and leaves the database as it is.
pub setup_once :
    (o later : Outside) (codec : Codec) (settings : Settings) (body other : AdministratorSetup)
    (rs : List Request) (db : Database) (token : String)
    → (run_request (create_initial_administrator o codec settings body) db).0 ≡ returned token
    → run_request
        (create_initial_administrator later codec settings other)
        (serve settings rs (run_request (create_initial_administrator o codec settings body) db).1)
      ≡ (
        raised (http 409 "administrator has already been configured"),
        serve settings rs (run_request (create_initial_administrator o codec settings body) db).1,
      )
setup_once o later codec settings body other rs db token h =
    claimed-refused later codec settings other _
      (serve-initialized settings rs _ ∙ returned-initialized o codec settings body db token h)
