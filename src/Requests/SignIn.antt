-- ===== src/Requests/SignIn.antt =====
-- Who signs in: `create_user_session` of src/g_one/api.py.
use project_g_one.Prelude.{
  ◌≡◌, refl, String, Bool, true, false, List, [], ◌∷◌, any, Option, none, some, ◌==◌, ◌&&◌, arith,
  find_first,
}
use project_g_one.Text.{strip}
use project_g_one.Outside.{Outside}
use project_g_one.Settings.{Settings}
use project_g_one.Models.{WorkspaceUser}
use project_g_one.Models.Tables.{Kind, Database}
use project_g_one.Passwords.{verify_password}
use project_g_one.Auth.Token.{Codec}
use project_g_one.Session.{
  returned, raised, http, ◌>>=◌, start, run_request, raise, rollback, select_first,
}
use project_g_one.Api.Sessions.{create_user_session, verified}

module _ (o : Outside) (codec : Codec) (settings : Settings) (db : Database) where
  -- The active account with the subject, among the tenant's.
  abbrev pub active_account : String → String → Option WorkspaceUser
  active_account subject tenant =
      find_first
        (λ u. u.tenant_id == strip tenant && (u.subject == strip subject && u.status == "active"))
        (db.rows Kind.users)

  -- There is such an account, and the password is its password.
  abbrev pub IsKnown : String → String → String → Type 0
  IsKnown subject tenant password =
      (user : WorkspaceUser) × (active_account subject tenant ≡ some user)
      × (verify_password o password user.password_hash ≡ true)

  -- A sign-in gets a token only for an active account of the tenant whose password was given.
  pub create_user_session-IsKnown :
      (subject tenant password token : String)
      → (run_request (create_user_session o codec settings subject tenant password) db).0
        ≡ returned token
      → IsKnown subject tenant password
  unfolding run_request start create_user_session ◌>>=◌ raise rollback select_first
  create_user_session-IsKnown subject tenant password token h =
      known (active_account subject tenant) refl
    where
      known :
          (found : Option WorkspaceUser)
          → active_account subject tenant ≡ found
          → IsKnown subject tenant password
      known none e = ground (arith)
      known (some user) e = (user, e, ground (arith))

  -- The account is one that may sign in with the password.
  abbrev pub is_known : String → String → String → WorkspaceUser → Bool
  is_known subject tenant password u =
      u.tenant_id == strip tenant
      && (u.subject == strip subject
          && (u.status == "active" && verify_password o password u.password_hash))

  none-verified :
      (subject tenant password : String) (us : List WorkspaceUser)
      → any (is_known subject tenant password) us ≡ false
      → verified o password (
          find_first
            (λ u.
              u.tenant_id == strip tenant && (u.subject == strip subject && u.status == "active"))
            us)
        ≡ none
  none-verified subject tenant password [] h = refl
  none-verified subject tenant password (u ∷ us) h =
      let rest = none-verified subject tenant password us (ground (arith, h)) in
      ground (arith, rest, h)

  -- Where no account of the tenant is active, has the subject and verifies the password, a sign-in is answered
  -- with 401, and the database stays as it was.
  pub create_user_session-refused :
      (subject tenant password : String)
      → any (is_known subject tenant password) (db.rows Kind.users) ≡ false
      → run_request (create_user_session o codec settings subject tenant password) db
        ≡ (raised (http 401 "invalid account credentials"), db)
  unfolding run_request start create_user_session ◌>>=◌ raise rollback select_first
  create_user_session-refused subject tenant password h =
      let none_found = none-verified subject tenant password (db.rows Kind.users) h in
      ground (arith, none_found)
