-- ===== src/Api/Sessions.antt =====
-- Signing in and the first administrator: `create_console_session`, `read_setup_status`,
-- `create_initial_administrator`, `create_user_session` and `get_current_principal` of
-- src/g_one/api.py.
use project_g_one.Prelude.{
  String, Bool, true, false, not, ◌&&◌, [], ◌∷◌, ◌==◌, Option, none, some, if◌then◌else◌, contains,
}
use project_g_one.Text.{strip}
use project_g_one.Text.Sets.{sorted_set}
use project_g_one.Outside.{Outside}
use project_g_one.Settings.{Settings}
use project_g_one.Models.{WorkspaceUser}
use project_g_one.Models.Tables.{Kind}
use project_g_one.Passwords.{hash_password, verify_password}
use project_g_one.Auth.{Principal}
use project_g_one.Auth.Token.{Codec, encode_token}
use project_g_one.Session.{
  Handler, Outcome, returned, raised, ◌>>=◌, ◌>>◌, pure, raise, raise_if, lift, http, type_error,
  insert, select_first, select_or, commit, rollback, except_integrity, gets, on_option,
}
use project_g_one.Api.Audit.{now, new_id, audit}

pub record ConsoleSessionCreate : Type 0 where
  pub subject : String
  pub tenant_id : String
  pub password : String

pub record AdministratorSetup : Type 0 where
  pub subject : String
  pub tenant_id : String
  pub password : String
  pub display_name : String

abbrev pub principal_of_user : WorkspaceUser → Principal
principal_of_user user = record {
  subject = user.subject;
  tenant_id = user.tenant_id;
  roles = user.roles;
}

abbrev pub is_initialized : Option Bool → Bool
is_initialized none = false
is_initialized (some b) = b

-- `state is None or not state.initialized`
unfoldable pub read_setup_status : Handler Bool
read_setup_status = gets (λ w. not (is_initialized w.working.initialized))

-- The UPDATE of the row whose `initialized` is false: whether it changed one row.
abbrev pub claim : Option Bool → Option Bool × Bool
claim none = (none, false)
claim (some true) = (some true, false)
claim (some false) = (some true, true)

unfoldable pub claim_installation : Handler Bool
claim_installation w =
    let (initialized, claimed) = claim w.working.initialized in
    (returned claimed, record w { working = record w.working { initialized = initialized } })

-- `hmac.compare_digest` of two texts
abbrev pub compared : Option Bool → Outcome Bool
compared none = raised (type_error "comparing strings with non-ASCII characters is not supported")
compared (some same) = returned same

-- The password of the user, where there is one.
abbrev pub verified : Outside → String → Option WorkspaceUser → Option WorkspaceUser
verified o password none = none
verified o password (some user) =
    if verify_password o password user.password_hash then some user else none

module _ (o : Outside) (codec : Codec) (settings : Settings) where
  -- `SessionToken(access_token=encode_token(principal, settings))`
  unfoldable pub session_token : Principal → Handler String
  session_token p = do at ← now o; pure (encode_token codec settings at p 3600)

  unfoldable pub create_console_session : ConsoleSessionCreate → Handler String
  create_console_session body = do
    same ← lift (compared (o.compare_digest body.password settings.console_password))
    raise_if (not same) (http 401 "invalid console credentials")
    user ←
        select_or (http 401 "provisioned administrator required") Kind.users (λ u.
          u.tenant_id == body.tenant_id && (u.subject == body.subject && u.status == "active"))
    raise_if (not (contains "tenant_admin" user.roles))
        (http 401 "provisioned administrator required")
    session_token (principal_of_user user)

  unfoldable pub create_initial_administrator : AdministratorSetup → Handler String
  create_initial_administrator body = do
    claimed ← claim_installation
    if not claimed
        then (do rollback; raise (http 409 "administrator has already been configured"))
        else do
          password_hash ← hash_password o body.password
          id ← new_id o
          created ← now o
          updated ← now o
          let user : WorkspaceUser = record {
            id = id;
            tenant_id = body.tenant_id;
            subject = body.subject;
            display_name = body.display_name;
            email = none;
            password_hash = some password_hash;
            roles = "tenant_admin" ∷ [];
            vpn_address = none;
            allowed_ips = "";
            policy_version = 1;
            status = "active";
            created_at = created;
            updated_at = updated;
          }
          except_integrity (insert Kind.users user)
              (do rollback; raise (http 409 "administrator account already exists"))
          audit o (principal_of_user user) "installation.admin_created" "user" id []
          commit
          session_token (principal_of_user user)

  unfoldable pub create_user_session : String → String → String → Handler String
  create_user_session raw_subject raw_tenant password = do
    let subject = strip raw_subject
    let tenant_id = strip raw_tenant
    found ←
        select_first Kind.users
          (λ u. u.tenant_id == tenant_id && (u.subject == subject && u.status == "active"))
    on_option (verified o password found)
        (do rollback; raise (http 401 "invalid account credentials"))
        (λ user. do
          audit o (principal_of_user user) "session.login" "user" user.id []
          commit
          session_token (principal_of_user user))

-- `roles=sorted(principal.roles)`
unfoldable pub get_current_principal : Principal → Principal
get_current_principal p = record p { roles = sorted_set p.roles }
