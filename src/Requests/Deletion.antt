-- ===== src/Requests/Deletion.antt =====
-- Which accounts may be deleted: `delete_user` of src/g_one/api.py.
use project_g_one.Prelude.{
  ◌≡◌, refl, String, true, not, Option, none, some, List, ◌==◌, ◌&&◌, arith, eq_iff, find_first,
  where_true, contains, ◌≢◌, ◌⊎◌, false,
}
use project_g_one.Outside.{Outside}
use project_g_one.Models.{WorkspaceUser}
use project_g_one.Models.Tables.{Kind, Database}
use project_g_one.Auth.{Principal, require_role}
use project_g_one.Session.{
  returned, ◌>>=◌, start, run_request, pure, raise_if, select_or, select_all,
}
use project_g_one.Api.Users.{delete_user, check_last_admin, has_admin}

module _ (o : Outside) (p : Principal) (db : Database) where
  -- The account with the id, among the tenant's.
  abbrev pub stored_user : String → Option WorkspaceUser
  stored_user id = find_first (λ u. u.tenant_id == p.tenant_id && u.id == id) (db.rows Kind.users)

  -- The other active accounts of the tenant.
  abbrev pub others : WorkspaceUser → List WorkspaceUser
  others user =
      where_true
        (λ u. u.tenant_id == p.tenant_id && (not (u.id == user.id) && u.status == "active"))
        (db.rows Kind.users)

  -- The account may go: it is not the principal's, and it is no administrator or there is another.
  abbrev pub IsDeletable : String → Type 0
  IsDeletable id =
      (user : WorkspaceUser) × (stored_user id ≡ some user)
      × (user.subject ≢ p.subject)
      × ((contains "tenant_admin" user.roles ≡ false) ⊎ (has_admin (others user) ≡ true))

  -- A deletion that returns was of an account of the tenant, not the principal's own, and if that
  -- account was an administrator, the tenant had another active administrator.
  pub delete_user-IsDeletable :
      (id : String) (done : Unit {0})
      → (run_request (delete_user o p id) db).0 ≡ returned done
      → IsDeletable id
  unfolding run_request start delete_user check_last_admin ◌>>=◌ require_role raise_if select_or
      select_all pure
  delete_user-IsDeletable id done h = deletable (stored_user id) refl
    where
      deletable : (found : Option WorkspaceUser) → stored_user id ≡ found → IsDeletable id
      deletable none e = ground (arith)
      deletable (some user) e =
          (user, e, ground (arith, eq_iff user.subject p.subject), ground (arith))
