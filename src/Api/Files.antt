-- ===== src/Api/Files.antt =====
-- File servers: `list_file_servers`, `create_file_server`, `update_file_server` and
-- `delete_file_server` of src/g_one/api.py.
use Prim.Native.Char.{Char}
use project_g_one.Prelude.{String, true, false, ◌&&◌, List, [], ◌∷◌, ◌==◌, sort_by}
use project_g_one.Text.{strip, has_any}
use project_g_one.Outside.{Outside}
use project_g_one.Models.{FileServer}
use project_g_one.Models.Tables.{Kind}
use project_g_one.Auth.{Principal, require_role}
use project_g_one.Session.{
  Handler, ◌>>=◌, ◌>>◌, pure, raise, raise_if, lift, http, insert, save, select_or, select_all,
  commit, rollback, except_integrity,
}
use project_g_one.Api.Audit.{now, new_id, audit}
use project_g_one.Api.Roles.{normalized_values}

pub record FileServerCreate : Type 0 where
  pub name : String
  pub host : String
  pub shares : List String

-- The characters that a host may not have.
abbrev pub host_separators : List Char
host_separators = "/" ∷ "\\" ∷ ":" ∷ []

module _ (o : Outside) (p : Principal) where
  unfoldable pub list_file_servers : Handler (List FileServer)
  list_file_servers = do
    require_role p ("tenant_admin" ∷ [])
    found ← select_all Kind.file_servers (λ s. s.tenant_id == p.tenant_id && s.enabled)
    pure (sort_by (λ a b. o.name_before a.name b.name) found)

  -- `body.host.strip().lower()`, or the error
  unfoldable pub checked_host : String → Handler String
  unfolding strip has_any
  checked_host text = do
    let host = o.lower (strip text)
    raise_if (has_any host_separators host) (http 422 "host must be a DNS name or IP address")
    pure host

  unfoldable pub select_file_server : String → Handler FileServer
  select_file_server server_id =
      select_or (http 404 "file server not found") Kind.file_servers
        (λ s. s.tenant_id == p.tenant_id && (s.id == server_id && s.enabled))

  unfoldable pub create_file_server : FileServerCreate → Handler FileServer
  create_file_server body = do
    require_role p ("tenant_admin" ∷ [])
    host ← checked_host body.host
    shares ← lift (normalized_values body.shares "shares")
    id ← new_id o
    created ← now o
    updated ← now o
    let server : FileServer = record {
      id = id;
      tenant_id = p.tenant_id;
      name = strip body.name;
      host = host;
      shares = shares;
      enabled = true;
      created_at = created;
      updated_at = updated;
    }
    except_integrity (insert Kind.file_servers server)
        (do rollback; raise (http 409 "file server name already exists"))
    audit o p "file_server.created" "file_server" id []
    commit
    pure server

  unfoldable pub update_file_server : String → FileServerCreate → Handler FileServer
  update_file_server server_id body = do
    require_role p ("tenant_admin" ∷ [])
    server ← select_file_server server_id
    host ← checked_host body.host
    shares ← lift (normalized_values body.shares "shares")
    at ← now o
    let changed : FileServer = record server {
      name = strip body.name;
      host = host;
      shares = shares;
      updated_at = at;
    }
    except_integrity (save Kind.file_servers changed)
        (do rollback; raise (http 409 "file server name already exists"))
    audit o p "file_server.updated" "file_server" server.id []
    commit
    pure changed

  unfoldable pub delete_file_server : String → Handler (Unit {0})
  delete_file_server server_id = do
    require_role p ("tenant_admin" ∷ [])
    server ← select_file_server server_id
    at ← now o
    save Kind.file_servers (record server { enabled = false; updated_at = at })
    audit o p "file_server.disabled" "file_server" server.id []
    commit
