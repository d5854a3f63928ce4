-- ===== src/Api/Download.antt =====
-- The bundle of a deployment: `download_client_deployment` of src/g_one/api.py. The result is the manifest
-- that the zip file holds; `Bundle` makes the rest of the file of it.
pub mod Target
pub mod Bundle
use Prim.Native.Char.{code}
use Prim.Native.String as Native
use project_g_one.Prelude.{
  ℕ, ◌+◌, ◌*◌, String, Bool, true, false, not, ◌&&◌, ◌||◌, List, [], ◌∷◌, map, ◌==◌, Option, none,
  some, nat_eq, contains, if◌then◌else◌,
}
use project_g_one.Text.{strip, is_empty}
use project_g_one.Outside.{Outside}
use project_g_one.Models.{FileServer, ClientDeploymentProfile, ClientEnrollmentCode, text}
use project_g_one.Models.Tables.{Kind}
use project_g_one.Auth.{Principal, has_role}
use project_g_one.Session.{
  Handler, ◌>>=◌, ◌>>◌, pure, raise_if, http, read, insert, select_or, select_all, commit,
}
use project_g_one.Api.Audit.{now, new_id, audit}

pub record ServerEntry : Type 0 where
  pub name : String
  pub host : String
  pub shares : List String

-- `manifest`
pub record Manifest : Type 0 where
  pub server_url : String
  pub tenant_id : String
  pub profile_id : String
  pub profile_name : String
  pub revision : ℕ
  pub target_subject : String
  pub enrollment_code : String
  pub expires_at : ℕ
  pub network_id : String
  pub allowed_ips : String
  pub file_servers : List ServerEntry

-- `text.rstrip("/")`
unfoldable pub without_slashes : String → String
unfolding is_empty
without_slashes Native.[] = Native.[]
without_slashes (Native.◌∷◌ c s) =
    let rest = without_slashes s in
    if nat_eq (code c) 47 && is_empty rest then Native.[] else Native.◌∷◌ c rest

-- `subject.strip() if subject else principal.subject`
unfoldable pub target_of : Principal → Option String → String
unfolding is_empty strip
target_of p none = p.subject
target_of p (some subject) = if is_empty subject then p.subject else strip subject

abbrev pub entry : FileServer → ServerEntry
entry server = record { name = server.name; host = server.host; shares = server.shares }

module _ (o : Outside) (p : Principal) where
  unfoldable pub download_client_deployment : String → Option String → String → Handler Manifest
  unfolding target_of without_slashes
  download_client_deployment profile_id subject base_url = do
    profile ←
        select_or (http 404 "deployment profile not found") Kind.profiles
          (λ d. d.id == profile_id && (d.tenant_id == p.tenant_id && d.enabled))
    let target = target_of p subject
    raise_if (not (contains target profile.target_subjects))
        (http 403 "deployment is not assigned to this user")
    raise_if (not (target == p.subject) && not (has_role p "tenant_admin"))
        (http 403 "cannot download for another user")
    published ← read o.is_file
    raise_if (not published) (http 503 "Windows client artifact is not published")
    servers ←
        select_all Kind.file_servers
          (λ s. s.tenant_id == p.tenant_id && (contains s.id profile.file_server_ids && s.enabled))
    raw_code ← read o.token_urlsafe
    at ← now o
    id ← new_id o
    created ← now o
    let enrollment : ClientEnrollmentCode = record {
      id = id;
      tenant_id = p.tenant_id;
      profile_id = profile.id;
      subject = target;
      token_hash = o.sha256_hex raw_code;
      expires_at = at + 600 * 1_000_000;
      created_by = p.subject;
      created_at = created;
      used_at = none;
    }
    insert Kind.enrollment_codes enrollment
    audit o p "client_deployment.downloaded" "client_deployment" profile.id
        (("target_subject", text target) ∷ ("enrollment_id", text id) ∷ [])
    commit
    pure (record {
      server_url = without_slashes base_url;
      tenant_id = p.tenant_id;
      profile_id = profile.id;
      profile_name = profile.name;
      revision = profile.revision;
      target_subject = target;
      enrollment_code = raw_code;
      expires_at = enrollment.expires_at;
      network_id = profile.vpn_network_id;
      allowed_ips = profile.allowed_ips;
      file_servers = map entry servers;
    })
