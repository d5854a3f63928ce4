-- ===== src/Api/Bodies.antt =====
-- The bodies of the requests as src/g_one/schemas.py accepts them: the bounds of `Field` and, behind
-- them, the validators. There is none where pydantic answers with 422.
pub mod Normal
use project_g_one.Prelude.{
  ℕ, String, Bool, true, not, ◌&&◌, ◌||◌, List, [], ◌∷◌, ◌==◌, Option, none, some, leb, length,
  if◌then◌else◌,
}
use project_g_one.Text.{strip}
use project_g_one.Settings.Environment.{text_length}
use project_g_one.Api.Sessions.{ConsoleSessionCreate, AdministratorSetup}
use project_g_one.Api.Support.{SupportRequestCreate}
use project_g_one.Api.Tokens.{ApiTokenCreate}
use project_g_one.Api.Users.{UserCreate, UserUpdate}
use project_g_one.Api.Vpn.{VpnNetworkCreate, VpnPeerCreate}
use project_g_one.Api.Files.{FileServerCreate}
use project_g_one.Api.Deployments.{DeploymentProfileCreate}

abbrev pub is_between : ℕ → ℕ → ℕ → Bool
is_between low high n = leb low n && leb n high

-- `Field(min_length=low, max_length=high)`
unfoldable pub has_length : ℕ → ℕ → String → Bool
unfolding text_length
has_length low high s = is_between low high (text_length s)

unfoldable pub has_length_or_none : ℕ → ℕ → Option String → Bool
unfolding has_length
has_length_or_none low high none = true
has_length_or_none low high (some s) = has_length low high s

-- A text in its bounds, stripped, where that leaves enough of it.
unfoldable pub normal_text : ℕ → ℕ → String → Option String
unfolding has_length strip text_length
normal_text low high s =
    if has_length low high s && leb low (text_length (strip s)) then some (strip s) else none

-- `normalize_identifier` and `normalize_login_identifier`
unfoldable pub normal_identifier : String → Option String
unfolding normal_text
normal_identifier = normal_text 1 128

-- `normalize_display_name`
unfoldable pub normal_display_name : String → Option String
unfolding normal_text
normal_display_name = normal_text 1 128

-- `DeviceCreate`
unfoldable pub normal_name : String → Option String
unfolding normal_text
normal_name = normal_text 1 128

-- `normalize_purpose`
unfoldable pub normal_purpose : String → Option String
unfolding normal_text
normal_purpose = normal_text 3 500

abbrev pub on_text {ℓ} : {A : Type ℓ} → Option String → (String → Option A) → Option A
on_text none f = none
on_text (some s) f = f s

abbrev pub given {ℓ} : {A : Type ℓ} → Bool → A → Option A
given b a = if b then some a else none

unfoldable pub valid_session : ConsoleSessionCreate → Option ConsoleSessionCreate
unfolding normal_identifier has_length
valid_session body = on_text (normal_identifier body.subject) λ subject.
    on_text (normal_identifier body.tenant_id) λ tenant_id.
      given (has_length 1 512 body.password)
        (record body { subject = subject; tenant_id = tenant_id })

unfoldable pub valid_setup : AdministratorSetup → Option AdministratorSetup
unfolding normal_identifier normal_display_name has_length
valid_setup body = on_text (normal_identifier body.subject) λ subject.
    on_text (normal_identifier body.tenant_id) λ tenant_id.
      on_text (normal_display_name body.display_name) λ display_name.
        given (has_length 8 512 body.password)
          (record body { subject = subject; tenant_id = tenant_id; display_name = display_name })

unfoldable pub valid_support_request : SupportRequestCreate → Option SupportRequestCreate
unfolding normal_purpose
valid_support_request body = on_text (normal_purpose body.purpose) λ purpose.
    given (leb 1 (length body.permissions) && is_between 60 900 body.lifetime_seconds)
      (record body { purpose = purpose })

unfoldable pub valid_api_token : ApiTokenCreate → Bool
unfolding has_length
valid_api_token body =
    has_length 1 128 body.name && leb 1 (length body.scopes) && is_between 1 365 body.lifetime_days

unfoldable pub valid_user : UserCreate → Bool
unfolding has_length has_length_or_none
valid_user body =
    has_length 1 128 body.subject
    && has_length 1 128 body.display_name
    && has_length_or_none 0 255 body.email
    && has_length 8 512 body.password
    && has_length_or_none 0 64 body.vpn_address
    && has_length 0 1024 body.allowed_ips

unfoldable pub valid_user_update : UserUpdate → Bool
unfolding has_length has_length_or_none
valid_user_update body =
    has_length 1 128 body.display_name
    && has_length_or_none 0 255 body.email
    && ((body.status == "active") || (body.status == "suspended"))
    && has_length_or_none 8 512 body.password
    && has_length_or_none 0 64 body.vpn_address
    && has_length 0 1024 body.allowed_ips

unfoldable pub valid_network : VpnNetworkCreate → Bool
unfolding has_length has_length_or_none
valid_network body =
    has_length 1 128 body.name
    && has_length 0 64 body.address_cidr
    && has_length 1 255 body.endpoint
    && is_between 1 65535 body.listen_port
    && has_length_or_none 0 255 body.dns

unfoldable pub valid_peer : VpnPeerCreate → Bool
unfolding has_length has_length_or_none
valid_peer body =
    has_length 1 128 body.name
    && has_length 0 64 body.address
    && has_length_or_none 0 44 body.public_key
    && has_length_or_none 0 1024 body.allowed_ips
    && is_between 0 65535 body.persistent_keepalive

unfoldable pub valid_file_server : FileServerCreate → Bool
unfolding has_length
valid_file_server body =
    has_length 1 128 body.name
    && has_length 1 255 body.host
    && is_between 1 100 (length body.shares)

unfoldable pub valid_profile : DeploymentProfileCreate → Bool
unfolding has_length
valid_profile body =
    has_length 1 128 body.name
    && has_length 1 1024 body.allowed_ips
    && is_between 1 100 (length body.file_server_ids)
    && is_between 1 1000 (length body.target_subjects)
