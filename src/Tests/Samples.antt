-- ===== src/Tests/Samples.antt =====
-- A server with two tenants, and a world outside in which every reading is fixed.
use project_g_one.Prelude.{
  ℕ, ◌+◌, String, true, false, Option, none, some, List, [], ◌∷◌, ◌==◌, if◌then◌else◌, nat_eq,
}
use project_g_one.Outside.{Outside}
use project_g_one.Settings.{Settings}
use project_g_one.Models.{Device, SupportRequest, WorkspaceUser, VpnNetwork, VpnPeer}
use project_g_one.Models.Tables.{Kind, Database, empty_database, put_table}
use project_g_one.Auth.{Principal}
use project_g_one.Auth.Json.{Json, object, field, end, string, integer, array, nil}
use project_g_one.Auth.Token.{Codec, header_json}
use project_g_one.Api.Sessions.{AdministratorSetup}
use project_g_one.Requests.{Call, Request}

-- The 32 bytes of a key.
abbrev sample_key : List ℕ
sample_key =
    9 ∷ 9 ∷ 9 ∷ 9 ∷ 9 ∷ 9 ∷ 9 ∷ 9 ∷ 9 ∷ 9 ∷ 9 ∷ 9 ∷ 9 ∷ 9 ∷ 9 ∷ 9 ∷ 9 ∷ 9 ∷ 9 ∷ 9 ∷ 9 ∷ 9 ∷ 9 ∷ 9
    ∷ 9 ∷ 9 ∷ 9 ∷ 9 ∷ 9 ∷ 9 ∷ 9 ∷ 9 ∷ []

abbrev pub sample_outside : Outside
sample_outside = record {
  clock = λ n. 1000000 + n;
  uuid4 = λ n. "0a1b";
  token_urlsafe = λ n. "secret";
  urandom = λ n. 5 ∷ [];
  token_bytes = λ n. 3 ∷ 4 ∷ [];
  sha256_hex = λ t. t;
  lower = λ t. t;
  wg_quick = λ n. true;
  is_file = λ n. true;
  b64decode = λ t. if t == "key" then some sample_key else none;
  b64encode = λ bs. "";
  ip_interface = λ t.
      if t == "10.0.0.1/24"
      then some (record { version = 4; ip = 167772161; prefix_length = 24 })
      else if t == "10.0.0.2"
      then some (record { version = 4; ip = 167772162; prefix_length = 32 })
      else none;
  interface_error = λ t. "not an interface";
  str_interface = λ i. "";
  ip_network = λ t. none;
  str_network = λ i. "";
  compare_digest = λ a b. some false;
  name_before = λ a b. true;
  pbkdf2_hmac = λ password salt rounds. 5 ∷ [];
  urlsafe_b64encode = λ bs. "";
  urlsafe_b64decode = λ t. some (5 ∷ []);
  positive_int = λ t. some 600_000;
}

abbrev pub sample_settings : Settings
sample_settings = record {
  database_url = "sqlite://";
  jwt_secret = "secret";
  jwt_issuer = "g-one";
  jwt_audience = "g-one-api";
  console_password = "pass";
  environment = "test";
  wireguard_private_key = "";
  wireguard_interface = "wg0";
  wireguard_config_path = "/etc/wireguard/wg0.conf";
  wireguard_apply = false;
  windows_client_artifact = "client.exe";
}

abbrev pub sample_admin : Principal
sample_admin = record { subject = "ann"; tenant_id = "acme"; roles = "tenant_admin" ∷ [] }

abbrev pub sample_device : String → String → Device
sample_device id tenant = record {
  id = id;
  tenant_id = tenant;
  owner_id = "ann";
  name = "laptop";
  platform = "windows";
  status = "active";
  created_at = 1;
  revoked_at = none;
}

-- One device of each of two tenants.
abbrev pub sample_database : Database
sample_database =
    put_table Kind.devices (sample_device "d1" "acme" ∷ sample_device "d2" "globex" ∷ [])
      empty_database

abbrev pub sample_request : Request
sample_request = record {
  outside = sample_outside;
  principal = sample_admin;
  call = Call.revoke_device "d1";
}

abbrev pub sample_member : Principal
sample_member = record { subject = "bob"; tenant_id = "acme"; roles = "member" ∷ [] }

-- A request that the member may not make.
abbrev pub sample_refused : Request
sample_refused = record {
  outside = sample_outside;
  principal = sample_member;
  call = Call.delete_user "u1";
}

-- A request for support on the device d1.
abbrev pub sample_support : SupportRequest
sample_support = record {
  id = "s1";
  tenant_id = "acme";
  requester_id = "bob";
  target_device_id = "d1";
  purpose = "repair";
  permissions = "screen_view" ∷ [];
  state = "pending";
  created_at = 1;
  expires_at = 2000000;
  decided_at = none;
  ended_at = none;
}

abbrev pub sample_pending : Database
sample_pending = put_table Kind.support_requests (sample_support ∷ []) sample_database

-- The owner of the device accepts the request.
abbrev pub sample_decision : Request
sample_decision = record {
  outside = sample_outside;
  principal = sample_admin;
  call = Call.decide_support_request "s1" true;
}

-- A server on which no administrator has been set up.
abbrev pub sample_new : Database
sample_new = record empty_database { initialized = some false }

abbrev pub sample_setup : AdministratorSetup
sample_setup = record {
  subject = "ann";
  tenant_id = "acme";
  password = "password";
  display_name = "Ann";
}

-- Three encoded parts, each of one byte, and their readings.
abbrev decoded_part : String → Option (List ℕ)
decoded_part part =
    if part == "a==="
    then some (1 ∷ [])
    else if part == "b==="
    then some (2 ∷ [])
    else if part == "c==="
    then some (3 ∷ [])
    else none

abbrev sample_payload : Json
sample_payload = object (
    field "sub" (string "ann") (
      field "tenant_id" (string "acme") (
        field "roles" (array nil) (
          field "exp" (integer 5)
            (field "iss" (string "g-one") (field "aud" (string "g-one-api") end))))))

abbrev loaded : List ℕ → Option Json
loaded (b ∷ []) =
    if nat_eq b 1 then some header_json else if nat_eq b 2 then some sample_payload else none
loaded _ = none

abbrev pub sample_codec : Codec
sample_codec = record {
  json_dumps = λ j. [];
  json_loads = loaded;
  b64encode = λ bs. "";
  b64decode = decoded_part;
  hmac_sha256 = λ key message. 3 ∷ [];
}

-- The request for support after its owner accepted it.
abbrev pub sample_accepted : SupportRequest
sample_accepted = record sample_support { state = "accepted"; decided_at = some 1000001 }

abbrev pub sample_session : Database
sample_session = put_table Kind.support_requests (sample_accepted ∷ []) sample_database

abbrev pub sample_user : WorkspaceUser
sample_user = record {
  id = "u1";
  tenant_id = "acme";
  subject = "bob";
  display_name = "Bob";
  email = none;
  password_hash = some "pbkdf2_sha256$1$s$d";
  roles = "member" ∷ [];
  vpn_address = none;
  allowed_ips = "";
  policy_version = 1;
  status = "active";
  created_at = 1;
  updated_at = 1;
}

abbrev pub sample_accounts : Database
sample_accounts = put_table Kind.users (sample_user ∷ []) empty_database

abbrev pub sample_network : VpnNetwork
sample_network = record {
  id = "n1";
  tenant_id = "acme";
  name = "office";
  address_cidr = "10.0.0.1/24";
  endpoint = "vpn.acme.example";
  listen_port = 51820;
  dns = none;
  enabled = true;
  created_at = 1;
  updated_at = 1;
}

-- A peer that was revoked.
abbrev pub sample_peer : VpnPeer
sample_peer = record {
  id = "p1";
  tenant_id = "acme";
  network_id = "n1";
  name = "laptop";
  public_key = "key";
  address = "10.0.0.2";
  allowed_ips = "10.0.0.0/24";
  persistent_keepalive = 25;
  enabled = false;
  created_at = 1;
  revoked_at = some 2;
}

-- The variables of a server that is not for development.
abbrev pub sample_variables : String → Option String
sample_variables name =
    if name == "G_ONE_ENVIRONMENT"
    then some "production"
    else if name == "G_ONE_JWT_SECRET"
    then some "0123456789abcdef0123456789abcdef"
    else if name == "G_ONE_CONSOLE_PASSWORD"
    then some "0123456789abcdef"
    else if name == "G_ONE_WIREGUARD_PRIVATE_KEY"
    then some "key"
    else none
