-- ===== src/Models/Tables.antt =====
-- The database as a table of rows for each model class of src/g_one/models.py, and the one row of
-- `installation_state` that the program reads.
use project_g_one.Prelude.{String, Bool, Option, none, List, []}
use project_g_one.Models.{
  Device, SupportRequest, AuditEvent, WorkspaceUser, ApiToken, VpnNetwork, VpnPeer, FileServer,
  ClientDeploymentProfile, ClientEnrollmentCode,
}

-- The tables with a tenant.
pub data Kind : Type 0 where
  devices support_requests audit_events users api_tokens networks peers file_servers : Kind
  profiles enrollment_codes : Kind

abbrev pub RowOf : Kind → Type 0
RowOf Kind.devices = Device
RowOf Kind.support_requests = SupportRequest
RowOf Kind.audit_events = AuditEvent
RowOf Kind.users = WorkspaceUser
RowOf Kind.api_tokens = ApiToken
RowOf Kind.networks = VpnNetwork
RowOf Kind.peers = VpnPeer
RowOf Kind.file_servers = FileServer
RowOf Kind.profiles = ClientDeploymentProfile
RowOf Kind.enrollment_codes = ClientEnrollmentCode

abbrev pub tenant_of : (k : Kind) → RowOf k → String
tenant_of Kind.devices r = r.tenant_id
tenant_of Kind.support_requests r = r.tenant_id
tenant_of Kind.audit_events r = r.tenant_id
tenant_of Kind.users r = r.tenant_id
tenant_of Kind.api_tokens r = r.tenant_id
tenant_of Kind.networks r = r.tenant_id
tenant_of Kind.peers r = r.tenant_id
tenant_of Kind.file_servers r = r.tenant_id
tenant_of Kind.profiles r = r.tenant_id
tenant_of Kind.enrollment_codes r = r.tenant_id

abbrev pub id_of : (k : Kind) → RowOf k → String
id_of Kind.devices r = r.id
id_of Kind.support_requests r = r.id
id_of Kind.audit_events r = r.id
id_of Kind.users r = r.id
id_of Kind.api_tokens r = r.id
id_of Kind.networks r = r.id
id_of Kind.peers r = r.id
id_of Kind.file_servers r = r.id
id_of Kind.profiles r = r.id
id_of Kind.enrollment_codes r = r.id

-- `initialized` is the column of the row with id 1 of `installation_state`, if there is such a row.
pub record Database : Type 0 where
  pub rows : (k : Kind) → List (RowOf k)
  pub initialized : Option Bool

abbrev pub empty_database : Database
empty_database = record { rows = λ k. []; initialized = none }

-- One table given anew.
unfoldable pub with_table :
    (k : Kind) → List (RowOf k) → ((j : Kind) → List (RowOf j)) → (j : Kind) → List (RowOf j)
with_table Kind.devices rs t Kind.devices = rs
with_table Kind.devices rs t j = t j
with_table Kind.support_requests rs t Kind.support_requests = rs
with_table Kind.support_requests rs t j = t j
with_table Kind.audit_events rs t Kind.audit_events = rs
with_table Kind.audit_events rs t j = t j
with_table Kind.users rs t Kind.users = rs
with_table Kind.users rs t j = t j
with_table Kind.api_tokens rs t Kind.api_tokens = rs
with_table Kind.api_tokens rs t j = t j
with_table Kind.networks rs t Kind.networks = rs
with_table Kind.networks rs t j = t j
with_table Kind.peers rs t Kind.peers = rs
with_table Kind.peers rs t j = t j
with_table Kind.file_servers rs t Kind.file_servers = rs
with_table Kind.file_servers rs t j = t j
with_table Kind.profiles rs t Kind.profiles = rs
with_table Kind.profiles rs t j = t j
with_table Kind.enrollment_codes rs t Kind.enrollment_codes = rs
with_table Kind.enrollment_codes rs t j = t j

-- What holds of every table holds after one was given anew, if it holds of that one.
pub Each-with_table {ℓ} :
    (Q : (j : Kind) → List (RowOf j) → Type ℓ) (k : Kind) (rs : List (RowOf k))
    (t : (j : Kind) → List (RowOf j))
    → Q k rs
    → ((j : Kind) → Q j (t j))
    → (j : Kind) → Q j (with_table k rs t j)
unfolding with_table
Each-with_table Q Kind.devices rs t new old Kind.devices = new
Each-with_table Q Kind.devices rs t new old j = old j
Each-with_table Q Kind.support_requests rs t new old Kind.support_requests = new
Each-with_table Q Kind.support_requests rs t new old j = old j
Each-with_table Q Kind.audit_events rs t new old Kind.audit_events = new
Each-with_table Q Kind.audit_events rs t new old j = old j
Each-with_table Q Kind.users rs t new old Kind.users = new
Each-with_table Q Kind.users rs t new old j = old j
Each-with_table Q Kind.api_tokens rs t new old Kind.api_tokens = new
Each-with_table Q Kind.api_tokens rs t new old j = old j
Each-with_table Q Kind.networks rs t new old Kind.networks = new
Each-with_table Q Kind.networks rs t new old j = old j
Each-with_table Q Kind.peers rs t new old Kind.peers = new
Each-with_table Q Kind.peers rs t new old j = old j
Each-with_table Q Kind.file_servers rs t new old Kind.file_servers = new
Each-with_table Q Kind.file_servers rs t new old j = old j
Each-with_table Q Kind.profiles rs t new old Kind.profiles = new
Each-with_table Q Kind.profiles rs t new old j = old j
Each-with_table Q Kind.enrollment_codes rs t new old Kind.enrollment_codes = new
Each-with_table Q Kind.enrollment_codes rs t new old j = old j

abbrev pub put_table : (k : Kind) → List (RowOf k) → Database → Database
put_table k rs db = record db { rows = with_table k rs db.rows }
