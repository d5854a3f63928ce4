-- ===== src/Lib.antt =====
-- Project G-One: the control plane of src/g_one. Principals of many tenants manage devices, remote
-- support, accounts, API tokens, file servers, client deployments and a WireGuard VPN over HTTP;
-- each request runs one handler of src/g_one/api.py with a database session of its own.
--
-- Models, Models/Tables, Models/Constraints: the tables of src/g_one/models.py as records, the
--   database as a list of rows for each table, primary keys and unique constraints.
-- Session: a handler as a function on the session's state, with its queries, writes, `commit` and
--   `rollback`; what is not committed is lost when the handler ends. Session/Keeps, Session/Frame,
--   Session/From and Session/Isolation hold the rules for what a handler keeps.
-- Outside, Settings: what a request reads from outside, and the settings of src/g_one/config.py;
--   Settings/Environment is its `from_environment`.
-- Auth, Auth/Json, Auth/Token: the principal, `require_role`, `decode_token` and `encode_token` of
--   src/g_one/auth.py, Auth/Bearer its `current_principal`; Auth/Soundness is about the tokens that
--   are accepted.
-- Passwords: src/g_one/passwords.py; Passwords/Roundtrip is about a hash and its password.
-- Wireguard/Curve, Routes, Config: src/g_one/wireguard.py: X25519, client routes and addresses, and
--   the texts of the configurations. Wireguard/Ladder and Power are about X25519,
--   Wireguard/Addresses about the addresses of peers, Wireguard/Enabled about revoked peers.
-- Text: the operations on texts that the program uses, among them `strip`, `splitlines` and
--   `split`.
-- Api: the handlers of src/g_one/api.py under their names, one file for each group: Audit, Devices,
--   Support, Roles, Users, Tokens, Files, Deployments, Sessions, Vpn, Client. Api/Selects has rules
--   for their queries, Api/Validation is about the roles. Api/Download is the bundle of a
--   deployment, Api/Download/Bundle what is packed into it, Api/Bodies what src/g_one/schemas.py
--   accepts as the bodies of requests, and Api/Replies what it lets out of rows; Api/Queries is the
--   routes that only read, with Api/Visible and Api/Confidential on what they tell.
-- Requests: the routes that a signed-in principal calls as a type, their dispatch, one request and
--   a list of requests in turn. Isolation and Trail hold the lemmas on each handler that
--   Requests/Isolation and Requests/Trail put together; Requests/Access, Setup, Decision, Answer,
--   SignIn and Deletion are about roles, the first administrator, remote support, signing in and
--   deleting accounts. Requests/Progress is the state machine of a request for support. Consistency
--   and Requests/Consistency hold the rules for a relation that every write keeps, for that machine.
-- Migrations: src/g_one/alembic/versions. Migrations/Tables is what SQLAlchemy declares a table by,
--   Migrations/Alembic the operations and queries of a migration, which is a script of them;
--   Running runs a script on a database, and on what the inspector sees of it. Foundation, Vpn,
--   Accounts, Policy, Bootstrap, Distribution and Delivery are the revisions 0001 to 0007, Versions
--   their order, in which Alembic runs those that are pending and keeps the table alembic_version.
--   Metadata is the tables of src/g_one/models.py, Compare what it is to match one. Schema is the
--   databases that an upgrade begins with, Outcome what becomes of one; Roundtrip and Takeover are
--   about any database under Alembic, and about its first administrator.
-- Startup: `restore_wireguard` of src/g_one/main.py.
-- Scripts: the scripts that set up and run a server. Scripts/Machine is what they do to the machine
--   and what it answers, Scripts/Words the texts. Scripts/EnvFile and Configure are
--   scripts/configure_server.py, Ensure scripts/ensure_compose_env.py, Database
--   scripts/sync_database_credentials.py, Sockets and HostPort scripts/host_port.py, Docker
--   scripts/docker_access.py, Manage scripts/manage_server.py and Setup scripts/setup_server.py.
-- Tests: samples, and the theorems applied to them.
--
-- Numbers: times are counts of microseconds, and of milliseconds in the scripts. The numbers of
-- JSON with a fraction are given in microseconds too. The program's integers have no width, so no
-- result wraps. `pow_mod` is the function `pow(x, n, p)` of Python; its fuel is 255, one for each
-- bit of the exponent 2 ^ 255 - 21. The loop of `wait_until_ready` runs on fuel 46: it has 90
-- seconds, and a round whose request fails pauses for two of them. A reply other than 200 pauses
-- for nothing, so where a server gives more of them than the fuel, the loop has no result here, and
-- the program goes on until its deadline; `exit_when_ready` takes this for a server that is not
-- ready. `decimal` runs on fuel n + 1, which is at least the number of the digits of n.
--
-- Parameters: the database under Alembic, whose operations take effect as the documentation of
-- MariaDB and Alembic says, where no limit of size, right of the user or ill-formed default is in
-- the way. The clock, random values, hash functions, base64, JSON, `ipaddress`, Unicode case, the
-- collation of the database and the success of `wg-quick` are fields of `Outside` and `Codec`,
-- since their code is not in this repository. What processes, sockets, the clock and Docker answer
-- to the scripts are fields of `Machine`, each a function of what was done before.
--
-- Simplifications: `commit` does not fail. Queries compare texts by their characters, while a
-- collation of MariaDB may take two texts with different characters for the same; the collation of
-- `Outside` is that of ORDER BY. A column's default for the time is read when its row is built. The
-- detail of the answer 503 leaves out the text of the exception. The requests of one server run one
-- after the other. The scripts print nothing, and the file of settings, which they write through a
-- temporary file, is written in one step that does not fail. `int` reads the digits of ASCII alone.
--
-- Not modelled: the packing of the zip file of `download_client_deployment`; the choice of fields
-- in the replies of routes that write; the set-up of the application in src/g_one/main.py,
-- src/g_one/db.py and src/g_one/migrations.py; the reading of the JSON of Docker in
-- scripts/host_port.py; the web console and the Windows client.
pub mod Prelude
pub mod Text
pub mod Models
pub mod Outside
pub mod Settings
pub mod Session
pub mod Wireguard
pub mod Passwords
pub mod Auth
pub mod Api
pub mod Isolation
pub mod Trail
pub mod Consistency
pub mod Migrations
pub mod Startup
pub mod Requests
pub mod Scripts
pub mod Tests
