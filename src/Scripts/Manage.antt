-- ===== src/Scripts/Manage.antt =====
-- Running a server: scripts/manage_server.py. What the process prints is left out, and its exit status is
-- the result.
pub mod Ready
use Prim.Native.String.{◌++◌}
use mathlib.Core.List.{◌++◌ as ◌+++◌}
use project_g_one.Prelude.{
  ℕ, zero, suc, ◌+◌, String, Bool, true, false, not, ◌&&◌, List, [], ◌∷◌, Option, none, some,
  nat_eq, ltb, leb, if◌then◌else◌,
}
use project_g_one.Scripts.Words.{int_of}
use project_g_one.Scripts.EnvFile.{Values, get_value, read_environment}
use project_g_one.Scripts.Ensure.{Secrets, additions, completed}
use project_g_one.Scripts.Machine.{
  fetch, Machine, value_error, system_exit, returned, Host, Script, pure, raise, raise_if, ◌>>=◌,
  ◌>>◌, act, checked, succeeds, pause,
}
use project_g_one.Scripts.Docker.{docker_prefix, ensure_project_writable, or_fail}
use project_g_one.Scripts.HostPort.{ensure_host_port}

pub data Command : Type 0 where
  start stop restart status update doctor : Command
  -- With `--follow`
  logs : Bool → Command

abbrev pub ready_url : String → String
ready_url port = "http://127.0.0.1:" ++ (port ++ "/readyz")

abbrev pub text_of : Option String → String
text_of none = ""
text_of (some text) = text

abbrev pub or_value : String → Option String → String
or_value d none = d
or_value d (some v) = v

-- `int(port)`; a number that is no port is refused by the first probe.
abbrev pub port_number : Option (Bool × ℕ) → Script ℕ
port_number (some (false, n)) = if leb n 65535 then pure n else raise value_error
port_number _ = raise value_error

-- `ensure_environment(path)`, which says how much it added.
unfoldable pub ensure_environment : Secrets → Script (List String)
unfolding additions
ensure_environment secrets h =
    let lines = additions secrets (text_of h.env) in
    (returned lines, record h { env = some (completed (text_of h.env) lines) })

abbrev pub is_ok : Option ℕ → Bool
is_ok none = false
is_ok (some code) = nat_eq code 200

-- One round of the loop behind its probe: a failure pauses, another reply does not.
abbrev pub after_reply : Script (Option Bool) → Option ℕ → Script (Option Bool)
after_reply again none = pause 2000 >> again
after_reply again (some code) = if nat_eq code 200 then pure (some true) else again

abbrev pub exit_status : Option Bool → ℕ
exit_status (some true) = 0
exit_status _ = 1

module _ (m : Machine) where
  -- The status of the reply, and none where `urlopen` raises.
  unfoldable pub urlopen : String → Script (Option ℕ)
  unfolding act
  urlopen url h = let h' = act (fetch url) h in (returned (m.reply h'.done), h')

  -- The loop of `wait_until_ready`; there is no result where the fuel ends.
  unfoldable pub wait_loop : String → ℕ → ℕ → Script (Option Bool)
  unfolding urlopen
  wait_loop url deadline zero h = (returned none, h)
  wait_loop url deadline (suc fuel) h =
      (if ltb (m.monotonic h.done) deadline
          then (urlopen url >>= after_reply (wait_loop url deadline fuel))
          else pure (some false))
        h

  -- Its default of 90 seconds, in milliseconds.
  unfoldable pub wait_until_ready : String → Script (Option Bool)
  unfolding wait_loop
  wait_until_ready port h = wait_loop (ready_url port) (m.monotonic h.done + 90000) 46 h

  unfoldable pub check_http_endpoint : String → Script Bool
  unfolding urlopen
  check_http_endpoint url = do reply ← urlopen url; pure (is_ok reply)

  -- `all(check_http_endpoint(...) for path in endpoints)`
  unfoldable pub check_all : String → List String → Script Bool
  unfolding check_http_endpoint
  check_all port [] = pure true
  check_all port (path ∷ paths) = do
    healthy ← check_http_endpoint ("http://127.0.0.1:" ++ (port ++ ("/" ++ path)))
    if healthy then check_all port paths else pure false

  module _ (docker : List String) where
    unfoldable pub compose : List String → Script (Unit {0})
    unfolding checked
    compose arguments = checked m (docker +++ ("compose" ∷ arguments)) none

    unfoldable pub run_doctor : String → Script Bool
    unfolding check_all succeeds
    run_doctor port = do
      listed ← succeeds m (docker +++ ("compose" ∷ "ps" ∷ [])) none
      if listed then check_all port ("healthz" ∷ "readyz" ∷ "assets/app.js" ∷ []) else pure false

    -- `raise SystemExit(0 if wait_until_ready(port) else 1)`
    unfoldable pub exit_when_ready : String → Script ℕ
    unfolding wait_until_ready
    exit_when_ready port = do ready ← wait_until_ready port; pure (exit_status ready)

    unfoldable pub start_server : String → String → String → Script ℕ
    unfolding ensure_host_port compose exit_when_ready or_fail
    start_server root bind port = do
      or_fail
          (do number ← port_number (int_of port); ensure_host_port m root docker bind number true)
      compose ("up" ∷ "-d" ∷ "--build" ∷ "--remove-orphans" ∷ [])
      exit_when_ready port

    -- What follows the reading of the settings.
    unfoldable pub run_command : String → String → String → Command → Script ℕ
    unfolding start_server run_doctor
    run_command root bind port start = start_server root bind port
    run_command root bind port stop = compose ("down" ∷ []) >> pure 0
    run_command root bind port restart = compose ("restart" ∷ []) >> exit_when_ready port
    run_command root bind port status = compose ("ps" ∷ []) >> pure 0
    run_command root bind port (logs follow) =
        compose ("logs" ∷ "--tail" ∷ "200" ∷ (if follow then "--follow" ∷ [] else [])) >> pure 0
    run_command root bind port update = compose ("pull" ∷ []) >> start_server root bind port
    run_command root bind port doctor = do
      healthy ← run_doctor port
      pure (if healthy then 0 else 1)

  -- `main`, given what `secrets` gives.
  unfoldable pub manage : Secrets → String → Command → Script ℕ
  unfolding run_command docker_prefix ensure_project_writable ensure_environment read_environment
      get_value or_fail
  manage secrets root command h =
      (do
        raise_if (no_file h.env) (system_exit 2)
        docker ← or_fail (ensure_project_writable m >> docker_prefix m)
        ensure_environment secrets
        values ← λ h'. (returned (read_environment h'.env), h')
        run_command docker root (or_value "0.0.0.0" (get_value "G_ONE_HTTP_BIND" values))
            (or_value "8000" (get_value "G_ONE_HTTP_PORT" values)) command)
        h
    where
      no_file : Option String → Bool
      no_file none = true
      no_file (some text) = false
