-- ===== src/Scripts/Setup.antt =====
-- Setting a server up: scripts/setup_server.py. What the process prints is left out.
use mathlib.Core.List.{◌++◌ as ◌+++◌}
use project_g_one.Prelude.{String, Bool, List, [], ◌∷◌, none, if◌then◌else◌}
use project_g_one.Scripts.Ensure.{Secrets}
use project_g_one.Scripts.Machine.{Machine, Script, pure, ◌>>=◌, ◌>>◌, checked}
use project_g_one.Scripts.Docker.{docker_prefix, ensure_project_writable, or_fail}
use project_g_one.Scripts.Manage.{ensure_environment}

-- `sys.executable` and the arguments of a script.
abbrev manage_args : String → String → List String
manage_args executable command = executable ∷ "scripts/manage_server.py" ∷ command ∷ []

module _ (m : Machine) where
  -- `main`, with `--no-start` and `--skip-pull`.
  unfoldable pub set_up : Secrets → String → Bool → Bool → Script (Unit {0})
  unfolding docker_prefix ensure_project_writable ensure_environment or_fail checked
  set_up secrets executable no_start skip_pull = do
    docker ← or_fail (ensure_project_writable m >> docker_prefix m)
    ensure_environment secrets
    checked m (docker +++ ("compose" ∷ "config" ∷ "--quiet" ∷ [])) none
    if skip_pull
        then pure tt
        else checked m (docker +++ ("compose" ∷ "pull" ∷ "database" ∷ [])) none
    checked m (docker +++ ("compose" ∷ "build" ∷ "web" ∷ [])) none
    if no_start
        then pure tt
        else (checked m (manage_args executable "start") none
            >> checked m (manage_args executable "doctor") none)
