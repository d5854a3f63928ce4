-- ===== src/Scripts/HostPort.antt =====
-- The port that the web container publishes: scripts/host_port.py.
pub mod Free
use project_g_one.Scripts.Sockets.{listener_inodes, legacy_owners}
use Prim.Native.String.{◌++◌}
use mathlib.Core.List.{◌++◌ as ◌+++◌}
use project_g_one.Prelude.{
  ℕ, zero, suc, ◌+◌, String, Bool, true, false, not, ◌&&◌, ◌||◌, List, [], ◌∷◌, map, ◌==◌, Option,
  none, some, nat_eq, if◌then◌else◌, length, where_true,
}
use project_g_one.Text.Lines.{join}
use project_g_one.Scripts.Words.{split_words, ends_with, decimal}
use project_g_one.Scripts.Machine.{
  connect, Inspection, Process, Machine, runtime_error, returned, Host, Script, pure, raise, ◌>>=◌,
  ◌>>◌, act, checked, kill, output, pause, Outcome, raised, index_error,
}

abbrev pub text_is : String → Option String → Bool
text_is s none = false
text_is s (some t) = t == s

-- The last comparison of the program stands under `root is not None`.
abbrev pub is_in_directory : Option String → Option String → Bool
is_in_directory none directory = false
is_in_directory (some root) directory = text_is root directory

unfoldable pub is_web : Option String → Inspection → Bool
unfolding ends_with
is_web root details =
    text_is "web" details.service
    && ((details.image == "g-one-web")
        || (ends_with "/g-one-web" details.image || is_in_directory root details.working_directory))

abbrev pub probe_address : String → String
probe_address bind = if bind == "0.0.0.0" then "127.0.0.1" else bind

abbrev pub owners : List String → String
owners [] = "a host process"
owners (c ∷ cs) = join ", " (c ∷ cs)

unfoldable pub port_used : String → ℕ → List String → Script (Unit {0})
unfolding decimal join
port_used bind port containers = raise (
    runtime_error (
      "Host port "
      ++ (bind
          ++ (":"
              ++ (decimal port
                  ++ (" is already used by "
                      ++ (owners containers
                          ++ (". Stop that service or choose another port with: python3 scripts/configure_server.py set http-port "
                              ++ decimal (port + 1)))))))))

module _ (m : Machine) where
  unfoldable pub port_is_available : String → ℕ → Script Bool
  unfolding act
  port_is_available bind port h =
      let h' = act (connect (probe_address bind) port) h in
      (returned (not (m.connected h'.done)), h')

  unfoldable pub published_containers : List String → ℕ → Script (List String)
  unfolding output decimal split_words
  published_containers docker port = do
    stdout ←
        output m (docker +++ ("ps" ∷ "--quiet" ∷ "--filter" ∷ ("publish=" ++ decimal port) ∷ []))
    pure (split_words stdout)

  unfoldable pub is_g_one_web_container : List String → String → Option String → Script Bool
  unfolding checked is_web
  is_g_one_web_container docker container_id root = do
    checked m (docker +++ ("inspect" ∷ container_id ∷ [])) none
    λ h. (returned (is_web root (m.inspection h.done)), h)

  -- `[item for item in containers if is_g_one_web_container(docker, item, root)]`
  unfoldable pub stale_containers : List String → String → List String → Script (List String)
  unfolding is_g_one_web_container
  stale_containers docker root [] = pure []
  stale_containers docker root (item ∷ items) = do
    web ← is_g_one_web_container docker item (some root)
    rest ← stale_containers docker root items
    pure (if web then item ∷ rest else rest)

  -- A table with a line that has too few fields raises.
  abbrev pub or_index_error : Option (List String) → (List String → List ℕ) → Outcome (List ℕ)
  or_index_error none f = raised index_error
  or_index_error (some inodes) f = returned (f inodes)

  unfoldable pub legacy_g_one_processes : String → ℕ → Script (List ℕ)
  unfolding listener_inodes legacy_owners
  legacy_g_one_processes root port h = (
    or_index_error (listener_inodes port (m.tables h.done))
        (λ inodes. legacy_owners root inodes (m.processes h.done)),
    h,
  )

  unfoldable pub kill_all : List ℕ → Script (Unit {0})
  unfolding kill
  kill_all [] = pure tt
  kill_all (p ∷ ps) = kill m p >> kill_all ps

  -- The loop over twenty probes.
  unfoldable pub wait_until_free : ℕ → String → ℕ → Script Bool
  unfolding port_is_available
  wait_until_free zero bind port = pure false
  wait_until_free (suc n) bind port = do
    available ← port_is_available bind port
    if available then pure true else (pause 250 >> wait_until_free n bind port)

  unfoldable pub stop_processes : List ℕ → String → ℕ → Script Bool
  unfolding kill_all wait_until_free
  stop_processes [] bind port = pure false
  stop_processes (p ∷ ps) bind port = kill_all (p ∷ ps) >> wait_until_free 20 bind port

  unfoldable pub stop_legacy_processes : String → String → ℕ → Script Bool
  unfolding legacy_g_one_processes stop_processes
  stop_legacy_processes root bind port = do
    processes ← legacy_g_one_processes root port
    stop_processes processes bind port

  -- Removes the containers, if all that hold the port are stale, and says whether that freed it.
  unfoldable pub remove_stale :
      List String → List String → List String → Bool → String → ℕ → Script Bool
  unfolding checked port_is_available
  remove_stale docker containers [] replace_stale bind port = pure false
  remove_stale docker containers (s ∷ stale) replace_stale bind port =
      if replace_stale && nat_eq (length (s ∷ stale)) (length containers)
      then (checked m (docker +++ ("rm" ∷ "--force" ∷ s ∷ stale)) none
          >> port_is_available bind port)
      else pure false

  -- The containers hold the port, or it is a process of the host that does.
  unfoldable pub stop_if_host : List String → String → String → ℕ → Script Bool
  unfolding stop_legacy_processes
  stop_if_host [] root bind port = stop_legacy_processes root bind port
  stop_if_host (c ∷ cs) root bind port = pure false

  unfoldable pub free_host_port : String → List String → String → ℕ → Bool → Script (Unit {0})
  unfolding published_containers stale_containers remove_stale stop_if_host port_used
  free_host_port root docker bind port replace_stale = do
    containers ← published_containers docker port
    stale ← stale_containers docker root containers
    removed ← remove_stale docker containers stale replace_stale bind port
    if removed then pure tt else (do
      stopped ← stop_if_host containers root bind port
      if stopped then pure tt else port_used bind port containers)

  unfoldable pub ensure_host_port : String → List String → String → ℕ → Bool → Script (Unit {0})
  unfolding port_is_available free_host_port
  ensure_host_port root docker bind port replace_stale = do
    available ← port_is_available bind port
    if available then pure tt else free_host_port root docker bind port replace_stale
