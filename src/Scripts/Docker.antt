-- ===== src/Scripts/Docker.antt =====
-- Access to Docker: scripts/docker_access.py.
use project_g_one.Prelude.{
  String, Bool, not, ◌&&◌, List, [], ◌∷◌, Option, none, some, if◌then◌else◌,
}
use project_g_one.Scripts.Machine.{
  Machine, runtime_error, system_exit, Outcome, raised, Script, pure, raise, raise_if, ◌>>=◌, ◌>>◌,
  succeeds,
}

abbrev denied : String
denied =
    "Docker permission denied. Run this once, sign out and back in, then retry:\n  sudo usermod -aG docker \"$USER\""

abbrev not_writable : String
not_writable = "Project files are not writable by the current user."

module _ (m : Machine) where
  elevated_prefix : Script (List String)
  unfolding succeeds
  elevated_prefix =
      if not m.is_windows && m.which "sudo"
      then (do
        elevated ← succeeds m ("sudo" ∷ "docker" ∷ "info" ∷ []) none
        if elevated then pure ("sudo" ∷ "docker" ∷ []) else raise (runtime_error denied))
      else raise (runtime_error denied)

  unfoldable pub docker_prefix : Script (List String)
  unfolding succeeds elevated_prefix
  docker_prefix = do
    raise_if (not (m.which "docker"))
        (runtime_error "Docker is not installed or is not available in PATH.")
    direct ← succeeds m ("docker" ∷ "info" ∷ []) none
    if direct then pure ("docker" ∷ []) else elevated_prefix

  -- The message goes on with the command that repairs it.
  unfoldable pub ensure_project_writable : Script (Unit {0})
  ensure_project_writable h = raise_if (not (target h.env)) (runtime_error not_writable) h
    where
      target : Option String → Bool
      target none = m.root_writable
      target (some text) = m.env_writable

-- `except RuntimeError as error: fail(str(error))`
abbrev pub failed {ℓ} : {A : Type ℓ} → Outcome A → Outcome A
failed (raised (runtime_error message)) = raised (system_exit 2)
failed r = r

unfoldable pub or_fail {ℓ} : {A : Type ℓ} → Script A → Script A
or_fail s h = let (r, h') = s h in (failed r, h')
