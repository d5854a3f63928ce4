-- ===== src/Scripts/Machine.antt =====
-- What the scripts do to the machine they run on: processes, sockets, signals, pauses and the file of
-- settings. A script is a function of what was done before, and it may raise.
pub mod Ensures
use project_g_one.Prelude.{
  ◌≡◌, ℕ, String, Bool, true, false, not, ◌&&◌, List, [], ◌∷◌, ◌==◌, Option, none, some, nat_eq,
  if◌then◌else◌,
}

pub data Action : Type 0 where
  -- A process, with its arguments and its input.
  run : List String → Option String → Action
  -- A connection to an address and a port.
  connect : String → ℕ → Action
  -- SIGTERM
  terminate : ℕ → Action
  -- A pause in milliseconds.
  sleep : ℕ → Action
  fetch : String → Action

-- What `docker inspect` says of a container.
pub record Inspection : Type 0 where
  pub image : String
  pub service : Option String
  pub working_directory : Option String

-- A process as /proc shows it: the targets of the links in its `fd`, its command and its directory.
pub record Process : Type 0 where
  pub process_id : ℕ
  pub links : List String
  pub command : String
  pub directory : String

-- What the machine answers, each given what was done, the action in question first.
pub record Machine : Type 0 where
  pub returncode : List Action → ℕ
  pub stdout : List Action → String
  pub inspection : List Action → Inspection
  pub connected : List Action → Bool
  -- The status of a reply, if one comes.
  pub reply : List Action → Option ℕ
  pub monotonic : List Action → ℕ
  -- The texts of those of /proc/net/tcp and /proc/net/tcp6 that are there, and the processes of /proc
  -- that can be read.
  pub tables : List Action → List String
  pub processes : List Action → List Process
  -- `shutil.which(name)` is not None
  pub which : String → Bool
  pub is_windows : Bool
  -- `os.access(path, os.W_OK)` of the file of settings, and of the project's directory.
  pub env_writable : Bool
  pub root_writable : Bool

pub data Failure : Type 0 where
  called_process_error : List String → Failure
  runtime_error : String → Failure
  value_error : Failure
  system_exit : ℕ → Failure
  os_error : Failure
  index_error : Failure

pub data Outcome {ℓ} (A : Type ℓ) : Type ℓ where
  returned : A → Outcome A
  raised : Failure → Outcome A

-- The text of the settings, if the file is there, and what was done, the last action first.
pub record Host : Type 0 where
  pub env : Option String
  pub done : List Action

abbrev pub Script {ℓ} : Type ℓ → Type ℓ
Script A = Host → Outcome A × Host

module _ {ℓ} {A : Type ℓ} where
  unfoldable pub pure : A → Script A
  pure a h = (returned a, h)

  unfoldable pub raise : Failure → Script A
  raise e h = (raised e, h)

module _ {ℓ κ} {A : Type ℓ} {B : Type κ} where
  abbrev pub continue : Outcome A → (A → Script B) → Host → Outcome B × Host
  continue (returned a) f h = f a h
  continue (raised e) f h = (raised e, h)

  infixl 5 ◌>>=◌ ◌>>◌
  unfoldable pub ◌>>=◌ : Script A → (A → Script B) → Script B
  ◌>>=◌ m f h = let (r, h') = m h in continue r f h'

  abbrev pub ◌>>◌ : Script A → Script B → Script B
  m >> n = m >>= λ _. n

-- `try: m  finally: n`, where `n` does not raise.
unfoldable pub finally {ℓ} : {A : Type ℓ} → Script A → Script (Unit {0}) → Script A
finally m n h = let (r, h') = m h in let (_, h'') = n h' in (r, h'')

unfoldable pub act : Action → Host → Host
act a h = record h { done = a ∷ h.done }

unfoldable pub raise_if : Bool → Failure → Script (Unit {0})
raise_if b e h = (if b then raised e else returned tt, h)

module _ (m : Machine) where
  -- `subprocess.run(args, input=text, check=False).returncode == 0`
  unfoldable pub succeeds : List String → Option String → Script Bool
  unfolding act
  succeeds args text h =
      let h' = act (run args text) h in (returned (nat_eq (m.returncode h'.done) 0), h')

  -- `subprocess.run(args, input=text, check=True)`
  unfoldable pub checked : List String → Option String → Script (Unit {0})
  unfolding act
  checked args text h =
      let h' = act (run args text) h in
      (
        if nat_eq (m.returncode h'.done) 0 then returned tt else raised (called_process_error args),
        h',
      )

  -- `os.kill(process_id, 15)`
  unfoldable pub kill : ℕ → Script (Unit {0})
  unfolding act
  kill process_id h =
      let h' = act (terminate process_id) h in
      (if nat_eq (m.returncode h'.done) 0 then returned tt else raised os_error, h')

  -- `subprocess.run(args, check=True, capture_output=True).stdout`
  unfoldable pub output : List String → Script String
  unfolding act
  output args h =
      let h' = act (run args none) h in
      (
        if nat_eq (m.returncode h'.done) 0
            then returned (m.stdout h'.done)
            else raised (called_process_error args),
        h',
      )

-- `subprocess.run(args, check=False)`
unfoldable pub unchecked : List String → Script (Unit {0})
unfolding act
unchecked args h = (returned tt, act (run args none) h)

-- `time.sleep`
unfoldable pub pause : ℕ → Script (Unit {0})
unfolding act
pause ms h = (returned tt, act (sleep ms) h)

abbrev pub same_args : List String → List String → Bool
same_args [] [] = true
same_args (s ∷ ss) (t ∷ ts) = (s == t) && same_args ss ts
same_args _ _ = false

-- A run of these arguments, whatever its input.
abbrev pub is_run : List String → Action → Bool
is_run args (run given text) = same_args given args
is_run args _ = false
