-- ===== src/Scripts/Database/Recovery.antt =====
-- What recovering the credentials leaves behind: `recover_credentials` and `synchronize` of
-- scripts/sync_database_credentials.py.
use project_g_one.Prelude.{
  ◌≡◌, refl, ℕ, zero, suc, String, Bool, true, false, not, ◌&&◌, ◌||◌, List, [], ◌∷◌, Option, none,
  some, nat_eq, arith, if◌then◌else◌,
}
use project_g_one.Scripts.Machine.{
  Action, run, sleep, Machine, Script, Host, Outcome, returned, raised, pure, raise, ◌>>=◌, ◌>>◌,
  finally, act, succeeds, checked, unchecked, pause, is_run, continue,
}
use project_g_one.Scripts.Database.{
  start_args, remove_args, ping_args, stop_args, up_args, update_args, wait_for_ping, reset_offline,
  recover_credentials, update_or_recover, authenticate_and_update,
}

-- The recovery server, which asks for no password, is not there: a removal ended well after every run
-- that tried to start it.
abbrev pub is_cleaned : Machine → List Action → Bool
is_cleaned m [] = true
is_cleaned m (a ∷ done) =
    is_run remove_args a && nat_eq (m.returncode (a ∷ done)) 0
    || not (is_run start_args a) && is_cleaned m done

-- `docker rm -f` ends well.
abbrev pub Removes : Machine → Type 0
Removes m = (done : List Action) → m.returncode (run remove_args none ∷ done) ≡ 0

-- A test of what was done that holds again after a script.
unfoldable pub Keeps {ℓ} : {A : Type ℓ} → (List Action → Bool) → Script A → Type 0
Keeps test s = (h : Host) → test h.done ≡ true → test ((s h).1).done ≡ true

-- A test of what was done that every action keeps, except a start of the recovery server.
module _ (m : Machine) (test : List Action → Bool)
    (steps : (a : Action) (done : List Action)
      → is_run start_args a ≡ false
      → test done ≡ true
      → test (a ∷ done) ≡ true) where
  bind-Keeps {ℓ κ} :
      {A : Type ℓ} {B : Type κ} (s : Script A) (f : A → Script B)
      → Keeps test s
      → ((a : A) → Keeps test (f a))
      → Keeps test (s >>= f)
  unfolding Keeps ◌>>=◌
  bind-Keeps {A = A} {B = B} s f k l h c = continued (s h) (k h c)
    where
      continued :
          (p : Outcome A × Host)
          → test (p.1).done ≡ true
          → test ((continue p.0 f p.1).1).done ≡ true
      continued (returned a, h') c = l a h' c
      continued (raised e, h') c = c

  pub checked-Keeps :
      (args : List String) (text : Option String)
      → is_run start_args (run args text) ≡ false
      → Keeps test (checked m args text)
  unfolding Keeps checked act
  checked-Keeps args text e h c = steps (run args text) h.done e c

  succeeds-Keeps :
      (args : List String) (text : Option String)
      → is_run start_args (run args text) ≡ false
      → Keeps test (succeeds m args text)
  unfolding Keeps succeeds act
  succeeds-Keeps args text e h c = steps (run args text) h.done e c

  unchecked-Keeps :
      (args : List String) → is_run start_args (run args none) ≡ false → Keeps test (unchecked args)
  unfolding Keeps unchecked act
  unchecked-Keeps args e h c = steps (run args none) h.done e c

  pause-Keeps : (ms : ℕ) → Keeps test (pause ms)
  unfolding Keeps pause act
  pause-Keeps ms h c = steps (sleep ms) h.done refl c

  wait-Keeps : (n : ℕ) → Keeps test (wait_for_ping m n)
  unfolding Keeps wait_for_ping raise pure
  wait-Keeps zero = λ h c. c
  wait-Keeps (suc n) =
      bind-Keeps (succeeds m ping_args none)
        (λ ready. if ready then pure tt else (pause 1000 >> wait_for_ping m n))
        (succeeds-Keeps ping_args none refl)
        (again
          (bind-Keeps (pause 1000) (λ _. wait_for_ping m n) (pause-Keeps 1000) (λ _. wait-Keeps n)))
    where
      again :
          Keeps test (pause 1000 >> wait_for_ping m n)
          → (b : Bool) → Keeps test (if b then pure tt else (pause 1000 >> wait_for_ping m n))
      again k true = λ h c. c
      again k false = k

cleaned_steps :
    (m : Machine) (a : Action) (done : List Action)
    → is_run start_args a ≡ false
    → is_cleaned m done ≡ true
    → is_cleaned m (a ∷ done) ≡ true
cleaned_steps m a done e c = ground (arith)

module _ (m : Machine) (removes : Removes m) (statement : String) where
  finally-Keeps :
      {A : Type 0} (s : Script A) → Keeps (is_cleaned m) (finally s (unchecked remove_args))
  unfolding Keeps finally unchecked act
  finally-Keeps s h c = rw (removes ((s h).1).done) refl

  recover-Keeps : Keeps (is_cleaned m) (recover_credentials m statement)
  unfolding recover_credentials
  recover-Keeps =
      bind-Keeps m (is_cleaned m) (cleaned_steps m) _ _
        (checked-Keeps m (is_cleaned m) (cleaned_steps m) stop_args none refl)
        (λ _.
          bind-Keeps m (is_cleaned m) (cleaned_steps m) _ _
            (unchecked-Keeps m (is_cleaned m) (cleaned_steps m) remove_args refl)
            (λ _.
              bind-Keeps m (is_cleaned m) (cleaned_steps m) _ _
                (finally-Keeps (reset_offline m statement))
                (λ _. checked-Keeps m (is_cleaned m) (cleaned_steps m) up_args none refl)))

  pub update-Keeps : Keeps (is_cleaned m) (update_or_recover m statement)
  unfolding update_or_recover authenticate_and_update Keeps pure
  update-Keeps =
      bind-Keeps m (is_cleaned m) (cleaned_steps m) _ _
        (succeeds-Keeps m (is_cleaned m) (cleaned_steps m) update_args (some statement) refl) branch
    where
      branch :
          (b : Bool) → Keeps (is_cleaned m) (if b then pure tt else recover_credentials m statement)
      branch true = λ h c. c
      branch false = recover-Keeps
