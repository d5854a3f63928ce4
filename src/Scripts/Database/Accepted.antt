-- ===== src/Scripts/Database/Accepted.antt =====
-- What a run that returns has done: `recover_credentials` and `synchronize` of
-- scripts/sync_database_credentials.py.
use Prim.Native.Char.{code}
use Prim.Native.String as Native
use project_g_one.Text.{is_empty}
use project_g_one.Prelude.{
  ◌≡◌, refl, String, Bool, true, false, not, ◌&&◌, ◌||◌, ◌==◌, eq_refl, ap, List, [], ◌∷◌, none,
  some, nat_eq, arith, where_true, if◌then◌else◌, ℕ, ◌≤◌, ◌⊎◌, inl, inr, ◌≢◌, Option,
}
use project_g_one.Scripts.Machine.{
  Action, run, Machine, Host, Outcome, returned, raised, Failure, runtime_error, pure, raise_if,
  ◌>>=◌, ◌>>◌, finally, act, succeeds, checked, unchecked, is_run, same_args,
}
use Prim.Native.String.{◌++◌}
use project_g_one.Text.Lines.{join}
use project_g_one.Scripts.EnvFile.{get_value}
use project_g_one.Scripts.Database.{
  is_missing, missing_keys, settings_of, is_safe_identifier, text_or_empty, statement_of,
  start_args, remove_args, up_args, reset_args, update_args, reset_offline, recover_credentials,
  update_or_recover, authenticate_and_update, synchronize, identifier_codes, is_identifier_code,
  required_keys,
}
use project_g_one.Scripts.Machine.Ensures.{Ensures, EnsuresAfter, bind-Ensures, bind-EnsuresAfter}
use project_g_one.Scripts.Database.Recovery.{
  Keeps, Removes, is_cleaned, checked-Keeps, update-Keeps,
}

abbrev pub is_run_with : List String → String → Action → Bool
is_run_with args statement (run given (some text)) = same_args given args && (text == statement)
is_run_with args statement _ = false

-- The statement was run, and the run ended well.
abbrev pub was_accepted : Machine → String → List Action → Bool
was_accepted m statement [] = false
was_accepted m statement (a ∷ done) =
    (is_run_with update_args statement a || is_run_with reset_args statement a)
      && nat_eq (m.returncode (a ∷ done)) 0
    || was_accepted m statement done

module _ (m : Machine) (statement : String) where
  accepted : List Action → Bool
  accepted = was_accepted m statement

  accepted_steps :
      (a : Action) (done : List Action)
      → is_run start_args a ≡ false
      → accepted done ≡ true
      → accepted (a ∷ done) ≡ true
  unfolding accepted
  accepted_steps a done e c = ground (arith)

  reset-Ensures : Ensures (λ _. accepted) (checked m reset_args (some statement))
  unfolding Ensures checked act accepted
  reset-Ensures h a e = ground (arith, eq_refl statement)

  offline : Ensures (λ _. accepted) (reset_offline m statement)
  unfolding reset_offline
  offline =
      bind-Ensures (λ _. accepted) _ _ (λ _. bind-Ensures (λ _. accepted) _ _ (λ _. reset-Ensures))

  offline-Ensures :
      Ensures (λ _. accepted) (finally (reset_offline m statement) (unchecked remove_args))
  unfolding Ensures finally unchecked act accepted
  offline-Ensures h a e =
      accepted_steps (run remove_args none) ((reset_offline m statement h).1).done refl
        (offline h a e)

  recover-Ensures : Ensures (λ _. accepted) (recover_credentials m statement)
  unfolding recover_credentials EnsuresAfter Keeps
  recover-Ensures =
      bind-Ensures (λ _. accepted) _ _
        (λ _.
          bind-Ensures (λ _. accepted) _ _
            (λ _.
              bind-EnsuresAfter (λ _. accepted) (λ _. accepted) _ _ offline-Ensures
                (λ _ h a c e. checked-Keeps m accepted accepted_steps up_args none refl h c)))

  update-Ensures : Ensures (λ _. accepted) (update_or_recover m statement)
  unfolding update_or_recover Ensures authenticate_and_update ◌>>=◌ succeeds act pure accepted
  update-Ensures h a e =
      branch (nat_eq (m.returncode (run update_args (some statement) ∷ h.done)) 0) refl e
    where
      after : Host
      after = record h { done = run update_args (some statement) ∷ h.done }

      branch :
          (b : Bool)
          → nat_eq (m.returncode (run update_args (some statement) ∷ h.done)) 0 ≡ b
          → ((if b then pure tt else recover_credentials m statement) after).0 ≡ returned a
          → accepted (((if b then pure tt else recover_credentials m statement) after).1).done
            ≡ true
      branch true k e = ground (arith, eq_refl statement)
      branch false k e = recover-Ensures after a e

-- A letter, a digit or an underscore, by its code.
abbrev IsWordCode : ℕ → Type 0
IsWordCode c = ((48 ≤ c) × (c ≤ 57)) ⊎ (((65 ≤ c) × (c ≤ 90)) ⊎ ((c ≡ 95) ⊎ ((97 ≤ c) × (c ≤ 122))))

-- The text is of such characters alone.
unfoldable pub IsWord : String → Type 0
IsWord Native.[] = Unit {0}
IsWord (Native.◌∷◌ c s) = IsWordCode (code c) × IsWord s

word_code : (c : ℕ) → is_identifier_code c ≡ true → IsWordCode c
word_code c h = ground (arith)

identifier-IsWord : (s : String) → identifier_codes s ≡ true → IsWord s
unfolding IsWord identifier_codes
identifier-IsWord Native.[] h = tt
identifier-IsWord (Native.◌∷◌ c s) h =
    (word_code (code c) (ground arith), identifier-IsWord s (ground arith))

-- The text is there, and not empty.
abbrev pub IsGiven : Option String → Type 0
IsGiven v = text_or_empty v ≢ ""

abbrev pub value_in : Host → String → Option String
value_in h key = get_value key (settings_of h)

-- The three settings are given, and the user is of letters, digits and underscores.
abbrev pub IsUsable : Host → Type 0
IsUsable h =
    IsGiven (value_in h "G_ONE_DB_USER")
    × IsGiven (value_in h "G_ONE_DB_PASSWORD")
    × IsGiven (value_in h "G_ONE_DB_ROOT_PASSWORD")
    × IsWord (text_or_empty (value_in h "G_ONE_DB_USER"))

given : (v : Option String) → is_empty (text_or_empty v) ≡ false → IsGiven v
unfolding is_empty
given v h e = ground (arith, h, ap is_empty e)

-- What the two checks of the script establish.
usable :
    (test : String → Bool)
    → is_missing (where_true test required_keys) ≡ false
    → (test "G_ONE_DB_USER" ≡ false)
      × (test "G_ONE_DB_PASSWORD" ≡ false)
      × (test "G_ONE_DB_ROOT_PASSWORD" ≡ false)
usable test e = (ground arith, ground arith, ground arith)

is_safe_identifier-IsWord : (s : String) → is_safe_identifier s ≡ true → IsWord s
unfolding is_safe_identifier
is_safe_identifier-IsWord s h = identifier-IsWord s (ground arith)

synchronize_lem :
    (m : Machine) (h : Host)
    → (((message : String) × (synchronize m h ≡ (raised (runtime_error message), h))) ⊎ IsUsable h)
      × (Removes m → is_cleaned m h.done ≡ true → is_cleaned m ((synchronize m h).1).done ≡ true)
      × ((synchronize m h).0 ≡ returned tt
          → was_accepted m (statement_of (settings_of h)) ((synchronize m h).1).done ≡ true)
unfolding synchronize raise_if ◌>>=◌ Keeps Ensures succeeds accepted
synchronize_lem m h =
    branch (is_missing (missing_keys (settings_of h))) refl
      (is_safe_identifier (text_or_empty (value_in h "G_ONE_DB_USER"))) refl
  where
    statement : String
    statement = statement_of (settings_of h)

    first : Failure
    first =
        runtime_error ("Missing database setting(s): " ++ join ", " (missing_keys (settings_of h)))

    second : Failure
    second = runtime_error "G_ONE_DB_USER may contain only letters, numbers, and underscores"

    result : Bool → Bool → Outcome (Unit {0}) × Host
    result a b = (raise_if a first >> (raise_if (not b) second >> update_or_recover m statement)) h

    known :
        is_missing (missing_keys (settings_of h)) ≡ false
        → is_safe_identifier (text_or_empty (value_in h "G_ONE_DB_USER")) ≡ true
        → IsUsable h
    known e k =
        let there = usable (λ key. is_empty (text_or_empty (value_in h key))) e in
        (
          given (value_in h "G_ONE_DB_USER") there.0,
          given (value_in h "G_ONE_DB_PASSWORD") there.1,
          given (value_in h "G_ONE_DB_ROOT_PASSWORD") there.2,
          is_safe_identifier-IsWord (text_or_empty (value_in h "G_ONE_DB_USER")) k,
        )

    branch :
        (a : Bool)
        → is_missing (missing_keys (settings_of h)) ≡ a
        → (b : Bool) → is_safe_identifier (text_or_empty (value_in h "G_ONE_DB_USER")) ≡ b
        → (((message : String) × (result a b ≡ (raised (runtime_error message), h))) ⊎ IsUsable h)
          × (Removes m → is_cleaned m h.done ≡ true → is_cleaned m ((result a b).1).done ≡ true)
          × ((result a b).0 ≡ returned tt → was_accepted m statement ((result a b).1).done ≡ true)
    branch true e b k = (inl (_, refl), λ _ c. c, λ e. cc)
    branch false e false k = (inl (_, refl), λ _ c. c, λ e. cc)
    branch false e true k = (
      inr (known e k),
      λ removes. update-Keeps m removes statement h,
      λ e. update-Ensures m statement h tt e,
    )

-- Either the script raises an error and has done nothing to the machine, or the three settings are given
-- and the user is of letters, digits and underscores.
pub synchronize-refused :
    (m : Machine) (h : Host)
    → ((message : String) × (synchronize m h ≡ (raised (runtime_error message), h))) ⊎ IsUsable h
synchronize-refused m h = (synchronize_lem m h).0

-- Where docker removes the recovery server whenever it is asked to, the server, which asks for no
-- password, is not left behind, whatever else fails, where it was not there before.
pub synchronize-cleaned :
    (m : Machine) (removes : Removes m) (h : Host)
    → is_cleaned m h.done ≡ true
    → is_cleaned m ((synchronize m h).1).done ≡ true
synchronize-cleaned m removes h = (synchronize_lem m h).1 removes

-- Where the script returns, the database accepted the statement that sets the credentials of the
-- settings.
pub synchronize-accepted :
    (m : Machine) (h : Host)
    → (synchronize m h).0 ≡ returned tt
    → was_accepted m (statement_of (settings_of h)) ((synchronize m h).1).done ≡ true
synchronize-accepted m h = (synchronize_lem m h).2
