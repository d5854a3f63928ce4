-- ===== src/Api/Validation.antt =====
-- What `validate_roles` of src/g_one/api.py accepts.
use project_g_one.Prelude.{
  ◌≡◌, String, true, false, not, List, [], ◌∷◌, arith, any, contains, all, refl,
}
use project_g_one.Text.Sets.{contains-sorted_set}
use project_g_one.Session.{returned}
use project_g_one.Api.Roles.{role_ids, validate_roles}

known_members :
    (known values : List String)
    → any (λ v. not (contains v known)) values ≡ false
    → all (λ v. contains v known) values ≡ true
known_members known [] none_unknown = refl
known_members known (v ∷ vs) none_unknown = ground (arith, known_members known vs)

-- The roles that are accepted are known, and they are the roles that were given: a text is in the
-- answer just where it was given.
pub validate_roles-known :
    (values roles : List String)
    → validate_roles values ≡ returned roles
    → (x : String)
    → (contains x roles ≡ contains x values) × (all (λ v. contains v role_ids) values ≡ true)
unfolding validate_roles
validate_roles-known values roles h x =
    (ground (arith, contains-sorted_set x values), ground (arith, known_members role_ids values))
