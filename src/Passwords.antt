-- ===== src/Passwords.antt =====
-- src/g_one/passwords.py, over the key derivation and the base64 of the standard library.
pub mod Roundtrip
use Prim.Native.String.{◌++◌}
use project_g_one.Prelude.{
  ℕ, String, Bool, true, false, ◌&&◌, List, [], ◌∷◌, Option, none, some, ◌==◌, nat_eq,
  if◌then◌else◌,
}
use project_g_one.Text.{is_empty}
use project_g_one.Text.Lines.{split_max}
use project_g_one.Outside.{Outside}
use project_g_one.Session.{Handler, ◌>>=◌, pure, read}

-- `hmac.compare_digest` of two byte strings
abbrev pub same_bytes : List ℕ → List ℕ → Bool
same_bytes [] [] = true
same_bytes [] (b ∷ bs) = false
same_bytes (a ∷ more) [] = false
same_bytes (a ∷ more) (b ∷ bs) = nat_eq a b && same_bytes more bs

module _ (o : Outside) where
  unfoldable pub encode_password : String → List ℕ → String
  encode_password password salt =
      "pbkdf2_sha256$600000$"
      ++ o.urlsafe_b64encode salt
      ++ "$"
      ++ o.urlsafe_b64encode (o.pbkdf2_hmac password salt 600_000)

  unfoldable pub hash_password : String → Handler String
  unfolding encode_password
  hash_password password = do salt ← read o.urandom; pure (encode_password password salt)

  -- The derived bytes against the expected ones; what cannot be read fails.
  abbrev pub check_parts : String → Option (List ℕ) → Option ℕ → Option (List ℕ) → Bool
  check_parts password (some salt) (some rounds) (some expected) =
      same_bytes (o.pbkdf2_hmac password salt rounds) expected
  check_parts password (some salt) (some rounds) none = false
  check_parts password (some salt) none expected = false
  check_parts password none rounds expected = false

  abbrev pub check_pieces : String → List String → Bool
  check_pieces password (algorithm ∷ rounds ∷ salt ∷ expected ∷ []) =
      algorithm == "pbkdf2_sha256"
      && check_parts password (o.urlsafe_b64decode salt) (o.positive_int rounds)
          (o.urlsafe_b64decode expected)
  check_pieces password _ = false

  unfoldable pub verify_password : String → Option String → Bool
  unfolding split_max is_empty
  verify_password password none = false
  verify_password password (some encoded) =
      if is_empty encoded then false else check_pieces password (split_max 3 36 encoded)
