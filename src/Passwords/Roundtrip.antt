-- ===== src/Passwords/Roundtrip.antt =====
-- A password against its own hash: `hash_password` and `verify_password` of src/g_one/passwords.py.
use Prim.Native.String.{◌++◌}
use Prim.Native.String.append
use text.Mathlib.TextLemmas.{append_assoc}
use project_g_one.Prelude.{
  ◌≡◌, refl, ◌∙◌, ap, ℕ, String, true, false, Option, some, List, [], ◌∷◌, arith,
}
use project_g_one.Text.{is_empty}
use project_g_one.Text.Lines.{split_max}
use project_g_one.Text.Split.{has_code, split_max-append, split_max-none}
use project_g_one.Outside.{Outside}
use project_g_one.Session.{World, returned, ◌>>=◌, read, pure}
use project_g_one.Passwords.{
  hash_password, same_bytes, encode_password, verify_password, check_pieces, check_parts,
}

prefix_split :
    (x : String)
    → "pbkdf2_sha256$600000$" ++ x ≡ "pbkdf2_sha256" ++ ("$" ++ ("600000" ++ ("$" ++ x)))
prefix_split x =
    append_assoc "pbkdf2_sha256" "$600000$" x
    ∙ ap (λ (t : String). "pbkdf2_sha256" ++ t)
        (append_assoc "$" "600000$" x ∙ ap (λ (t : String). "$" ++ t) (append_assoc "600000" "$" x))

same_bytes_refl : (bs : List ℕ) → same_bytes bs bs ≡ true
same_bytes_refl [] = refl
same_bytes_refl (b ∷ bs) = ground (arith, same_bytes_refl bs)

module _ (o : Outside) (password : String) where
  -- The digest that the password and the salt give.
  abbrev pub digest : List ℕ → List ℕ
  digest salt = o.pbkdf2_hmac password salt 600_000

  encoded_pieces :
      (salt : List ℕ)
      → has_code 36 (o.urlsafe_b64encode salt) ≡ false
      → split_max 3 36 (encode_password o password salt)
        ≡ "pbkdf2_sha256"
          ∷ "600000"
          ∷ o.urlsafe_b64encode salt
          ∷ o.urlsafe_b64encode (digest salt)
          ∷ []
  unfolding encode_password has_code
  encoded_pieces salt plain =
      let last = o.urlsafe_b64encode (digest salt) in
      let rest = o.urlsafe_b64encode salt ++ ("$" ++ last) in
      ap (split_max 3 36) (prefix_split rest)
      ∙ split_max-append "$" 2 "pbkdf2_sha256" ("600000" ++ ("$" ++ rest)) refl
      ∙ ap (λ (ts : List String). "pbkdf2_sha256" ∷ ts) (split_max-append "$" 1 "600000" rest refl)
      ∙ ap (λ (ts : List String). "pbkdf2_sha256" ∷ "600000" ∷ ts)
          (split_max-append "$" 0 (o.urlsafe_b64encode salt) last plain)
      ∙ ap (λ (ts : List String). "pbkdf2_sha256" ∷ "600000" ∷ o.urlsafe_b64encode salt ∷ ts)
          (split_max-none 36 last)

  encode_password_nonempty : (salt : List ℕ) → is_empty (encode_password o password salt) ≡ false
  unfolding encode_password is_empty
  encode_password_nonempty salt = ap is_empty (
      append.cons "p" "bkdf2_sha256$600000$"
        (o.urlsafe_b64encode salt ++ ("$" ++ o.urlsafe_b64encode (digest salt))))

  check_parts-digest :
      (salt : List ℕ) (x : Option (List ℕ)) (y : Option ℕ) (z : Option (List ℕ))
      → x ≡ some salt
      → y ≡ some 600_000
      → z ≡ some (digest salt)
      → check_parts o password x y z ≡ true
  check_parts-digest salt x y z ex ey ez =
      ap (λ (t : Option (List ℕ)). check_parts o password t y z) ex
      ∙ ap (λ (t : Option ℕ). check_parts o password (some salt) t z) ey
      ∙ ap (λ (t : Option (List ℕ)). check_parts o password (some salt) (some 600_000) t) ez
      ∙ same_bytes_refl (digest salt)

  -- A password is accepted against the hash that `hash_password` made of it, where base64 decodes the
  -- salt and the digest that it encoded, the salt's text has no dollar sign, and 600000 is read.
  pub verify_password-hash_password :
      (w : World) (encoded : String)
      → (hash_password o password w).0 ≡ returned encoded
      → o.urlsafe_b64decode (o.urlsafe_b64encode (o.urandom w.reads)) ≡ some (o.urandom w.reads)
      → o.urlsafe_b64decode (o.urlsafe_b64encode (digest (o.urandom w.reads)))
        ≡ some (digest (o.urandom w.reads))
      → has_code 36 (o.urlsafe_b64encode (o.urandom w.reads)) ≡ false
      → o.positive_int "600000" ≡ some 600_000
      → verify_password o password (some encoded) ≡ true
  unfolding hash_password verify_password ◌>>=◌ read pure
  verify_password-hash_password w encoded h salt_back digest_back plain number =
      let salt = o.urandom w.reads in
      let matched = check_parts-digest salt _ _ _ salt_back number digest_back in
      let pieces = ap (check_pieces o password) (encoded_pieces salt plain) in
      ground (arith, encode_password_nonempty salt, pieces, matched)
