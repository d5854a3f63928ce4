-- ===== src/Auth/Soundness.antt =====
-- What an accepted access token has shown: `decode_token` of src/g_one/auth.py.
use project_g_one.Prelude.{
  ◌≡◌, refl, sym, ◌∙◌, ap, ℕ, String, true, false, Option, none, some, List, [], ◌∷◌, arith,
}
use project_g_one.Text.Lines.{split_on}
use project_g_one.Settings.{Settings}
use project_g_one.Passwords.{same_bytes}
use project_g_one.Session.{Outcome, returned, raised}
use project_g_one.Auth.{Principal}
use project_g_one.Auth.Json.{
  Json, null, boolean, integer, negative, decimal, string, array, object, Fields, member, is_text,
}
use project_g_one.Auth.Token.{
  Codec, decode_token, decode_part, sign, is_expired, check_claims, required_fields, load,
  decode_pieces, check_parts,
}

required_fields-object : (j : Json) (f : Fields) → required_fields j ≡ returned f → j ≡ object f
required_fields-object (object g) f h = ground (arith)
required_fields-object (array items) f h = ground (arith)
required_fields-object (string s) f h = ground (arith)
required_fields-object null f h = ground (arith)
required_fields-object (boolean b) f h = ground (arith)
required_fields-object (integer n) f h = ground (arith)
required_fields-object (negative n) f h = ground (arith)
required_fields-object (decimal n) f h = ground (arith)

loaded :
    (codec : Codec) (settings : Settings) (decoded : Option (List ℕ)) (j : Json)
    → load codec settings decoded ≡ some j
    → (bytes : List ℕ) × (decoded ≡ some bytes) × (codec.json_loads bytes ≡ some j)
loaded codec settings none j h = ground (arith)
loaded codec settings (some bytes) j h = (bytes, refl, h)

module _ (codec : Codec) (settings : Settings) (at : ℕ) where
  -- The three parts of an accepted token: the signature is that of the other two, and the payload
  -- decodes to an object of this issuer and audience that has not expired.
  abbrev pub IsAccepted : String → Type 0
  IsAccepted token =
      (header : String) × (payload : String) × (signature : String) × (bytes : List ℕ)
      × (claims : List ℕ) × (f : Fields) × (split_on 46 token ≡ header ∷ payload ∷ signature ∷ [])
      × (decode_part codec settings signature ≡ some bytes)
      × (same_bytes bytes (sign codec settings header payload) ≡ true)
      × (decode_part codec settings payload ≡ some claims)
      × (codec.json_loads claims ≡ some (object f))
      × (is_text settings.jwt_issuer (member "iss" f) ≡ true)
      × (is_text settings.jwt_audience (member "aud" f) ≡ true)
      × (is_expired at (member "exp" f) ≡ false)

  -- What the checks of the parts have shown.
  abbrev IsChecked : List ℕ → Option Json → Option (List ℕ) → Type 0
  IsChecked expected payload signature =
      (bytes : List ℕ) × (f : Fields) × (payload ≡ some (object f))
      × (signature ≡ some bytes)
      × (same_bytes bytes expected ≡ true)
      × (is_text settings.jwt_issuer (member "iss" f) ≡ true)
      × (is_text settings.jwt_audience (member "aud" f) ≡ true)
      × (is_expired at (member "exp" f) ≡ false)

  check_parts-IsChecked :
      (expected : List ℕ) (header payload : Option Json) (signature : Option (List ℕ))
      (p : Principal)
      → check_parts codec settings at expected header payload signature ≡ returned p
      → IsChecked expected payload signature
  unfolding check_claims
  check_parts-IsChecked expected (some header) (some payload) (some bytes) p h =
      fields (required_fields payload) refl
    where
      fields :
          (r : Outcome Fields)
          → required_fields payload ≡ r
          → IsChecked expected (some payload) (some bytes)
      fields (raised x) e = ground (arith)
      fields (returned f) e = (
        bytes,
        f,
        ap some (required_fields-object payload f e),
        refl,
        ground (arith),
        ground (arith),
        ground (arith),
        ground (arith),
      )
  check_parts-IsChecked expected (some header) (some payload) none p h = ground (arith)
  check_parts-IsChecked expected (some header) none signature p h = ground (arith)
  check_parts-IsChecked expected none payload signature p h = ground (arith)

  -- A principal comes out of a token only if its signature verifies under the secret of the
  -- settings, and the object that its payload decodes to has the issuer and the audience of the
  -- settings and has not expired.
  pub decode_token-IsAccepted :
      (token : String) (p : Principal)
      → decode_token codec settings at token ≡ returned p
      → IsAccepted token
  unfolding decode_token
  decode_token-IsAccepted token p h = pieces (split_on 46 token) refl
    where
      pieces : (parts : List String) → split_on 46 token ≡ parts → IsAccepted token
      pieces [] e = ground (arith)
      pieces (a ∷ []) e = ground (arith)
      pieces (a ∷ b ∷ []) e = ground (arith)
      pieces (a ∷ b ∷ c ∷ d ∷ rest) e = ground (arith)
      pieces (a ∷ b ∷ c ∷ []) e =
          let (bytes, f, read, decoded, verified, issuer, audience, fresh) =
            check_parts-IsChecked (sign codec settings a b)
              (load codec settings (decode_part codec settings a))
              (load codec settings (decode_part codec settings b)) (decode_part codec settings c) p
              (ap (decode_pieces codec settings at) (sym e) ∙ h) in
          let (claims, text, object_read) =
            loaded codec settings (decode_part codec settings b) (object f) read in
          (
            a, b, c, bytes, claims, f, e, decoded, verified, text, object_read, issuer, audience,
            fresh,
          )
