-- ===== src/Auth/Token.antt =====
-- `decode_token` and `encode_token` of src/g_one/auth.py, over the base64, JSON and HMAC of the
-- standard library.
use Prim.Native.Char.{code}
use Prim.Native.String as Native
use Prim.Native.String.{◌++◌, len}
use project_g_one.Prelude.{
  ℕ, zero, suc, ◌+◌, ◌-◌, ◌*◌, ◌/◌, ◌%◌, String, Bool, true, false, not, ◌&&◌, ◌||◌, List, [], ◌∷◌,
  Option, none, some, nat_eq, leb, if◌then◌else◌, all,
}
use project_g_one.Text.{is_empty}
use project_g_one.Text.Lines.{split_on}
use project_g_one.Text.Sets.{sorted_set}
use project_g_one.Settings.{Settings}
use project_g_one.Passwords.{same_bytes}
use project_g_one.Session.{Outcome, returned, raised, http, type_error}
use project_g_one.Auth.{Principal}
use project_g_one.Auth.Json.{
  Json, boolean, integer, decimal, string, array, object, Fields, end, field, member, has_member,
  fields_count, is_text, has_item, all_texts, of_texts,
}

-- What the functions use of the standard library.
pub record Codec : Type 0 where
  -- json.dumps(value, separators=(",", ":"), sort_keys=True).encode(), and json.loads, with none
  -- for ValueError
  pub json_dumps : Json → List ℕ
  pub json_loads : List ℕ → Option Json
  -- base64.urlsafe_b64encode(...).decode(), and urlsafe_b64decode, with none for an exception
  pub b64encode : List ℕ → String
  pub b64decode : String → Option (List ℕ)
  -- hmac.new(key.encode(), message.encode(), hashlib.sha256).digest()
  pub hmac_sha256 : String → String → List ℕ

abbrev pub is_equals_sign : ℕ → Bool
is_equals_sign c = nat_eq c 61

-- `text.rstrip("=")`
unfoldable pub without_padding : String → String
without_padding Native.[] = Native.[]
without_padding (Native.◌∷◌ c s) =
    let rest = without_padding s in
    if is_equals_sign (code c) && is_empty rest then Native.[] else Native.◌∷◌ c rest

-- `"=" * n`
abbrev pub equals_signs : ℕ → String
equals_signs zero = ""
equals_signs (suc n) = "=" ++ equals_signs n

-- `value + "=" * (-len(value) % 4)`, for a text of ASCII characters
unfoldable pub with_padding : String → String
with_padding value = value ++ equals_signs ((4 - len value % 4) % 4)

abbrev pub header_json : Json
header_json = object (field "alg" (string "HS256") (field "typ" (string "JWT") end))

-- `header == {"alg": "HS256", "typ": "JWT"}`
abbrev pub is_supported : Json → Bool
is_supported (object f) =
    nat_eq (fields_count f) 2
    && (is_text "HS256" (member "alg" f) && is_text "JWT" (member "typ" f))
is_supported _ = false

abbrev pub required : List String
required = "sub" ∷ "tenant_id" ∷ "roles" ∷ "exp" ∷ "iss" ∷ "aud" ∷ []

abbrev pub unauthorized {ℓ} : {A : Type ℓ} → String → Outcome A
unauthorized detail = raised (http 401 detail)

-- The members of the payload, where all that are required are there.
abbrev pub required_fields : Json → Outcome Fields
required_fields (object f) =
    if all (has_member f) required then returned f else unauthorized "incomplete access token"
required_fields (array items) =
    if all (has_item items) required
    then raised (type_error "list indices must be integers or slices, not str")
    else unauthorized "incomplete access token"
required_fields (string s) = unauthorized "incomplete access token"
required_fields _ = raised (type_error "object is not iterable")

-- `not isinstance(exp, (int, float)) or exp <= time.time()`, on the clock in microseconds
abbrev pub is_expired : ℕ → Option Json → Bool
is_expired at (some (integer n)) = leb (n * 1_000_000) at
is_expired at (some (boolean true)) = leb 1_000_000 at
is_expired at (some (decimal n)) = leb n at
is_expired at _ = true

-- `isinstance(value, str) and value`
abbrev pub nonempty_text : Option Json → Option String
nonempty_text (some (string s)) = if is_empty s then none else some s
nonempty_text _ = none

abbrev pub text_list : Option Json → Option (List String)
text_list (some (array items)) = all_texts items
text_list _ = none

abbrev pub principal_of : Option String → Option String → Option (List String) → Outcome Principal
principal_of (some subject) (some tenant_id) (some roles) =
    returned (record { subject = subject; tenant_id = tenant_id; roles = roles })
principal_of (some subject) (some tenant_id) none = unauthorized "invalid token roles"
principal_of (some subject) none roles = unauthorized "invalid token subject"
principal_of none tenant_id roles = unauthorized "invalid token subject"

unfoldable pub check_claims : Settings → ℕ → Fields → Outcome Principal
unfolding is_empty
check_claims settings at f =
    if not (is_text settings.jwt_issuer (member "iss" f))
      || not (is_text settings.jwt_audience (member "aud" f))
    then unauthorized "invalid token scope"
    else if is_expired at (member "exp" f)
    then unauthorized "expired access token"
    else principal_of (nonempty_text (member "sub" f)) (nonempty_text (member "tenant_id" f))
        (text_list (member "roles" f))

abbrev pub bind_outcome : {A B : Type 0} → Outcome A → (A → Outcome B) → Outcome B
bind_outcome (returned a) f = f a
bind_outcome (raised e) f = raised e

module _ (codec : Codec) (settings : Settings) where
  -- `_decode_part`
  unfoldable pub decode_part : String → Option (List ℕ)
  unfolding with_padding
  decode_part value = codec.b64decode (with_padding value)

  abbrev pub load : Option (List ℕ) → Option Json
  load none = none
  load (some bytes) = codec.json_loads bytes

  unfoldable pub sign : String → String → List ℕ
  sign header payload = codec.hmac_sha256 settings.jwt_secret (header ++ "." ++ payload)

  -- The checks after the three parts were read.
  abbrev pub check_parts :
      ℕ → List ℕ → Option Json → Option Json → Option (List ℕ) → Outcome Principal
  check_parts at expected (some header) (some payload) (some signature) =
      if not (is_supported header)
      then unauthorized "unsupported access token"
      else if not (same_bytes signature expected)
      then unauthorized "invalid access token"
      else bind_outcome (required_fields payload) (check_claims settings at)
  check_parts at expected (some header) (some payload) none = unauthorized "invalid access token"
  check_parts at expected (some header) none signature = unauthorized "invalid access token"
  check_parts at expected none payload signature = unauthorized "invalid access token"

  abbrev pub decode_pieces : ℕ → List String → Outcome Principal
  decode_pieces at (header ∷ payload ∷ signature ∷ []) =
      check_parts at (sign header payload) (load (decode_part header)) (load (decode_part payload))
        (decode_part signature)
  decode_pieces at _ = unauthorized "invalid access token"

  -- `time.time()` is `at`.
  unfoldable pub decode_token : ℕ → String → Outcome Principal
  unfolding split_on check_claims sign decode_part
  decode_token at token = decode_pieces at (split_on 46 token)

  -- `encode` of `encode_token`
  unfoldable pub encode_json : Json → String
  unfolding without_padding
  encode_json value = without_padding (codec.b64encode (codec.json_dumps value))

  -- The claims of a principal, with the keys sorted.
  unfoldable pub claims : Principal → ℕ → Json
  unfolding sorted_set
  claims p exp = object (
      field "aud" (string settings.jwt_audience) (
        field "exp" (integer exp) (
          field "iss" (string settings.jwt_issuer) (
            field "roles" (array (of_texts (sorted_set p.roles)))
              (field "sub" (string p.subject) (field "tenant_id" (string p.tenant_id) end))))))

  unfoldable pub signed : String → String → String
  unfolding without_padding sign
  signed header payload =
      header ++ "." ++ payload ++ "." ++ without_padding (codec.b64encode (sign header payload))

  -- `int(time.time()) + lifetime_seconds` at the clock in microseconds
  unfoldable pub encode_token : ℕ → Principal → ℕ → String
  unfolding encode_json claims signed
  encode_token at p lifetime_seconds =
      signed (encode_json header_json) (encode_json (claims p (at / 1_000_000 + lifetime_seconds)))
