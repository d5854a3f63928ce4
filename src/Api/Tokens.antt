-- ===== src/Api/Tokens.antt =====
-- API tokens: `list_tokens`, `create_api_token` and `revoke_api_token` of src/g_one/api.py.
use Prim.Native.String.{◌++◌, slice}
use project_g_one.Prelude.{
  ℕ, ◌+◌, ◌*◌, String, ◌&&◌, List, [], ◌∷◌, ◌==◌, none, some, ltb, if◌then◌else◌, is_none, sort_by,
}
use project_g_one.Text.{strip}
use project_g_one.Outside.{Outside}
use project_g_one.Models.{ApiToken, texts}
use project_g_one.Models.Tables.{Kind}
use project_g_one.Auth.{Principal, require_role}
use project_g_one.Session.{
  Handler, ◌>>=◌, ◌>>◌, pure, lift, read, http, insert, save, select_or, select_all, commit,
}
use project_g_one.Api.Audit.{now, new_id, audit}
use project_g_one.Api.Roles.{validate_known, token_scopes}

pub record ApiTokenCreate : Type 0 where
  pub name : String
  pub scopes : List String
  pub lifetime_days : ℕ

-- `ApiTokenIssued`: the row and the secret, which is in no row.
pub record ApiTokenIssued : Type 0 where
  pub row : ApiToken
  pub token : String

module _ (o : Outside) (p : Principal) where
  unfoldable pub list_tokens : Handler (List ApiToken)
  list_tokens = do
    require_role p ("tenant_admin" ∷ [])
    found ← select_all Kind.api_tokens (λ t. t.tenant_id == p.tenant_id)
    pure (sort_by (λ a b. ltb b.created_at a.created_at) found)

  unfoldable pub create_api_token : ApiTokenCreate → Handler ApiTokenIssued
  create_api_token body = do
    require_role p ("tenant_admin" ∷ [])
    scopes ← lift (validate_known "scopes" token_scopes body.scopes)
    random ← read o.token_urlsafe
    let secret = "gone_" ++ random
    at ← now o
    id ← new_id o
    created ← now o
    let token : ApiToken = record {
      id = id;
      tenant_id = p.tenant_id;
      name = strip body.name;
      token_hash = o.sha256_hex secret;
      prefix = slice secret 0 12;
      scopes = scopes;
      created_by = p.subject;
      expires_at = at + body.lifetime_days * 86_400_000_000;
      created_at = created;
      revoked_at = none;
    }
    insert Kind.api_tokens token
    audit o p "token.created" "api_token" id (("scopes", texts scopes) ∷ [])
    commit
    pure (record { row = token; token = secret })

  unfoldable pub revoke_api_token : String → Handler (Unit {0})
  revoke_api_token token_id = do
    require_role p ("tenant_admin" ∷ [])
    token ←
        select_or (http 404 "token not found") Kind.api_tokens
          (λ t. t.tenant_id == p.tenant_id && t.id == token_id)
    if is_none token.revoked_at
        then (do
          at ← now o
          save Kind.api_tokens (record token { revoked_at = some at })
          audit o p "token.revoked" "api_token" token.id []
          commit)
        else pure tt
