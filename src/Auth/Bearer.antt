-- ===== src/Auth/Bearer.antt =====
-- The principal of a request: `current_principal` of src/g_one/auth.py.
use project_g_one.Prelude.{ℕ, String, Option, none, some, ◌==◌, if◌then◌else◌}
use project_g_one.Outside.{Outside}
use project_g_one.Settings.{Settings}
use project_g_one.Session.{Outcome}
use project_g_one.Auth.{Principal}
use project_g_one.Auth.Token.{Codec, decode_token, unauthorized}

-- The header `Authorization`, as the web framework splits it.
pub record Credentials : Type 0 where
  pub scheme : String
  pub credentials : String

module _ (o : Outside) (codec : Codec) (settings : Settings) where
  unfoldable pub current_principal : ℕ → Option Credentials → Outcome Principal
  current_principal at none = unauthorized "bearer token required"
  current_principal at (some c) =
      if o.lower c.scheme == "bearer"
      then decode_token codec settings at c.credentials
      else unauthorized "bearer token required"
