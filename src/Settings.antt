-- ===== src/Settings.antt =====
-- src/g_one/config.py: the settings of a running server.
pub mod Environment
use project_g_one.Prelude.{String, Bool}

pub record Settings : Type 0 where
  pub database_url : String
  pub jwt_secret : String
  pub jwt_issuer : String
  pub jwt_audience : String
  pub console_password : String
  pub environment : String
  pub wireguard_private_key : String
  pub wireguard_interface : String
  pub wireguard_config_path : String
  pub wireguard_apply : Bool
  pub windows_client_artifact : String
