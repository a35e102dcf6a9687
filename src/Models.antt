-- ===== src/Models.antt =====
-- The data of backend/src/models.rs and the rows of backend/migrations/001_init.sql and
-- 002 (the `cert_id` column). INTEGER columns that hold a flag are Booleans; a timestamp is the
-- text that SQLite stores.
use unver.Prelude.{Bool, Option, Text}
use unver.Prelude.Int.{ℤ}

pub record ProxyRule : Type 0 where
  pub id : Text
  pub name : Text
  pub domain : Text
  pub target_url : Text
  pub rule_type : Text
  pub redirect_code : Option ℤ
  pub ssl_enabled : Bool
  pub cert_id : Option Text
  pub force_https : Bool
  pub enabled : Bool
  pub port_group_id : Option Text
  pub status : Text
  pub last_checked_at : Option Text
  pub created_at : Text
  pub updated_at : Text

pub record CreateProxyRule : Type 0 where
  pub name : Text
  pub domain : Text
  pub target_url : Text
  pub port_group_id : Text
  pub rule_type : Text
  pub redirect_code : Option ℤ
  pub ssl_enabled : Bool
  pub cert_id : Option Text
  pub force_https : Bool
  pub enabled : Bool

pub record UpdateProxyRule : Type 0 where
  pub name : Option Text
  pub domain : Option Text
  pub target_url : Option Text
  pub port_group_id : Option Text
  pub rule_type : Option Text
  pub redirect_code : Option ℤ
  pub ssl_enabled : Option Bool
  pub force_https : Option Bool
  pub enabled : Option Bool
  pub cert_id : Option Text

pub record PortGroup : Type 0 where
  pub id : Text
  pub name : Text
  pub listen_port : ℤ
  pub enabled : Bool
  pub skip_tls_verify : Bool
  pub force_https : Bool
  pub created_at : Text
  pub updated_at : Text

pub record CreatePortGroup : Type 0 where
  pub name : Text
  pub listen_port : ℤ
  pub enabled : Bool
  pub skip_tls_verify : Bool
  pub force_https : Bool

pub record UpdatePortGroup : Type 0 where
  pub name : Option Text
  pub listen_port : Option ℤ
  pub enabled : Option Bool
  pub skip_tls_verify : Option Bool
  pub force_https : Option Bool

pub record User : Type 0 where
  pub id : Text
  pub username : Text
  pub password_hash : Text
  pub created_at : Text
  pub updated_at : Text

pub record RefreshToken : Type 0 where
  pub id : Text
  pub user_id : Text
  pub token_hash : Text
  pub expires_at : Text

pub record Certificate : Type 0 where
  pub id : Text
  pub domain : Text
  pub cert_pem : Text
  pub key_pem : Text
  pub expires_at : Text
  pub auto_renew : Bool
  pub source : Text
  pub created_at : Text
  pub updated_at : Text

pub record ApiKey : Type 0 where
  pub id : Text
  pub name : Text
  pub key_hash : Text
  pub key_prefix : Text
  pub enabled : Bool
  pub last_used_at : Option Text

pub record LoginRequest : Type 0 where
  pub username : Text
  pub password : Text

pub record SetupRequest : Type 0 where
  pub username : Text
  pub password : Text

pub record ChangePasswordRequest : Type 0 where
  pub current_password : Text
  pub new_password : Text
