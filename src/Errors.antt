-- ===== src/Errors.antt =====
-- `AppError` and its HTTP answer, of backend/src/errors.rs. The values that only reach the log
-- (an SQL error, an HTTP client error, an internal error's text) are not kept.
use unver.Prelude.{Bool, true, false, ℕ, Text, codes}

pub data AppError : Type 0 where
  database http unauthorized rate_limited forbidden not_found setup_required internal : AppError
  bad_request : Text → AppError

pub record Response : Type 0 where
  pub status : ℕ
  pub error : Text

unfoldable pub into_response : AppError → Response
into_response database = record { status = 500; error = codes "Internal server error" }
into_response http = record { status = 502; error = codes "External service request failed" }
into_response unauthorized = record { status = 401; error = codes "Unauthorized" }
into_response rate_limited = record { status = 429; error = codes "Too many requests" }
into_response forbidden = record { status = 403; error = codes "Forbidden" }
into_response not_found = record { status = 404; error = codes "Not found" }
into_response (bad_request msg) = record { status = 400; error = msg }
into_response setup_required = record { status = 403; error = codes "Initial setup required" }
into_response internal = record { status = 500; error = codes "Internal server error" }

-- `AppResult`
pub data AppResult {ℓ} (A : Type ℓ) : Type ℓ where
  ok : A → AppResult A
  err : AppError → AppResult A

abbrev pub is_ok {ℓ} : {A : Type ℓ} → AppResult A → Bool
is_ok (ok a) = true
is_ok (err e) = false
