-- ===== src/Api.antt =====
-- common/api/exceptions.py: the response to an exception of the application. The detail of the body is a
-- text of the exception, which is not modelled; what is no exception of the application has no handler.
use dox.Prelude.{ℕ, String, Option, none, some}
use dox.Result.{Error}

pub record ErrorResponse : Type 0 where
  pub status_code : ℕ
  pub error : String
  pub www_authenticate : Option String
  pub retry_after : Option ℕ

-- What a route does: an answer, an HTTPException, or an exception that is left to the handlers.
pub data Reply (A : Type 0) : Type 0 where
  reply : ℕ → A → Reply A
  refused : ℕ → Reply A
  raised : Error → Reply A

-- `_error_body` has the code of the exception.
abbrev plain : ℕ → String → ErrorResponse
plain status code = record {
  status_code = status;
  error = code;
  www_authenticate = none;
  retry_after = none;
}

-- The handler of the class itself, or that of `DoxException`.
unfoldable pub handle : Error → Option ErrorResponse
handle Error.not_found = some (plain 404 "not_found")
handle Error.authentication_error =
    some (record (plain 401 "authentication_error") { www_authenticate = some "Bearer" })
handle Error.authorization_error = some (plain 403 "authorization_error")
handle Error.validation_error = some (plain 422 "validation_error")
handle (Error.quota_exceeded window) = some (plain 429 "quota_exceeded")
handle (Error.rate_limit_exceeded retry_after) =
    some (record (plain 429 "rate_limit_exceeded") { retry_after = some retry_after })
handle Error.dox_error = some (plain 400 "dox_error")
handle Error.configuration_error = some (plain 400 "configuration_error")
handle Error.feature_not_available = some (plain 400 "feature_not_available")
handle Error.conflict = some (plain 400 "conflict")
handle Error.integrity_error = none
handle Error.multiple_results = none
handle Error.value_error = none
handle Error.key_error = none
