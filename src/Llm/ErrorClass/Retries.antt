-- ===== src/Llm/ErrorClass/Retries.antt =====
-- Which messages llm/error_class.rs lets a caller retry or send to another model.
use piscis_engine.Prelude.{◌≡◌, ℕ, true, false, not, ◌&&◌, ◌||◌, Option, Text, arith}
use piscis_engine.Llm.ErrorClass.{
  ErrorClass, is_retryable, is_fallback_eligible, extract_http_status, says_auth, says_quota,
  is_server_error, is_known, classify_lower, classify_error,
}

-- What holds of a class that a caller acts on.
pub record IsActedOn (lower : Text) (status : Option ℕ) (c : ErrorClass) : Type 0 where
  pub not_final : (says_auth lower status || says_quota lower status) ≡ false
  pub either : (is_retryable c && is_fallback_eligible c) ≡ false
  pub server_error_retried : (not (is_server_error status) || is_retryable c) ≡ true
  pub retried_status :
      (not (is_retryable c) || is_server_error status || not (is_known status)) ≡ true

classify_lower-IsActedOn :
    (lower : Text) (status : Option ℕ)
    → (is_retryable (classify_lower lower status)
        || is_fallback_eligible (classify_lower lower status))
      ≡ true
    → IsActedOn lower status (classify_lower lower status)
unfolding classify_lower is_retryable is_fallback_eligible
classify_lower-IsActedOn lower status h = record {
  not_final = ground (arith, h);
  either = ground (arith, h);
  server_error_retried = ground (arith, h);
  retried_status = ground (arith, h);
}

-- If the class of a message lets a caller retry, or try another model, then the message says nothing
-- of a failed authentication or an exhausted account, only one of the two is to be done, a server
-- error is retried, and any other message that is retried has no HTTP status.
pub classify_error-IsActedOn :
    (to_lowercase : Text → Text) (msg : Text)
    → (is_retryable (classify_error to_lowercase msg)
        || is_fallback_eligible (classify_error to_lowercase msg))
      ≡ true
    → IsActedOn
        (to_lowercase msg)
        (extract_http_status (to_lowercase msg))
        (classify_error to_lowercase msg)
unfolding classify_error
classify_error-IsActedOn to_lowercase msg h =
    classify_lower-IsActedOn (to_lowercase msg) (extract_http_status (to_lowercase msg)) h
