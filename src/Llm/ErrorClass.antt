-- ===== src/Llm/ErrorClass.antt =====
-- llm/error_class.rs: the class of an error message, on which retries and fallbacks depend.
pub mod Retries
use piscis_engine.Prelude.{
  ℕ, zero, suc, ◌+◌, ◌-◌, ◌*◌, Bool, true, false, ◌&&◌, ◌||◌, Option, none, some, List, [], ◌∷◌,
  ◌==◌, leb, if◌then◌else◌, any, all, length, drop, Text, text, starts_with, contains,
}

pub data ErrorClass : Type 0 where
  model_unavailable : ErrorClass
  tool_args_invalid : ErrorClass
  protocol_error : ErrorClass
  rate_limited : ErrorClass
  auth_failed : ErrorClass
  quota_exceeded : ErrorClass
  upstream_transient : ErrorClass
  reasoning_replay_required : ErrorClass
  unknown : ErrorClass

unfoldable pub code_of : ErrorClass → Text
code_of model_unavailable = text "model_unavailable"
code_of tool_args_invalid = text "tool_args_invalid"
code_of protocol_error = text "protocol_error"
code_of rate_limited = text "rate_limited"
code_of auth_failed = text "auth_failed"
code_of quota_exceeded = text "quota_exceeded"
code_of upstream_transient = text "upstream_transient"
code_of reasoning_replay_required = text "reasoning_replay_required"
code_of unknown = text "unknown"

unfoldable pub is_retryable : ErrorClass → Bool
is_retryable upstream_transient = true
is_retryable _ = false

unfoldable pub is_fallback_eligible : ErrorClass → Bool
is_fallback_eligible model_unavailable = true
is_fallback_eligible rate_limited = true
is_fallback_eligible _ = false

-- The text after the first place where `part` begins.
unfoldable pub after_first : Text → Text → Option Text
after_first [] part = none
after_first (c ∷ s) part =
    let later = after_first s part in
    if starts_with (c ∷ s) part then some (drop (length part) (c ∷ s)) else later

abbrev pub is_digit : ℕ → Bool
is_digit c = leb b'0' c && leb c b'9'

-- `take_while(|c| c.is_ascii_digit())`.
unfoldable pub leading_digits : Text → Text
leading_digits [] = []
leading_digits (c ∷ s) = let more = leading_digits s in if is_digit c then c ∷ more else []

-- `parse` of three digits.
unfoldable pub three_digits : Text → Option ℕ
three_digits (a ∷ b ∷ c ∷ []) = some ((a - b'0') * 100 + ((b - b'0') * 10 + (c - b'0')))
three_digits _ = none

abbrev pub status_after : Option Text → Option ℕ
status_after none = none
status_after (some rest) = three_digits (leading_digits rest)

unfoldable pub extract_http_status : Text → Option ℕ
unfolding after_first leading_digits three_digits
extract_http_status lower = status_after (after_first lower (text "error "))

-- `status == Some(n)`.
abbrev pub is_status : Option ℕ → ℕ → Bool
is_status none n = false
is_status (some s) n = s == n

abbrev pub mentions : Text → List Text → Bool
mentions lower words = any (contains lower) words

unfoldable pub says_auth : Text → Option ℕ → Bool
says_auth lower status =
    mentions lower (
      text "auth_failed"
      ∷ text "unauthorized"
      ∷ text "invalid api key"
      ∷ text "incorrect api key"
      ∷ [])
    || is_status status 401
    || is_status status 403

unfoldable pub says_quota : Text → Option ℕ → Bool
says_quota lower status =
    is_status status 402
    || mentions lower (
        text "insufficient_quota"
        ∷ text "billing_hard_limit_reached"
        ∷ text "insufficient_balance"
        ∷ text "insufficient balance"
        ∷ text "credit balance is too low"
        ∷ text "credits exhausted"
        ∷ text "payment_required"
        ∷ [])

-- `is_reasoning_replay_error` of llm/openai.rs.
unfoldable pub is_reasoning_replay_error : Text → Bool
is_reasoning_replay_error lower =
    contains lower (text "reasoning_content")
    && mentions lower (text "passed back" ∷ text "must be" ∷ text "missing" ∷ [])

unfoldable pub is_server_error : Option ℕ → Bool
is_server_error none = false
is_server_error (some s) = leb 500 s && leb s 599

unfoldable pub says_no_model : Text → Option ℕ → Bool
says_no_model lower status =
    mentions lower (
      text "model_not_found"
      ∷ text "model not found"
      ∷ text "model_unavailable"
      ∷ text "does not exist"
      ∷ text "not supported by any configured account"
      ∷ text "not in the catalogue"
      ∷ text "not in the catalog"
      ∷ [])
    || (is_status status 404 && contains lower (text "model"))

unfoldable pub says_rate : Text → Option ℕ → Bool
says_rate lower status =
    mentions lower (text "rate_limit" ∷ text "rate limit" ∷ []) || is_status status 429

unfoldable pub says_protocol : Text → Bool
says_protocol lower = mentions lower (
    text "protocol_error"
    ∷ text "missing 'choices'"
    ∷ text "returned empty choices"
    ∷ text "json decode error"
    ∷ text "response json decode error"
    ∷ [])

unfoldable pub says_transient : Text → Bool
says_transient lower = mentions lower (
    text "timeout"
    ∷ text "connection"
    ∷ text "overloaded"
    ∷ text "error decoding response body"
    ∷ text "incomplete message"
    ∷ text "unexpected eof"
    ∷ text "broken pipe"
    ∷ [])

abbrev pub is_known : Option ℕ → Bool
is_known none = false
is_known (some s) = true

-- The tests of `classify_error`, on the message in lower case and its status.
unfoldable pub classify_lower : Text → Option ℕ → ErrorClass
unfolding says_auth says_quota is_reasoning_replay_error is_server_error says_no_model says_rate
    says_protocol says_transient
classify_lower lower status =
    if says_auth lower status
    then auth_failed
    else if says_quota lower status
    then quota_exceeded
    else if contains lower (text "tool_args_invalid")
    then tool_args_invalid
    else if is_reasoning_replay_error lower
    then reasoning_replay_required
    else if is_server_error status
    then upstream_transient
    else if says_no_model lower status
    then model_unavailable
    else if says_rate lower status
    then rate_limited
    else if says_protocol lower
    then protocol_error
    else if is_known status
    then unknown
    else if says_transient lower
    then upstream_transient
    else unknown

-- `to_lowercase` is `str::to_lowercase`.
unfoldable pub classify_error : (to_lowercase : Text → Text) → Text → ErrorClass
unfolding classify_lower extract_http_status
classify_error to_lowercase msg =
    let lower = to_lowercase msg in classify_lower lower (extract_http_status lower)
