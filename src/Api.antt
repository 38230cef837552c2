-- ===== src/Api.antt =====
-- api_outcome.rs: the result of one HTTP call, and the JSON values that it carries. A JSON value is
-- a type of the serde_json library: it is a parameter with the accessors that the program calls.
use gh_report.Prelude.{ℕ, Bool, true, false, not, Option, none, some, List, Text, ◌==◌}

pub record Json : Type 1 where
  pub Value : Type 0
  pub get : Value → Text → Option Value
  pub as_array : Value → Option (List Value)
  pub as_str : Value → Option Text
  pub as_bool : Value → Option Bool
  pub is_object : Value → Bool
  pub as_u64 : Value → Option ℕ
  pub is_null : Value → Bool

-- the status codes are u16
pub data ApiOutcome (V : Type 0) : Type 0 where
  -- status code, data, headers, truncated
  success : ℕ → Option V → Option (List (Text × Text)) → Bool → ApiOutcome V
  -- status code, error, retryable
  failure : Option ℕ → Text → Bool → ApiOutcome V

-- whether the status is the code
abbrev pub is_code : ℕ → Option ℕ → Bool
is_code n none = false
is_code n (some m) = m == n

module _ {V : Type 0} where
  unfoldable pub is_ok : ApiOutcome V → Bool
  is_ok (success code payload headers truncated) = true
  is_ok (failure code error retryable) = false

  unfoldable pub is_err : ApiOutcome V → Bool
  unfolding is_ok
  is_err o = not (is_ok o)

  unfoldable pub payload_of : ApiOutcome V → Option V
  payload_of (success code payload headers truncated) = payload
  payload_of (failure code error retryable) = none

  unfoldable pub status_code : ApiOutcome V → Option ℕ
  status_code (success code payload headers truncated) = some code
  status_code (failure code error retryable) = code

  unfoldable pub headers_of : ApiOutcome V → Option (List (Text × Text))
  headers_of (success code payload headers truncated) = headers
  headers_of (failure code error retryable) = none

  unfoldable pub is_retryable : ApiOutcome V → Bool
  is_retryable (success code payload headers truncated) = false
  is_retryable (failure code error retryable) = retryable

  unfoldable pub error_message : ApiOutcome V → Option Text
  error_message (success code payload headers truncated) = none
  error_message (failure code error retryable) = some error

  -- `ApiOutcome::success`
  unfoldable pub success_with : V → ApiOutcome V
  success_with v = success 200 (some v) none false

  unfoldable pub is_truncated : ApiOutcome V → Bool
  is_truncated (success code payload headers truncated) = truncated
  is_truncated (failure code error retryable) = false
