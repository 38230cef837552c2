-- ===== src/Client/Transport.antt =====
-- github/client.rs: one request, with the halt, the credential and the limits that it goes through.
-- One task runs at a time: what other tasks do to the shared atomics meanwhile is not modelled.
use gh_report.Prelude.{
  ℕ, ◌+◌, Bool, false, not, ◌&&◌, ◌||◌, Option, none, some, List, [], ◌++◌, Text, codes,
  if◌then◌else◌, leb, ltb, ◌==◌, starts_with, to_string, suffixes, any, map,
}
use gh_report.OrderedMap.{OrderedMap}
use gh_report.OrderedMap
use gh_report.Client.{
  RequestFailureKind, AttemptResult, transport, http, body_read, invalid_json, invalid_utf8,
}
use gh_report.Client.Bodies.{
  Stream, BodyReadError, read, refused, read_body_bytes_limited, truncate_error_body,
  content_length_exceeded, body_length_exceeded, chunk_error,
}

-- what the client reads of an HTTP response; a header value is `none` where `to_str` fails
pub record Response : Type 0 where
  pub status : ℕ
  pub links : List (Option Text)
  pub etag : Option Text
  pub retry_after : Option Text
  pub oauth_headers : List (Text × Text)
  pub content_length : Option ℕ
  pub stream : Stream

pub data Sent : Type 0 where
  -- error, timeout
  lost : Text → Bool → Sent
  answered : Response → Sent

pub data Exchanged : Type 0 where
  exchange_failed : Text → Exchanged
  -- the expiry of the new token
  token : ℕ → Exchanged

pub data Parsed (V : Type 0) : Type 0 where
  invalid : Text → Parsed V
  array : List V → Parsed V
  other : V → Parsed V

-- the clock, the network, and the libraries behind them, on a world `W`
pub record Environment (W V : Type 0) : Type 0 where
  pub now : W → ℕ × W
  pub send : Text → ℕ → W → Sent × W
  pub exchange : W → Exchanged × W
  -- `RateLimitState` and `BackoffRegulator`
  pub observe : Response → W → W
  pub should_halt : W → Bool
  pub load_reset : W → Option ℕ
  pub arm_backoff : Text → W → W
  pub sleep_backoff : ℕ → W → W
  -- `BudgetGate::acquire`
  pub acquire : W → Bool × W
  -- `String::from_utf8`, `str::trim` with `is_empty`, and serde_json
  pub utf8_error : Text → Option Text
  pub is_blank_body : Text → Bool
  pub from_str : Text → Parsed V
  pub array_value : List V → V
  -- the origin of a URL by the url library
  pub origin_of : Text → Option Text

pub record ClientState (W : Type 0) : Type 0 where
  pub halted_until : ℕ
  pub credential_expires_at : ℕ
  pub rate_limit_warnings : ℕ
  pub last_response_etags : OrderedMap Text
  pub world : W

pub record Config : Type 0 where
  pub base_url : Text
  pub trusted_origin : Text
  pub has_app_config : Bool

abbrev pub token_refresh_buffer : ℕ
token_refresh_buffer = 300

abbrev pub max_response_body_bytes : ℕ
max_response_body_bytes = 52428800

abbrev pub is_success_status : ℕ → Bool
is_success_status status = leb 200 status && ltb status 300

abbrev pub is_retryable_status : ℕ → Bool
is_retryable_status s = s == 429 || (s == 500 || (s == 502 || (s == 503 || s == 504)))

abbrev lower : ℕ → ℕ
lower c = if leb b'A' c && leb c b'Z' then c + 32 else c

-- the first test of `secondary_limit_resume_at`
unfoldable pub is_secondary_signal : ℕ → Text → Bool
unfolding starts_with
is_secondary_signal status body =
    status == 429
    || (status == 403
        && any (starts_with (codes "secondary rate limit")) (suffixes (map lower body)))

-- `Display for BodyReadError`
unfoldable pub body_error_text : BodyReadError → Text
unfolding to_string
body_error_text (content_length_exceeded len bound) =
    codes "response Content-Length ("
    ++ (to_string len ++ (codes ") exceeds " ++ (to_string bound ++ codes " byte limit")))
body_error_text (body_length_exceeded bound) =
    codes "response body exceeds " ++ (to_string bound ++ codes " byte limit")
body_error_text (chunk_error e) = codes "body read error: " ++ e

module _ {W V : Type 0} (E : Environment W V) where
  open E use {
    now, send, exchange, observe, arm_backoff, utf8_error, is_blank_body, from_str, load_reset,
  }

  abbrev pub Action : Type 0 → Type 0
  Action A = ClientState W → A × ClientState W

  unfoldable pub is_halted : Action Bool
  is_halted s =
      if s.halted_until == 0
      then (false, s)
      else (let (t, w) = now s.world in (ltb t s.halted_until, record s { world = w }))

  unfoldable pub credential_needs_refresh : Action Bool
  credential_needs_refresh s =
      if s.credential_expires_at == 0
      then (false, s)
      else (let (t, w) = now s.world in
          (leb s.credential_expires_at (t + token_refresh_buffer), record s { world = w }))

  abbrev install : Exchanged × W → Action (Option Text)
  install (exchange_failed e, w) s = (some e, record s { world = w })
  install (token expiry, w) s = (none, record s { credential_expires_at = expiry; world = w })

  -- `none` where the credential is good; the lock between the two tests is not modelled
  unfoldable pub ensure_credential : Config → Action (Option Text)
  unfolding credential_needs_refresh
  ensure_credential cfg s =
      let (old, s1) = credential_needs_refresh s in
      if not old
      then (none, s1)
      else (let (still, s2) = credential_needs_refresh s1 in
          if not still
          then (none, s2)
          else if cfg.has_app_config
          then install (exchange s2.world) s2
          else (
            some (
                codes
                  "authentication failed: token expired but no GitHub App config available for refresh"),
            s2,
          ))

  -- `fetch_max` of the reset time, or of an hour from now
  unfoldable pub note_rate_limit_halt : ClientState W → ClientState W
  note_rate_limit_halt s = elim (load_reset s.world) [
    | some reset ↦ record s {
      halted_until = if ltb s.halted_until reset then reset else s.halted_until;
    }
    | none ↦
        let (t, w) = now s.world in
        record s {
          halted_until = if ltb s.halted_until (t + 3600) then t + 3600 else s.halted_until;
          world = w;
        }
  ]

  -- the body as text, empty where it cannot be read
  abbrev error_body : Response → Text
  unfolding read_body_bytes_limited
  error_body r = elim (read_body_bytes_limited r.content_length r.stream max_response_body_bytes) [
    | read bytes ↦ elim (utf8_error bytes) [ none ↦ bytes | some e ↦ [] ]
    | refused e ↦ []
  ]

  -- a regulator is armed by the `Retry-After` of a secondary limit, whose spelling is the library's
  abbrev arm : ℕ → Response → Text → W → W
  unfolding is_secondary_signal
  arm status r body w = elim r.retry_after [
    | none ↦ w
    | some raw ↦ if is_secondary_signal status body then arm_backoff raw w else w
  ]

  unfoldable pub http_failure_kind : Response → Action RequestFailureKind
  unfolding truncate_error_body error_body arm
  http_failure_kind r s =
      let body = error_body r in
      (
        http r.status (truncate_error_body body) (is_retryable_status r.status),
        record s { world = arm r.status r body s.world },
      )

  abbrev keep_etag : Text → Option Text → ClientState W → ClientState W
  keep_etag path none s = s
  keep_etag path (some etag) s = record s {
    last_response_etags = OrderedMap.insert path etag s.last_response_etags;
  }

  abbrev payload_value : Parsed V → Option V
  payload_value (invalid e) = none
  payload_value (array items) = some (E.array_value items)
  payload_value (other v) = some v

  abbrev parsed_result :
      Text → ℕ → Option Text → Option (List (Text × Text)) → Parsed V → Action (AttemptResult V)
  parsed_result path status etag headers (invalid e) s = (
    AttemptResult.failure
        (RequestFailureKind.malformed_payload status invalid_json (codes "invalid json: " ++ e)),
    s,
  )
  parsed_result path status etag headers p s = (
    AttemptResult.success
        (record { status = status; body = payload_value p; headers = headers; truncated = false }),
    keep_etag path etag s,
  )

  unfoldable pub parse_single_body :
      Text → ℕ → Text → Option Text → Option (List (Text × Text)) → Action (AttemptResult V)
  parse_single_body path status bytes etag headers s = elim (utf8_error bytes) [
    | some e ↦ (
      AttemptResult.failure (
          RequestFailureKind.malformed_payload status invalid_utf8
            (codes "response body is not valid UTF-8: " ++ e)),
      s,
    )
    | none ↦
        if is_blank_body bytes
        then (
          AttemptResult.success
              (record { status = status; body = none; headers = headers; truncated = false }),
          keep_etag path etag s,
        )
        else parsed_result path status etag headers (from_str bytes) s
  ]

  abbrev single_answer : Text → Bool → Response → Action (AttemptResult V)
  unfolding http_failure_kind parse_single_body read_body_bytes_limited
  single_answer path capture_headers r s =
      if not (is_success_status r.status)
      then (let (f, s') = http_failure_kind r s in (AttemptResult.failure f, s'))
      else elim (read_body_bytes_limited r.content_length r.stream max_response_body_bytes) [
        | refused e ↦ (AttemptResult.failure (body_read (some r.status) (body_error_text e)), s)
        | read bytes ↦
            parse_single_body path r.status bytes r.etag
              (if capture_headers then some r.oauth_headers else none) s
      ]

  abbrev single_sent : Text → Bool → Sent × W → Action (AttemptResult V)
  unfolding single_answer
  single_sent path capture_headers (lost e timeout, w) s =
      (AttemptResult.failure (transport e timeout), record s { world = w })
  single_sent path capture_headers (answered r, w) s =
      single_answer path capture_headers r (record s { world = observe r w })

  unfoldable pub request_single_inner : Config → Text → ℕ → Bool → Action (AttemptResult V)
  unfolding single_sent
  request_single_inner cfg path timeout_secs capture_headers s =
      single_sent path capture_headers (send (cfg.base_url ++ path) timeout_secs s.world) s

  unfoldable pub request_single : Config → Text → ℕ → Action (AttemptResult V)
  unfolding request_single_inner
  request_single cfg path timeout_secs = request_single_inner cfg path timeout_secs false
