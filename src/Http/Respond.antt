-- ===== src/Http/Respond.antt =====
-- internal/adapter/httperr/response.go: how an error becomes an answer. The text of an error, which carries
-- the arguments that the model leaves out, and the errors of the framework are arguments.

use pingcast.Prelude.{
  ℕ, ◌==◌, Bool, ◌||◌, if◌then◌else◌, Option, none, some, Text, codes, is_empty, ◌++◌, [], ◌∷◌,
}
use pingcast.Prelude.Strings.{has_prefix}
use pingcast.Error.{
  Error, Sentinel, Code, domain_error, is_err, as_domain_error, not_found, forbidden, validation,
  conflict, incident_exists, user_exists,
}

-- The codes of the envelope.
pub data ApiCode : Type 0 where
  malformed_json malformed_param unauthorized forbidden_tenant missing validation_failed : ApiCode
  conflicting rate_limited internal_error invalid_state_transition invalid_hostname : ApiCode

abbrev pub code_text : ApiCode → Text
code_text malformed_json = codes "MALFORMED_JSON"
code_text malformed_param = codes "MALFORMED_PARAM"
code_text unauthorized = codes "UNAUTHORIZED"
code_text forbidden_tenant = codes "FORBIDDEN_TENANT"
code_text missing = codes "NOT_FOUND"
code_text validation_failed = codes "VALIDATION_FAILED"
code_text conflicting = codes "CONFLICT"
code_text rate_limited = codes "RATE_LIMITED"
code_text internal_error = codes "INTERNAL_ERROR"
code_text invalid_state_transition = codes "INVALID_STATE_TRANSITION"
code_text invalid_hostname = codes "INVALID_HOSTNAME"

-- `err.Error()`, which for a `DomainError` is its message, and the code of a `fiber.Error` in the chain.
pub record Rendering : Type 0 where
  pub text : Error → Text
  pub fiber_code : Error → Option ℕ

pub record Envelope : Type 0 where
  pub status : ℕ
  pub code : ApiCode
  pub message : Text

abbrev pub envelope : ℕ → ApiCode → Text → Envelope
envelope status code message = record { status = status; code = code; message = message }

-- What a handler does to the cookie of the session.
pub data CookieChange : Type 0 where
  kept cleared : CookieChange
  set_to : Text → CookieChange

pub data Reply (B : Type 0) : Type 0 where
  json : ℕ → B → Reply B
  bare : ℕ → Reply B
  failure : Envelope → Reply B

pub record Response (B : Type 0) : Type 0 where
  pub reply : Reply B
  pub cookie : CookieChange
  pub retry_after : Option ℕ

abbrev pub answer : {B : Type 0} → Reply B → Response B
answer r = record { reply = r; cookie = kept; retry_after = none }

abbrev pub status_of : {B : Type 0} → Response B → ℕ
status_of r = elim r.reply [ json s b ↦ s | bare s ↦ s | failure e ↦ e.status ]

-- `strings.Contains`.
abbrev pub contains : Text → Text → Bool
contains [] sub = is_empty sub
contains (c ∷ s) sub = has_prefix (c ∷ s) sub || contains s sub

unfoldable pub malformed_json_envelope : Envelope
malformed_json_envelope = envelope 400 malformed_json (codes "request body is not valid JSON")

unfoldable pub unauthorized_envelope : Envelope
unauthorized_envelope = envelope 401 unauthorized (codes "authentication required")

unfoldable pub forbidden_envelope : Envelope
forbidden_envelope = envelope 403 forbidden_tenant (codes "access denied")

unfoldable pub not_found_envelope : Text → Envelope
not_found_envelope what =
    envelope 404 missing
      (if is_empty what then codes "resource not found" else what ++ codes " not found")

unfoldable pub validation_envelope : Text → Envelope
validation_envelope message = envelope 422 validation_failed message

-- The answer of `WriteRateLimited`.
unfoldable pub rate_limited_response : {B : Type 0} → ℕ → Response B
rate_limited_response seconds = record {
  reply = failure (envelope 429 rate_limited (codes "too many requests"));
  cookie = kept;
  retry_after = some seconds;
}

unfoldable pub domain_status_and_code : Sentinel → Code → ℕ × ApiCode
domain_status_and_code s c =
    let e = domain_error s c in
    if is_err e not_found
    then (404, missing)
    else if is_err e forbidden
    then (403, forbidden_tenant)
    else if is_err e validation
    then (422, validation_failed)
    else if is_err e conflict
    then (409, conflicting)
    else (500, internal_error)

abbrev message_or : ApiCode → Text → Text
message_or code message = if is_empty message then code_text code else message

abbrev internal : Envelope
internal = envelope 500 internal_error (codes "internal error")

abbrev of_fiber : Option ℕ → Envelope
of_fiber none = internal
of_fiber (some n) =
    if n == 401
    then envelope 401 unauthorized (codes "authentication required")
    else if n == 404
    then envelope 404 missing (codes "resource not found")
    else if n == 403
    then envelope 403 forbidden_tenant (codes "access denied")
    else if n == 400
    then envelope 400 malformed_json (codes "request body is not valid JSON")
    else internal

abbrev of_sentinel : Rendering → Error → Envelope
of_sentinel r e =
    if is_err e not_found
    then envelope 404 missing (codes "resource not found")
    else if is_err e forbidden
    then envelope 403 forbidden_tenant (codes "access denied")
    else if is_err e validation
    then envelope 422 validation_failed (codes "validation failed")
    else if is_err e conflict
    then envelope 409 conflicting (codes "conflict")
    else if is_err e user_exists
    then envelope 422 validation_failed (codes "email already registered")
    else if is_err e incident_exists
    then envelope 409 conflicting (codes "active incident already exists")
    else of_fiber (r.fiber_code e)

-- The text is one of a binder of parameters.
abbrev pub names_argument : Text → Bool
names_argument t = contains t (codes "Query argument") || contains t (codes "Path argument")

abbrev of_domain : Rendering → Sentinel → Code → Envelope
unfolding domain_status_and_code
of_domain r s c =
    let (status, code) = domain_status_and_code s c in
    envelope status code (message_or code (r.text (domain_error s c)))

unfoldable pub classify : Rendering → Error → Envelope
unfolding domain_status_and_code
classify r e = elim (as_domain_error e) [
  | some d ↦ of_domain r d.0 d.1
  | none ↦
      if names_argument (r.text e) then envelope 400 malformed_param (r.text e) else of_sentinel r e
]
