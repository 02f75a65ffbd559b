-- ===== src/Error.antt =====
-- Go errors (internal/domain/errors.go and the wrapping of `fmt.Errorf`). A sentinel is compared by
-- identity, an error built by `errors.New` or `fmt.Errorf` carries its format, arguments aside, and
-- an error of a library is `foreign`.
use pingcast.Prelude.{ℕ, String, Bool, true, false, ◌||◌, Option, none, some}

pub data Sentinel : Type 0 where
  not_found forbidden validation conflict incident_exists user_exists : Sentinel
  event_publish_failed : Sentinel

abbrev pub same : Sentinel → Sentinel → Bool
same not_found not_found = true
same forbidden forbidden = true
same validation validation = true
same conflict conflict = true
same incident_exists incident_exists = true
same user_exists user_exists = true
same event_publish_failed event_publish_failed = true
same _ _ = false

-- The machine-readable codes of `DomainError`.
pub data Code : Type 0 where
  monitor_name_required monitor_name_too_long : Code
  interval_too_short interval_too_long interval_below_tier_min : Code
  alert_threshold_too_low alert_threshold_too_high monitor_limit_reached : Code
  email_required email_invalid : Code
  channel_name_required channel_name_too_long : Code
  invalid_channel_type invalid_channel_config : Code
  slug_invalid slug_reserved password_too_short password_too_long : Code

pub data Error : Type 0 where
  sentinel : Sentinel → Error
  domain_error : Sentinel → Code → Error
  errorf : String → Error
  wrap : String → Error → Error
  wrap_two : Error → Error → Error
  foreign : String → Error
  delivery_error : String → ℕ → Error → Error

-- `NewValidationError`.
abbrev pub new_validation_error : Code → Error
new_validation_error c = domain_error validation c

-- `errors.Is(err, s)`: the error itself, or one that it unwraps to.
abbrev pub is_err : Error → Sentinel → Bool
is_err (sentinel t) s = same t s
is_err (domain_error t c) s = same t s
is_err (errorf f) s = false
is_err (wrap f e) s = is_err e s
is_err (wrap_two e e') s = is_err e s || is_err e' s
is_err (foreign m) s = false
is_err (delivery_error reason code e) s = is_err e s

-- `errors.As(err, &domErr)`: the first `DomainError` of the chain.
abbrev pub as_domain_error : Error → Option (Sentinel × Code)
as_domain_error (sentinel t) = none
as_domain_error (domain_error t c) = some (t, c)
as_domain_error (errorf f) = none
as_domain_error (wrap f e) = as_domain_error e
as_domain_error (wrap_two e e') =
    let rest = as_domain_error e' in elim (as_domain_error e) [ some d ↦ some d | none ↦ rest ]
as_domain_error (foreign m) = none
as_domain_error (delivery_error reason code e) = as_domain_error e

-- `errors.As(err, &deliveryErr)`: the reason of the first `DeliveryError` of the chain.
abbrev pub as_delivery_error : Error → Option String
as_delivery_error (sentinel t) = none
as_delivery_error (domain_error t c) = none
as_delivery_error (errorf f) = none
as_delivery_error (wrap f e) = as_delivery_error e
as_delivery_error (wrap_two e e') =
    let rest = as_delivery_error e' in elim (as_delivery_error e) [ some d ↦ some d | none ↦ rest ]
as_delivery_error (foreign m) = none
as_delivery_error (delivery_error reason code e) = some reason

-- The pair of a result and an `error`, of which one is nil.
pub data Result {ℓ} (A : Type ℓ) : Type ℓ where
  ok : A → Result A
  err : Error → Result A
