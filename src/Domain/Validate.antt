-- ===== src/Domain/Validate.antt =====
-- internal/domain/validate.go: the checks on user input. `none` is a nil error.
use pingcast.Prelude.{
  ltb, Bool, Option, none, some, if◌then◌else◌, Text, byte_len, trim_space, is_empty,
}
use pingcast.Prelude.Int.{ℤ, pos, ltb_ℤ}
use pingcast.Error.{
  Error, new_validation_error, monitor_name_required, monitor_name_too_long, interval_too_short,
  interval_too_long, alert_threshold_too_low, alert_threshold_too_high, channel_name_required,
  channel_name_too_long, invalid_channel_type, email_required, email_invalid,
}
use pingcast.Domain.Channel.{ChannelType, valid}

unfoldable pub validate_monitor_input : Text → ℤ → ℤ → Option Error
validate_monitor_input raw_name interval_seconds alert_after_failures =
    let name = trim_space raw_name in
    if is_empty name
    then some (new_validation_error monitor_name_required)
    else if ltb 255 (byte_len name)
    then some (new_validation_error monitor_name_too_long)
    else if ltb_ℤ interval_seconds (pos 30)
    then some (new_validation_error interval_too_short)
    else if ltb_ℤ (pos 86400) interval_seconds
    then some (new_validation_error interval_too_long)
    else if ltb_ℤ alert_after_failures (pos 1)
    then some (new_validation_error alert_threshold_too_low)
    else if ltb_ℤ (pos 100) alert_after_failures
    then some (new_validation_error alert_threshold_too_high)
    else none

-- `mail.ParseAddress` is the argument `parses`.
unfoldable pub validate_email : (Text → Bool) → Text → Option Error
validate_email parses email =
    if is_empty email
    then some (new_validation_error email_required)
    else if parses email
    then none
    else some (new_validation_error email_invalid)

unfoldable pub validate_channel_input : Text → ChannelType → Option Error
validate_channel_input raw_name channel_type =
    let name = trim_space raw_name in
    if is_empty name
    then some (new_validation_error channel_name_required)
    else if ltb 255 (byte_len name)
    then some (new_validation_error channel_name_too_long)
    else if valid channel_type
    then none
    else some (new_validation_error invalid_channel_type)
