-- ===== src/Domain/Redaction.antt =====
-- internal/domain/redaction.go: what is left of the secrets of a channel in an answer. The JSON library is an
-- argument; a `map[string]any` is a list with one entry for each key. Texts are lists of bytes here.
pub mod Secret
use pingcast.Prelude.{
  ℕ, leb, Bool, true, false, not, ◌&&◌, if◌then◌else◌, Option, none, some, List, [], ◌∷◌, ◌++◌,
  find, update_where, Text, codes, text_eq, is_empty, ◌-◌, length, drop,
}
use pingcast.Domain.Channel.{ChannelType, telegram, email, webhook, other, NotificationChannel}

-- A JSON value: `non_string` is any other, by its text.
pub data Value : Type 0 where
  string : Text → Value
  non_string : Text → Value

abbrev pub Object : Type 0
Object = List (Text × Value)

-- `json.Unmarshal` into a map, and `json.Marshal`: `none` is an error.
pub record Json : Type 0 where
  pub unmarshal : Text → Option Object
  pub marshal : Object → Option Text

unfoldable pub mask : Text → Text
mask v = if leb (length v) 4 then codes "***" else codes "***" ++ drop (length v - 4) v

abbrev redacted : Value → Value
redacted (string v) = if is_empty v then string v else string (mask v)
redacted (non_string t) = non_string t

unfoldable pub redact_field : Object → Text → Object
unfolding mask
redact_field m key = update_where (λ e. text_eq e.0 key) (λ e. (e.0, redacted e.1)) m

-- The field that holds the secret of a channel, if its type has one.
abbrev pub secret_field : ChannelType → Option Text
secret_field telegram = some (codes "bot_token")
secret_field webhook = some (codes "url")
secret_field email = some (codes "smtp_password")
secret_field (other t) = none

abbrev redact_by : Option Text → Object → Object
unfolding redact_field
redact_by none m = m
redact_by (some key) m = redact_field m key

abbrev or_raw : Text → Option Text → Text
or_raw raw none = raw
or_raw raw (some out) = out

abbrev redact_parsed : Json → ChannelType → Text → Option Object → Text
redact_parsed json t raw none = raw
redact_parsed json t raw (some m) = or_raw raw (json.marshal (redact_by (secret_field t) m))

unfoldable pub redact_channel_config : Json → ChannelType → Text → Text
unfolding redact_field mask
redact_channel_config json t raw =
    if is_empty raw then raw else redact_parsed json t raw (json.unmarshal raw)
