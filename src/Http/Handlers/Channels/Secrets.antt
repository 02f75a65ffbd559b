-- ===== src/Http/Handlers/Channels/Secrets.antt =====
-- The answers about channels do not give their secrets away.
use pingcast.Prelude.{◌<◌, ◌-◌, false, some, Text, is_empty, length, drop, ◌≡◌, ap}
use pingcast.Domain.Channel.{NotificationChannel}
use pingcast.Domain.Redaction.{Object, Json, mask, secret_field}
use pingcast.Domain.Redaction.Secret.{with_secret, redact_channel_config-same}
use pingcast.Http.Handlers.Channels.{or_empty, domain_channel_to_api}

-- The answer about a channel does not depend on its secret but for the last four bytes: two channels whose
-- configurations differ only in the secret field of their type, with secrets of more than four bytes and the same
-- last four, give the same answer, if the JSON library reads both configurations and can write the redacted one.
pub domain_channel_to_api-same :
    (json : Json) (ch : NotificationChannel) (key raw raw' v v' out : Text) (m : Object)
    → secret_field ch.type ≡ some key
    → is_empty raw ≡ false
    → is_empty raw' ≡ false
    → json.unmarshal raw ≡ some (with_secret key v m)
    → json.unmarshal raw' ≡ some (with_secret key v' m)
    → json.marshal (with_secret key (mask v) m) ≡ some out
    → 4 < length v
    → 4 < length v'
    → drop (length v - 4) v ≡ drop (length v' - 4) v'
    → domain_channel_to_api json (record ch { config = raw })
      ≡ domain_channel_to_api json (record ch { config = raw' })
unfolding domain_channel_to_api
domain_channel_to_api-same json ch key raw raw' v v' out m field full full' u u' w l l' e =
    ap
      (λ t. record {
        id = ch.id;
        name = ch.name;
        type = ch.type;
        config = or_empty (json.unmarshal t);
        is_enabled = ch.is_enabled;
        created_at = ch.created_at;
      })
      (redact_channel_config-same json ch.type key raw raw' v v' out m field full full' u u' w l l'
        e)
