-- ===== src/Domain/Redaction/Secret.antt =====
-- An answer does not depend on a secret, but for its last four bytes.
use pingcast.Prelude.{
  ◌<◌, ◌-◌, false, some, [], ◌∷◌, update_where, update_where-update_where, Text, text_eq, is_empty,
  length, drop, ◌≡◌, refl, sym, ◌∙◌, ap, arith,
}
use pingcast.Domain.Channel.{ChannelType}
use pingcast.Domain.Redaction
use pingcast.Domain.Redaction.{
  Value, string, Object, Json, mask, redact_field, secret_field, redact_channel_config,
}

-- The object with the value under the key, if it has the key.
abbrev pub with_secret : Text → Text → Object → Object
with_secret key v m = update_where (λ e. text_eq e.0 key) (λ e. (e.0, string v)) m

redacted-mask : (v : Text) → 4 < length v → Redaction.redacted (string v) ≡ string (mask v)
redacted-mask [] l = absurd (omega (arith, l))
redacted-mask (c ∷ v) l = refl

redact_field-with_secret :
    (key v : Text) (m : Object)
    → 4 < length v
    → redact_field (with_secret key v m) key ≡ with_secret key (mask v) m
unfolding redact_field
redact_field-with_secret key v m l =
    update_where-update_where (λ e. text_eq e.0 key) _ (λ e. (e.0, string v)) m (λ e. refl)
    ∙ ap (λ r. update_where (λ e. text_eq e.0 key) (λ (e : Text × Value). (e.0, r)) m)
        (redacted-mask v l)

mask-same :
    (v v' : Text)
    → 4 < length v
    → 4 < length v'
    → drop (length v - 4) v ≡ drop (length v' - 4) v'
    → mask v ≡ mask v'
unfolding mask
mask-same v v' l l' e = ground (arith, l, l', e)

-- Two configurations that differ in the secret field of their channel's type only, where both secrets have
-- more than four bytes and the same last four, are redacted to the same text, if the library can write the
-- redacted object.
pub redact_channel_config-same :
    (json : Json) (t : ChannelType) (key raw raw' v v' out : Text) (m : Object)
    → secret_field t ≡ some key
    → is_empty raw ≡ false
    → is_empty raw' ≡ false
    → json.unmarshal raw ≡ some (with_secret key v m)
    → json.unmarshal raw' ≡ some (with_secret key v' m)
    → json.marshal (with_secret key (mask v) m) ≡ some out
    → 4 < length v
    → 4 < length v'
    → drop (length v - 4) v ≡ drop (length v' - 4) v'
    → redact_channel_config json t raw ≡ redact_channel_config json t raw'
unfolding redact_channel_config
redact_channel_config-same json t key raw raw' v v' out m field full full' u u' w l l' e =
    shown raw v full u l w
    ∙ sym (
        shown raw' v' full' u' l'
          (ap (λ x. json.marshal (with_secret key x m)) (sym (mask-same v v' l l' e)) ∙ w))
  where
    shown :
        (raw v : Text)
        → is_empty raw ≡ false
        → json.unmarshal raw ≡ some (with_secret key v m)
        → 4 < length v
        → json.marshal (with_secret key (mask v) m) ≡ some out
        → redact_channel_config json t raw ≡ out
    shown raw v full u l w = rw (full, u, field, redact_field-with_secret key v m l, w) refl
