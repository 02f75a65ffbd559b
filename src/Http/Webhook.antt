-- ===== src/Http/Webhook.antt =====
-- internal/adapter/http/webhook.go: the calls of the payment provider and of Telegram. The HMAC, the
-- JSON decoder and the parser of UUIDs are libraries, and arguments here; what is logged is left out.
pub mod Payment
use pingcast.Prelude.{
  ℕ, Bool, true, false, not, ◌&&◌, ◌||◌, if◌then◌else◌, Option, none, some, ◌++◌, Text, codes,
  text_eq, is_empty, suc, ◌∷◌,
}
use pingcast.Prelude.Strings.{decimal, cut_prefix}
use pingcast.Prelude.Int.{ℤ, pos, negsuc}
use pingcast.Error.{Result, ok, err}
use pingcast.Domain.User.{User}
use pingcast.Domain.Channel.{telegram}
use pingcast.Store.World.{Env, UserRow}
use pingcast.Store.Exec.{Exec, ◌>>=◌, ◌>>◌, pure, attempt, wrapping}
use pingcast.Store.Users
use pingcast.Accounts.Auth.{upgrade_to_pro, downgrade_to_free}
use pingcast.Accounts.Billing.{tag_from_webhook}
use pingcast.Alerts.Delivery.{Senders}
use pingcast.Alerts.Manage.{create_channel}

pub record LemonSqueezyWebhook : Type 0 where
  pub event_name : Text
  pub customer_id : ℤ
  pub status : Text
  pub user_email : Text
  pub variant_id : ℤ
  pub id : Text

pub record TelegramUpdate : Type 0 where
  pub chat_id : ℤ
  pub text : Text

-- The settings of the handler, and the libraries that it uses: the HMAC of a payload under a secret,
-- in hexadecimal, the two JSON decoders, the parser of an identifier, and the JSON of a chat.
pub record WebhookHandler : Type 0 where
  pub secret : Text
  pub founder_variant_id : Text
  pub telegram_bot_token : Text
  pub founder_cap : ℕ
  pub hmac : Text → Text → Text
  pub parse : Text → Option LemonSqueezyWebhook
  pub parse_update : Text → Option TelegramUpdate
  pub parse_uuid : Text → Option ℕ
  pub chat_config : ℤ → Text

-- `fmt.Sprintf("%d", n)`.
unfoldable pub show_int : ℤ → Text
unfolding decimal
show_int (pos n) = decimal n
show_int (negsuc n) = 45 ∷ decimal (suc n)

unfoldable pub verify_signature : WebhookHandler → Text → Text → Bool
verify_signature h payload signature = text_eq (h.hmac h.secret payload) signature

unfoldable pub get_user_by_email : Env → Text → Exec UserRow
get_user_by_email env email = wrapping "user not found: %w" (Users.get_by_email env email)

unfoldable pub requested_variant : WebhookHandler → LemonSqueezyWebhook → Text
unfolding show_int
requested_variant h wh =
    if not (is_empty h.founder_variant_id) && text_eq (show_int wh.variant_id) h.founder_variant_id
    then codes "founder"
    else codes "retail"

-- The plan, and after it the variant, of which an error is logged.
abbrev tagged : Env → WebhookHandler → ℕ → LemonSqueezyWebhook → Result (Unit {0}) → Exec ℕ
tagged env h user_id wh (err e) = pure 500
tagged env h user_id wh (ok u) = do
  attempt (tag_from_webhook env h.founder_cap user_id (requested_variant h wh))
  pure 200

abbrev cancelled : Result (Unit {0}) → Exec ℕ
cancelled (err e) = pure 500
cancelled (ok u) = pure 200

abbrev pub is_active_event : LemonSqueezyWebhook → Bool
is_active_event wh =
    text_eq wh.event_name (codes "subscription_created")
    || text_eq wh.event_name (codes "subscription_updated")

-- The switch on the name of the event.
unfoldable pub on_event : Env → WebhookHandler → ℕ → LemonSqueezyWebhook → Exec ℕ
unfolding requested_variant
on_event env h user_id wh =
    if is_active_event wh
    then (if text_eq wh.status (codes "active")
        then (do
          r ← attempt (upgrade_to_pro env user_id (show_int wh.customer_id) wh.id)
          tagged env h user_id wh r)
        else pure 200)
    else if text_eq wh.event_name (codes "subscription_cancelled")
    then (do r ← attempt (downgrade_to_free env user_id); cancelled r)
    else pure 200

-- A user who is not found is logged.
abbrev for_user : Env → WebhookHandler → LemonSqueezyWebhook → Result UserRow → Exec ℕ
for_user env h wh (err e) = pure 200
for_user env h wh (ok row) = on_event env h row.user.id wh

abbrev decoded : Env → WebhookHandler → Option LemonSqueezyWebhook → Exec ℕ
decoded env h none = pure 400
decoded env h (some wh) = do r ← attempt (get_user_by_email env wh.user_email); for_user env h wh r

unfoldable pub handle_lemon_squeezy : Env → WebhookHandler → Text → Text → Exec ℕ
unfolding verify_signature on_event get_user_by_email
handle_lemon_squeezy env h body sig =
    if is_empty h.secret
    then pure 503
    else if not (verify_signature h body sig)
    then pure 401
    else decoded env h (h.parse body)

abbrev bound : Env → Senders → WebhookHandler → ℤ → Option ℕ → Exec ℕ
bound env s h chat_id none = pure 200
bound env s h chat_id (some user_id) = do
  attempt (
      create_channel env s user_id (record {
        name = codes "Telegram " ++ show_int chat_id;
        type = telegram;
        config = h.chat_config chat_id;
      }))
  pure 200

abbrev started : Env → Senders → WebhookHandler → ℤ → Option Text → Exec ℕ
started env s h chat_id none = pure 200
started env s h chat_id (some user) = bound env s h chat_id (h.parse_uuid user)

abbrev updated : Env → Senders → WebhookHandler → Option TelegramUpdate → Exec ℕ
updated env s h none = pure 400
updated env s h (some u) = started env s h u.chat_id (cut_prefix u.text (codes "/start "))

unfoldable pub handle_telegram_webhook : Env → Senders → WebhookHandler → Text → Text → Exec ℕ
unfolding show_int
handle_telegram_webhook env s h token body =
    if is_empty h.telegram_bot_token
    then pure 401
    else if not (text_eq token h.telegram_bot_token)
    then pure 401
    else updated env s h (h.parse_update body)
