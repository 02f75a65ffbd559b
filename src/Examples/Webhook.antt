-- ===== src/Examples/Webhook.antt =====
-- The theorems about the webhooks, on sample requests.
use pingcast.Prelude.{is_empty, false, true, none, some, [], codes, text_eq, ◌≡◌, refl}
use pingcast.Prelude.Int.{pos}
use pingcast.Domain.User.{free, pro}
use pingcast.Store.Exec.{◌>>=◌}
use pingcast.Store.Users
use pingcast.Accounts.Auth.{upgrade_to_pro}
use pingcast.Http.Webhook.{
  WebhookHandler, LemonSqueezyWebhook, handle_lemon_squeezy, on_event, verify_signature,
  get_user_by_email, is_active_event,
}
use pingcast.Http.Webhook.Payment.{HasPlan, handle_lemon_squeezy-plan}
use pingcast.Examples.Data.{env}
use pingcast.Examples.Accounts.{members, ann_row}

abbrev paid : LemonSqueezyWebhook
paid = record {
  event_name = codes "subscription_created";
  customer_id = pos 5;
  status = codes "active";
  user_email = codes "ann@example.org";
  variant_id = pos 12;
  id = codes "77";
}

-- A signature that is the body itself.
abbrev handler : WebhookHandler
handler = record {
  secret = codes "s";
  founder_variant_id = codes "12";
  telegram_bot_token = codes "t";
  founder_cap = 1;
  hmac = λ secret body. body;
  parse = λ body. some paid;
  parse_update = λ body. none;
  parse_uuid = λ s. none;
  chat_config = λ id. [];
}

handle_lemon_squeezy-plan_example :
    let users = (handle_lemon_squeezy env handler [] [] members).1.db.users in
    (is_active_event paid ≡ true
      → text_eq paid.status (codes "active") ≡ true
      → HasPlan 1 pro users)
    × (paid.event_name ≡ codes "subscription_cancelled" → HasPlan 1 free users)
    × (is_empty handler.secret ≡ false)
    × (handler.hmac handler.secret [] ≡ [])
unfolding handle_lemon_squeezy verify_signature get_user_by_email on_event Users.get_by_email
    upgrade_to_pro Users.update_plan Users.update_lemon_squeezy ◌>>=◌
handle_lemon_squeezy-plan_example =
    handle_lemon_squeezy-plan env handler [] [] members paid ann_row refl refl refl
