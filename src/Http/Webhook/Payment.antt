-- ===== src/Http/Webhook/Payment.antt =====
-- What an answer to the payment provider says about the plan of the user.
use pingcast.Prelude.Lists.Where.{All-update_where}
use pingcast.Store.Exec.Keeps.{
  Keeps, Keeps-call, Keeps-bind, Keeps-if, Keeps-pure, Keeps-transaction,
}
use pingcast.Prelude.{
  All, Option-cases, sym, ap, ◌∙◌, ℕ, Bool, true, false, some, List, [], ◌∷◌, update_where, Text,
  codes, text_eq, text_eq_iff, is_empty, ◌≡◌, refl, arith, Bool-cases, inl, inr,
}
use pingcast.Error.{Result, ok, err}
use pingcast.Domain.User.{Plan, free, pro}
use pingcast.Store.World.{World, Env, UserRow}
use pingcast.Store.World
use pingcast.Store.Exec.{◌>>=◌}
use pingcast.Store.Users
use pingcast.Store.Users.{is_live}
use pingcast.Accounts.Auth.{upgrade_to_pro, downgrade_to_free}
use pingcast.Accounts.Billing.{tag_from_webhook, choose}
use pingcast.Store.Exec.Reads.{Reads, Reads-call, Reads-wrapping, after_ok}
use pingcast.Http.Webhook
use pingcast.Http.Webhook.{
  WebhookHandler, LemonSqueezyWebhook, handle_lemon_squeezy, on_event, verify_signature,
  get_user_by_email, is_active_event, requested_variant, show_int, handle_telegram_webhook,
}

-- Every live row of the user has the plan.
abbrev pub HasPlan : ℕ → Plan → List UserRow → Type 0
HasPlan id plan = All (λ row. is_live id row ≡ true → row.user.plan ≡ plan)

abbrev OnPlan : ℕ → Plan → World → Type 0
OnPlan id plan w = HasPlan id plan w.db.users

update_plan-HasPlan :
    (env : Env) (id : ℕ) (plan : Plan) (w : World)
    → (Users.update_plan env id plan w).0 ≡ ok tt
    → OnPlan id plan (Users.update_plan env id plan w).1
unfolding Users.update_plan ◌>>=◌
update_plan-HasPlan env id plan w h = elim (Option-cases (env.fault World.Op.update_plan)) [
  | inl e ↦ rw e (all_set w.db.users)
  | inr e ↦ absurd (ground (arith, e.1))
]
  where
    all_set :
        (rows : List UserRow)
        → HasPlan id plan (
            update_where
              (is_live id)
              (λ row. record row { user = record row.user { plan = plan } })
              rows)
    all_set [] = tt
    all_set (row ∷ rows) = (
      elim (Bool-cases (is_live id row)) [
        | inl e ↦ rw e (λ h. refl)
        | inr e ↦ rw e (λ h. absurd (ground arith))
      ],
      all_set rows,
    )

module _ (id : ℕ) (plan : Plan) (env : Env) where
  keeps_users :
      (q : UserRow → Bool) (f : UserRow → UserRow)
      → ((row : UserRow) → ((f row).user ≡ row.user) × ((f row).deleted ≡ row.deleted))
      → (rows : List UserRow) → HasPlan id plan rows
      → HasPlan id plan (update_where q f rows)
  keeps_users q f same rows =
      All-update_where (λ row. is_live id row ≡ true → row.user.plan ≡ plan) q f rows
        (λ row h live. ground (arith, h, same row))

  update_lemon_squeezy-OnPlan :
      (c s : Text) → Keeps (OnPlan id plan) (Users.update_lemon_squeezy env id c s)
  unfolding Users.update_lemon_squeezy
  update_lemon_squeezy-OnPlan c s =
      Keeps-call env _ _ (record { at = λ w h. keeps_users _ _ (λ row. (refl, refl)) w.db.users h })

  tag_from_webhook-OnPlan :
      (cap : ℕ) (v : Text) → Keeps (OnPlan id plan) (tag_from_webhook env cap id v)
  unfolding tag_from_webhook choose Users.set_subscription_variant Users.acquire_founder_cap_lock
      Users.count_active_founders
  tag_from_webhook-OnPlan cap v =
      Keeps-transaction env _ (record { holds = λ w w' e h. rw (sym e) h })
        (Keeps-bind _ _
          (Keeps-if _ _ _
            (Keeps-bind _ _ (Keeps-call env _ _ (record { at = λ w h. h }))
              λ _. Keeps-bind _ _ (Keeps-call env _ _ (record { at = λ w h. h })) λ _. Keeps-pure _)
            (Keeps-pure v))
          λ chosen.
            Keeps-bind _ _
              (Keeps-call env _ _
                (record { at = λ w h. keeps_users _ _ (λ row. (refl, refl)) w.db.users h }))
              λ _. Keeps-pure _)

upgrade-OnPlan :
    (env : Env) (id : ℕ) (c s : Text) (w : World)
    → (upgrade_to_pro env id c s w).0 ≡ ok tt
    → OnPlan id pro (upgrade_to_pro env id c s w).1
unfolding upgrade_to_pro
upgrade-OnPlan env id c s w =
    after_ok (λ r. OnPlan id pro r.1) (Users.update_plan env id pro) _ w tt
      (λ u e h.
        (update_lemon_squeezy-OnPlan id pro env c s).at _ (update_plan-HasPlan env id pro w e))

downgrade-OnPlan :
    (env : Env) (id : ℕ) (w : World)
    → (downgrade_to_free env id w).0 ≡ ok tt
    → OnPlan id free (downgrade_to_free env id w).1
unfolding downgrade_to_free
downgrade-OnPlan env id w h = update_plan-HasPlan env id free w h

-- The end of the branch of an active subscription.
active-OnPlan :
    (env : Env) (h : WebhookHandler) (id : ℕ) (wh : LemonSqueezyWebhook) (r : Result (Unit {0}))
    (w : World)
    → (r ≡ ok tt → OnPlan id pro w)
    → (Webhook.tagged env h id wh r w).0 ≡ ok 200
    → OnPlan id pro (Webhook.tagged env h id wh r w).1
unfolding ◌>>=◌
active-OnPlan env h id wh (ok tt) w k e =
    (tag_from_webhook-OnPlan id pro env h.founder_cap (requested_variant h wh)).at w (k refl)
active-OnPlan env h id wh (err x) w k e = absurd (ground arith)

cancelled-OnPlan :
    (id : ℕ) (r : Result (Unit {0})) (w : World)
    → (r ≡ ok tt → OnPlan id free w)
    → (Webhook.cancelled r w).0 ≡ ok 200
    → OnPlan id free (Webhook.cancelled r w).1
unfolding ◌>>=◌
cancelled-OnPlan id (ok tt) w k e = k refl
cancelled-OnPlan id (err x) w k e = absurd (ground arith)

module _ (env : Env) (h : WebhookHandler) (id : ℕ) (wh : LemonSqueezyWebhook) (w : World) where
  active_branch :
      is_active_event wh ≡ true
      → text_eq wh.status (codes "active") ≡ true
      → let (r, w') = upgrade_to_pro env id (show_int wh.customer_id) wh.id w in
        on_event env h id wh w ≡ Webhook.tagged env h id wh r w'
  unfolding on_event ◌>>=◌
  active_branch active is = ground (arith, active, is)

  cancelled_branch :
      wh.event_name ≡ codes "subscription_cancelled"
      → let (r, w') = downgrade_to_free env id w in on_event env h id wh w ≡ Webhook.cancelled r w'
  unfolding on_event ◌>>=◌
  cancelled_branch c = rw c refl

  on_event-OnPlan :
      (on_event env h id wh w).0 ≡ ok 200
      → (is_active_event wh ≡ true
          → text_eq wh.status (codes "active") ≡ true
          → OnPlan id pro (on_event env h id wh w).1)
        × (wh.event_name ≡ codes "subscription_cancelled"
            → OnPlan id free (on_event env h id wh w).1)
  on_event-OnPlan e = (
    λ active is.
        let c = show_int wh.customer_id in
        let b = active_branch active is in
        rw b (
          active-OnPlan env h id wh (upgrade_to_pro env id c wh.id w).0
            (upgrade_to_pro env id c wh.id w).1 (upgrade-OnPlan env id c wh.id w)
            (ap (λ r. r.0) (sym b) ∙ e)),
    λ cancel.
        let b = cancelled_branch cancel in
        rw b (
          cancelled-OnPlan id (downgrade_to_free env id w).0 (downgrade_to_free env id w).1
            (downgrade-OnPlan env id w) (ap (λ r. r.0) (sym b) ∙ e)),
  )

get_user_by_email-Reads : (env : Env) (email : Text) → Reads (get_user_by_email env email)
unfolding get_user_by_email Users.get_by_email
get_user_by_email-Reads env email =
    Reads-wrapping _ _ (Reads-call env _ _ (record { same = λ w. ground arith }))

handled :
    (env : Env) (h : WebhookHandler) (body sig : Text) (w : World) (wh : LemonSqueezyWebhook)
    (row : UserRow)
    → h.parse body ≡ some wh
    → get_user_by_email env wh.user_email w ≡ (ok row, w)
    → (handle_lemon_squeezy env h body sig w).0 ≡ ok 200
    → handle_lemon_squeezy env h body sig w ≡ on_event env h row.user.id wh w
unfolding handle_lemon_squeezy ◌>>=◌
handled env h body sig w wh row p g e = ground (arith, p, g, e)

-- Without a secret the answer is 503, and with another signature 401.
handled-signed :
    (env : Env) (h : WebhookHandler) (body sig : Text) (w : World)
    → (handle_lemon_squeezy env h body sig w).0 ≡ ok 200
    → (is_empty h.secret ≡ false) × (h.hmac h.secret body ≡ sig)
unfolding handle_lemon_squeezy verify_signature ◌>>=◌
handled-signed env h body sig w e =
    (ground (arith, e), (text_eq_iff (h.hmac h.secret body) sig).0 (ground (arith, e)))

plan_written :
    (env : Env) (h : WebhookHandler) (body sig : Text) (w : World) (wh : LemonSqueezyWebhook)
    (row : UserRow)
    → h.parse body ≡ some wh
    → (get_user_by_email env wh.user_email w).0 ≡ ok row
    → (handle_lemon_squeezy env h body sig w).0 ≡ ok 200
    → let users = (handle_lemon_squeezy env h body sig w).1.db.users in
      (is_active_event wh ≡ true
        → text_eq wh.status (codes "active") ≡ true
        → HasPlan row.user.id pro users)
      × (wh.event_name ≡ codes "subscription_cancelled" → HasPlan row.user.id free users)
plan_written env h body sig w wh row p g e =
    let read = (get_user_by_email-Reads env wh.user_email).same w in
    let b = handled env h body sig w wh row p (ground (arith, g, read)) e in
    rw b (on_event-OnPlan env h row.user.id wh w (ap (λ r. r.0) (sym b) ∙ e))

-- An answer 200 to an event of a user who is found says that the event was signed under the secret, and
-- that the plan is written: the user is on the plan `pro` after an event of an active subscription,
-- whatever becomes of its variant, and on the plan `free` after that of a cancelled one. Nothing is
-- said of an event of a user who is not found, which is answered with 200 too.
pub handle_lemon_squeezy-plan :
    (env : Env) (h : WebhookHandler) (body sig : Text) (w : World) (wh : LemonSqueezyWebhook)
    (row : UserRow)
    → h.parse body ≡ some wh
    → (get_user_by_email env wh.user_email w).0 ≡ ok row
    → (handle_lemon_squeezy env h body sig w).0 ≡ ok 200
    → let users = (handle_lemon_squeezy env h body sig w).1.db.users in
      (is_active_event wh ≡ true
        → text_eq wh.status (codes "active") ≡ true
        → HasPlan row.user.id pro users)
      × (wh.event_name ≡ codes "subscription_cancelled" → HasPlan row.user.id free users)
      × (is_empty h.secret ≡ false)
      × (h.hmac h.secret body ≡ sig)
handle_lemon_squeezy-plan env h body sig w wh row p g e =
    let (active, cancel) = plan_written env h body sig w wh row p g e in
    let (is_set, signed) = handled-signed env h body sig w e in (active, cancel, is_set, signed)
