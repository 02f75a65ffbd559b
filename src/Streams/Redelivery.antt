-- ===== src/Streams/Redelivery.antt =====
-- An alert that the broker delivers again has reached nobody yet.
use pingcast.Prelude.{ℕ, Option, none, some, List, count, sym, ap, ◌∙◌, Text, ◌≡◌, refl, arith}
use mathlib.Core.List.{Permᴰ}
use pingcast.Error.{Result, ok, err}
use pingcast.Domain.Channel.{NotificationChannel}
use pingcast.Domain.Monitor.{AlertEvent}
use pingcast.Store.World.{World, Env, list_for_monitor, list_by_user}
use pingcast.Store.Exec.{Exec}
use pingcast.Alerts.Delivery.{Senders, Order, handle}
use pingcast.Alerts.Delivery.Outcome.{works, fails, all_failed}
use pingcast.Alerts.Delivery.Handled.{recipients, handle-Handled}
use pingcast.Streams.{Answer, nak, answered, on_message, on_alert}

refused :
    (r : Result (Unit {0}) × World) (sent failed : ℕ)
    → r.0 ≡ all_failed sent failed
    → (answered nak r).0 ≡ nak
    → sent ≡ 0
refused (ok done, w) sent failed e h = cc
refused (err x, w) sent failed e h = ground (arith, e)

on_message-some :
    {A : Type 0} (refusal : Answer) (unmarshal : Text → Option A) (handler : A → Exec (Unit {0}))
    (payload : Text) (a : A) (w : World)
    → unmarshal payload ≡ some a
    → on_message refusal unmarshal handler payload w ≡ answered refusal (handler a w)
unfolding on_message
on_message-some refusal unmarshal handler payload a w u = rw (u, on_message) refl

answered-db : (refusal : Answer) (r : Result (Unit {0}) × World) → (answered refusal r).1 ≡ r.1
answered-db refusal (ok done, w) = refl
answered-db refusal (err e, w) = refl

-- If the lists of channels can be read, then an alert that the subscription refuses has been sent to no
-- channel with success, so that its next delivery repeats no message, and the tables are as before.
pub on_alert-nak :
    (unmarshal : Text → Option AlertEvent) (env : Env) (s : Senders) (order : Order)
    (payload : Text) (ev : AlertEvent) (w : World)
    → ((xs : List NotificationChannel) → Permᴰ (order xs) xs)
    → env.fault list_for_monitor ≡ none
    → env.fault list_by_user ≡ none
    → unmarshal payload ≡ some ev
    → (on_alert unmarshal env s order payload w).0 ≡ nak
    → (count (works s ev) (recipients ev w.db) ≡ 0)
      × ((on_alert unmarshal env s order payload w).1.db ≡ w.db)
unfolding on_alert
on_alert-nak unmarshal env s order payload ev w d f f' u h =
    let (ids, _, result, left) = handle-Handled env s order ev w d f f' in
    let r = handle env s order ev w in
    let is : on_alert unmarshal env s order payload w ≡ answered nak r =
      on_message-some nak unmarshal (handle env s order) payload ev w u in
    let none_sent : count (works s ev) (recipients ev w.db) ≡ 0 =
      refused r (count (works s ev) (recipients ev w.db)) (count (fails s ev) (recipients ev w.db))
        result (ap (λ x. x.0) (sym is) ∙ h) in
    (none_sent, ap (λ x. x.1.db) is ∙ ap (λ x. x.db) (answered-db nak r) ∙ left ∙ rw none_sent refl)
