-- ===== src/Alerts/Delivery.antt =====
-- internal/app/alert.go: `Handle` and `writeToDLQ`. The senders run in parallel, and each reports
-- under a mutex, so what matters of their interleaving is the order in which they report: an
-- argument, which returns the enabled channels in that order.
pub mod Outcome
pub mod Handled
use pingcast.Prelude.{
  ℕ, suc, ◌+◌, String, ltb, ◌==◌, Bool, true, false, ◌&&◌, if◌then◌else◌, Option, none, some, List,
  [], ◌∷◌, ◌++◌, keep, Text,
}
use pingcast.Error.{Error, errorf, as_delivery_error, Result, ok, err}
use pingcast.Domain.Channel.{ChannelType, NotificationChannel}
use pingcast.Domain.Monitor.{AlertEvent}
use pingcast.Store.World.{
  World, Env, FailedAlert, alert_sent, alert_all_failed, alert_dead_lettered,
}
use pingcast.Store.Exec.{Exec, ◌>>=◌, ◌>>◌, pure, throw, wrapping, attempt, count_metric}
use pingcast.Store.Channels
use pingcast.Store.FailedAlerts

-- `port.AlertSender`: `none` is a nil error.
abbrev pub Sender : Type 0
Sender = AlertEvent → Option Error

-- The overrides of the service and its registry (internal/adapter/channel). A sender carries the
-- retries and the circuit breaker of its channel; within a call each channel is sent to once.
pub record Senders : Type 0 where
  pub send_overrides : ChannelType → Option Sender
  pub create_sender : ChannelType → ℕ → Text → Result Sender
  pub validate_config : ChannelType → Text → Option Error

-- The variables that the senders share.
pub record Tally : Type 0 where
  pub sent : ℕ
  pub failed : ℕ
  pub failed_ids : List ℕ

abbrev pub or_unknown : Option String → String
or_unknown none = "unknown"
or_unknown (some reason) = reason

unfoldable pub delivery_reason : Error → String
delivery_reason e = or_unknown (as_delivery_error e)

abbrev pub sender_of : Senders → NotificationChannel → Result Sender
sender_of s ch = elim (s.send_overrides ch.type) [
  | some override ↦ ok override
  | none ↦ s.create_sender ch.type ch.id ch.config
]

abbrev pub add_failed : ℕ → Tally → Tally
add_failed id t = record {
  sent = t.sent;
  failed = suc t.failed;
  failed_ids = t.failed_ids ++ (id ∷ []);
}

abbrev pub add_sent : Tally → Tally
add_sent t = record { sent = suc t.sent; failed = t.failed; failed_ids = t.failed_ids }

-- The event is handed to the sender of the channel.
unfoldable pub hand_over : ℕ → AlertEvent → Exec (Unit {0})
hand_over id ev w = (ok tt, record w { sends = (id, ev) ∷ w.sends })

abbrev pub reported : Env → NotificationChannel → Tally → Option Error → Exec Tally
unfolding delivery_reason
reported env ch t none = count_metric env (alert_sent ch.type true "") >> pure (add_sent t)
reported env ch t (some e) =
    count_metric env (alert_sent ch.type false (delivery_reason e)) >> pure (add_failed ch.id t)

abbrev pub used : Env → NotificationChannel → AlertEvent → Tally → Result Sender → Exec Tally
unfolding hand_over
used env ch ev t (ok send) = hand_over ch.id ev >> reported env ch t (send ev)
used env ch ev t (err e) =
    count_metric env (alert_sent ch.type false "config_error") >> pure (add_failed ch.id t)

-- The function that is run for each enabled channel.
unfoldable pub deliver : Env → Senders → AlertEvent → NotificationChannel → Tally → Exec Tally
unfolding delivery_reason hand_over
deliver env s ev ch t = used env ch ev t (sender_of s ch)

unfoldable pub deliver_all :
    Env → Senders → AlertEvent → List NotificationChannel → Tally → Exec Tally
deliver_all env s ev [] t = pure t
deliver_all env s ev (ch ∷ chs) t = do t' ← deliver env s ev ch t; deliver_all env s ev chs t'

-- What the row of a failed write holds; the event is stored as JSON, which never fails for it.
abbrev pub dead_letter : AlertEvent → Tally → FailedAlert
dead_letter ev t = record {
  event = ev;
  failed = t.failed;
  total = t.sent + t.failed;
  failed_channel_ids = t.failed_ids;
}

-- The attempts that are left; an error of one is logged, and the last one gives up.
unfoldable pub write_attempts : Env → FailedAlert → List ℕ → Exec (Unit {0})
write_attempts env row [] = pure tt
write_attempts env row (n ∷ ns) =
    let rest = write_attempts env row ns in
    do
      r ← attempt (FailedAlerts.create env n row)
      elim r [ ok _ ↦ count_metric env alert_dead_lettered | err e ↦ rest ]

unfoldable pub write_to_dlq : Env → AlertEvent → Tally → Exec (Unit {0})
unfolding write_attempts
write_to_dlq env ev t = write_attempts env (dead_letter ev t) (1 ∷ 2 ∷ 3 ∷ [])

-- What follows `g.Wait()`.
unfoldable pub finish : Env → AlertEvent → Tally → Exec (Unit {0})
finish env ev t =
    if (t.sent == 0) && ltb 0 t.failed
    then (do
      count_metric env alert_all_failed
      throw (errorf "all %d channels failed for monitor %s"))
    else if ltb 0 t.failed
    then write_to_dlq env ev t
    else pure tt

abbrev pub no_tally : Tally
no_tally = record { sent = 0; failed = 0; failed_ids = [] }

abbrev pub enabled : List NotificationChannel → List NotificationChannel
enabled = keep (λ ch. ch.is_enabled)

abbrev pub Order : Type 0
Order = List NotificationChannel → List NotificationChannel

-- Without a channel there is nothing to do.
unfoldable pub send_all :
    Env → Senders → Order → AlertEvent → List NotificationChannel → Exec (Unit {0})
send_all env s order ev [] = pure tt
send_all env s order ev (ch ∷ chs) = do
  t ← deliver_all env s ev (order (enabled (ch ∷ chs))) no_tally
  finish env ev t

-- The user's channels, if the monitor has none.
abbrev pub or_users : Env → AlertEvent → List NotificationChannel → Exec (List NotificationChannel)
or_users env ev [] = wrapping "list channels for user %s: %w" (Channels.list_by_user env ev.user_id)
or_users env ev (ch ∷ chs) = pure (ch ∷ chs)

unfoldable pub handle : Env → Senders → Order → AlertEvent → Exec (Unit {0})
handle env s order ev = do
  bound ← wrapping "list channels for monitor %s: %w" (Channels.list_for_monitor env ev.monitor_id)
  channels ← or_users env ev bound
  send_all env s order ev channels
