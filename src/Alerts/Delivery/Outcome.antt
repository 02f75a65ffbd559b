-- ===== src/Alerts/Delivery/Outcome.antt =====
-- What `Handle` returns and records, whatever the order in which the senders report.
use pingcast.Prelude.{
  ℕ, ◌+◌, ltb, ◌==◌, Bool, true, false, not, ◌&&◌, if◌then◌else◌, none, some, List, [], ◌∷◌, ◌++◌,
  map, keep, any, count, ◌≡◌, refl, sym, ◌∙◌, arith, Bool-cases, inl, inr,
}
use mathlib.Core.List.{append_assoc, append-nil}
use pingcast.Error.{Result, ok, err, errorf}
use pingcast.Domain.Channel.{NotificationChannel}
use pingcast.Domain.Monitor.{AlertEvent}
use pingcast.Store.World.{World, Env, Db, FailedAlert, create_failed_alert}
use pingcast.Store.FailedAlerts
use pingcast.Store.Exec.{◌>>=◌}
use pingcast.Alerts.Delivery.{
  Senders, Sender, Tally, sender_of, add_sent, add_failed, deliver, deliver_all, finish,
  write_to_dlq, dead_letter, write_attempts,
}

-- The channel has a sender, and its sending returns no error.
abbrev pub sends : Result Sender → AlertEvent → Bool
sends (err e) ev = false
sends (ok send) ev = elim (send ev) [ none ↦ true | some e ↦ false ]

abbrev pub works : Senders → AlertEvent → NotificationChannel → Bool
works s ev ch = sends (sender_of s ch) ev

abbrev pub fails : Senders → AlertEvent → NotificationChannel → Bool
fails s ev ch = not (works s ev ch)

deliver-tally :
    (env : Env) (s : Senders) (ev : AlertEvent) (ch : NotificationChannel) (t : Tally) (w : World)
    → (deliver env s ev ch t w).0 ≡ ok (if works s ev ch then add_sent t else add_failed ch.id t)
unfolding deliver ◌>>=◌
deliver-tally env s ev ch t w = ground arith

deliver-db :
    (env : Env) (s : Senders) (ev : AlertEvent) (ch : NotificationChannel) (t : Tally) (w : World)
    → (deliver env s ev ch t w).1.db ≡ w.db
unfolding deliver ◌>>=◌
deliver-db env s ev ch t w = ground arith

abbrev pub tallied : Senders → AlertEvent → List NotificationChannel → Tally → Tally
tallied s ev [] t = t
tallied s ev (ch ∷ chs) t =
    tallied s ev chs (if works s ev ch then add_sent t else add_failed ch.id t)

pub deliver_all-tallied :
    (env : Env) (s : Senders) (ev : AlertEvent) (chs : List NotificationChannel) (t : Tally)
    (w : World)
    → ((deliver_all env s ev chs t w).0 ≡ ok (tallied s ev chs t))
      × ((deliver_all env s ev chs t w).1.db ≡ w.db)
unfolding deliver_all ◌>>=◌
deliver_all-tallied env s ev [] t w = (refl, refl)
deliver_all-tallied env s ev (ch ∷ chs) t w =
    let t' = if works s ev ch then add_sent t else add_failed ch.id t in
    let w' = (deliver env s ev ch t w).1 in
    let (tally, same) = deliver_all-tallied env s ev chs t' w' in
    (
      rw (deliver-tally env s ev ch t w) tally,
      rw (deliver-tally env s ev ch t w) (same ∙ deliver-db env s ev ch t w),
    )

pub tallied-sent :
    (s : Senders) (ev : AlertEvent) (chs : List NotificationChannel) (t : Tally)
    → (tallied s ev chs t).sent ≡ t.sent + count (works s ev) chs
tallied-sent s ev [] t = omega arith
tallied-sent s ev (ch ∷ chs) t =
    ground (arith, tallied-sent s ev chs (if works s ev ch then add_sent t else add_failed ch.id t))

pub tallied-failed :
    (s : Senders) (ev : AlertEvent) (chs : List NotificationChannel) (t : Tally)
    → (tallied s ev chs t).failed ≡ t.failed + count (fails s ev) chs
tallied-failed s ev [] t = omega arith
tallied-failed s ev (ch ∷ chs) t =
    ground
      (arith, tallied-failed s ev chs (if works s ev ch then add_sent t else add_failed ch.id t))

abbrev pub ids_of : Senders → AlertEvent → List NotificationChannel → List ℕ
ids_of s ev chs = map (λ ch. ch.id) (keep (fails s ev) chs)

pub tallied-ids :
    (s : Senders) (ev : AlertEvent) (chs : List NotificationChannel) (t : Tally)
    → (tallied s ev chs t).failed_ids ≡ t.failed_ids ++ ids_of s ev chs
tallied-ids s ev [] t = sym (append-nil t.failed_ids)
tallied-ids s ev (ch ∷ chs) t =
    let t' = if works s ev ch then add_sent t else add_failed ch.id t in
    tallied-ids s ev chs t' ∙ elim (Bool-cases (works s ev ch)) [
      | inl e ↦ rw e refl
      | inr e ↦ rw e (append_assoc t.failed_ids (ch.id ∷ []) (ids_of s ev chs))
    ]

-- One of the three attempts at writing a dead letter is not hit by a fault.
abbrev pub writes : Env → Bool
writes env =
    any (λ n. elim (env.fault (create_failed_alert n)) [ none ↦ true | some e ↦ false ])
      (1 ∷ 2 ∷ 3 ∷ [])

-- The tables with a dead letter in front.
abbrev pub with_letter : FailedAlert → Db → Db
with_letter row db = record db { failed_alerts = row ∷ db.failed_alerts }

abbrev pub all_failed : ℕ → ℕ → Result (Unit {0})
all_failed sent failed =
    if (sent == 0) && ltb 0 failed
    then err (errorf "all %d channels failed for monitor %s")
    else ok tt

abbrev pub lettered : Env → FailedAlert → ℕ → ℕ → Db → Db
lettered env row sent failed db =
    if ltb 0 sent && ltb 0 failed && writes env then with_letter row db else db

write-lettered :
    (env : Env) (ev : AlertEvent) (t : Tally) (w : World)
    → ((write_to_dlq env ev t w).0 ≡ ok tt)
      × ((write_to_dlq env ev t w).1.db
          ≡ (if writes env then with_letter (dead_letter ev t) w.db else w.db))
unfolding write_to_dlq write_attempts FailedAlerts.create ◌>>=◌
write-lettered env ev t w = (ground arith, ground arith)

pub finish-lettered :
    (env : Env) (ev : AlertEvent) (t : Tally) (w : World)
    → ((finish env ev t w).0 ≡ all_failed t.sent t.failed)
      × ((finish env ev t w).1.db ≡ lettered env (dead_letter ev t) t.sent t.failed w.db)
unfolding finish ◌>>=◌
finish-lettered env ev t w =
    let (done, left) = write-lettered env ev t w in (ground (arith, done), ground (arith, left))
