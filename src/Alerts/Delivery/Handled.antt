-- ===== src/Alerts/Delivery/Handled.antt =====
-- The contract of `Handle`: its result and its dead letter depend on the channels only, not on the
-- order in which their senders report.
use pingcast.Prelude.{
  ℕ, ◌==◌, ◌+◌, Bool, not, ◌&&◌, none, List, [], ◌∷◌, map, keep, any, count, length, ◌≡◌, refl, sym,
  subst, ap, ◌∙◌, arith, Bool-cases, inl, inr,
}
use mathlib.Core.List.{Permᴰ}
use mathlib.Core.List.Permᴰ
use pingcast.Error.{Result}
use pingcast.Domain.Channel.{NotificationChannel}
use pingcast.Domain.Monitor.{AlertEvent}
use pingcast.Store.World.{World, Env, Db, list_for_monitor, list_by_user}
use pingcast.Store.Exec.{◌>>=◌}
use pingcast.Store.Channels
use pingcast.Store.Channels.{is_binding}
use pingcast.Alerts.Delivery.{
  Senders, deliver_all, no_tally, enabled, Order, send_all, handle, finish,
}
use pingcast.Alerts.Delivery.Outcome.{
  works, fails, ids_of, tallied, deliver_all-tallied, tallied-sent, tallied-failed, tallied-ids,
  finish-lettered, all_failed, lettered,
}

-- Permutations, and what they leave of a list.
module _ {A : Type 0} where
  count-Permᴰ : {xs ys : List A} (p : A → Bool) → Permᴰ xs ys → count p xs ≡ count p ys
  count-Permᴰ p Permᴰ.nil = refl
  count-Permᴰ p (Permᴰ.cons e d) = rw e (ground (arith, count-Permᴰ p d))
  count-Permᴰ p (Permᴰ.swap e e') = rw (e, e') (ground arith)
  count-Permᴰ p (Permᴰ.trans d d') = count-Permᴰ p d ∙ count-Permᴰ p d'

  keep-Permᴰ : {xs ys : List A} (p : A → Bool) → Permᴰ xs ys → Permᴰ (keep p xs) (keep p ys)
  keep-Permᴰ p Permᴰ.nil = Permᴰ.nil
  keep-Permᴰ p (Permᴰ.cons {a} {b} e d) = rw e (elim (Bool-cases (p b)) [
    | inl h ↦ rw h (Permᴰ.cons refl (keep-Permᴰ p d))
    | inr h ↦ rw h (keep-Permᴰ p d)
  ])
  keep-Permᴰ p (Permᴰ.swap {a' = a'} {b' = b'} {l = l} e e') =
      rw (e, e')
        (elim (Bool-cases (p a')) [
          | inl h ↦ elim (Bool-cases (p b')) [
            | inl h' ↦ rw (h, h') (Permᴰ.swap refl refl)
            | inr h' ↦ rw (h, h') (Permᴰ.refl _)
          ]
          | inr h ↦ rw h (Permᴰ.refl _)
        ])
  keep-Permᴰ p (Permᴰ.trans d d') = Permᴰ.trans (keep-Permᴰ p d) (keep-Permᴰ p d')

  map-Permᴰ : {B : Type 0} {xs ys : List A} (f : A → B) → Permᴰ xs ys → Permᴰ (map f xs) (map f ys)
  map-Permᴰ f Permᴰ.nil = Permᴰ.nil
  map-Permᴰ f (Permᴰ.cons e d) = Permᴰ.cons (ap f e) (map-Permᴰ f d)
  map-Permᴰ f (Permᴰ.swap e e') = Permᴰ.swap (ap f e) (ap f e')
  map-Permᴰ f (Permᴰ.trans d d') = Permᴰ.trans (map-Permᴰ f d) (map-Permᴰ f d')

  count-not : (p : A → Bool) (xs : List A) → count p xs + count (λ x. not (p x)) xs ≡ length xs
  count-not p [] = refl
  count-not p (x ∷ xs) = ground (arith, count-not p xs)

abbrev bound_to : ℕ → Db → List NotificationChannel
bound_to monitor_id db =
    map (λ row. row.chan)
      (keep (λ row. not row.deleted && any (is_binding monitor_id row.chan.id) db.bindings)
        db.channels)

abbrev of_user : ℕ → Db → List NotificationChannel
of_user user_id db =
    map (λ row. row.chan) (keep (λ row. row.chan.user_id == user_id && not row.deleted) db.channels)

abbrev or_else : List NotificationChannel → List NotificationChannel → List NotificationChannel
or_else [] chs = chs
or_else (ch ∷ chs) _ = ch ∷ chs

-- Whom an event is sent to: the enabled channels of the monitor, or those of the user if the
-- monitor has none.
abbrev pub recipients : AlertEvent → Db → List NotificationChannel
recipients ev db = enabled (or_else (bound_to ev.monitor_id db) (of_user ev.user_id db))

-- What `Handle` returns, and the tables that it leaves.
abbrev pub Handled :
    Env → Senders → AlertEvent → List NotificationChannel → Db → Result (Unit {0}) × World → Type 0
Handled env s ev rs db (result, w) =
    (ids : List ℕ) × Permᴰ ids (ids_of s ev rs)
    × (result ≡ all_failed (count (works s ev) rs) (count (fails s ev) rs))
    × (w.db
        ≡ lettered env
            (record {
              event = ev;
              failed = count (fails s ev) rs;
              total = length rs;
              failed_channel_ids = ids;
            })
            (count (works s ev) rs) (count (fails s ev) rs) db)

tally-Handled :
    (env : Env) (s : Senders) (ev : AlertEvent) (rs order : List NotificationChannel) (w : World)
    → Permᴰ order rs
    → Handled env s ev rs w.db (finish env ev (tallied s ev order no_tally) w)
tally-Handled env s ev rs order w d =
    let t = tallied s ev order no_tally in
    let (done, left) = finish-lettered env ev t w in
    let sent : t.sent ≡ count (works s ev) rs =
      omega (arith, tallied-sent s ev order no_tally, count-Permᴰ (works s ev) d) in
    let failed : t.failed ≡ count (fails s ev) rs =
      omega (arith, tallied-failed s ev order no_tally, count-Permᴰ (fails s ev) d) in
    (
      t.failed_ids,
      subst (λ ids. Permᴰ ids (ids_of s ev rs)) (sym (tallied-ids s ev order no_tally))
          (map-Permᴰ (λ ch. ch.id) (keep-Permᴰ (fails s ev) d)),
      rw (sym sent, sym failed) done,
      rw (sym (count-not (works s ev) rs), sym sent, sym failed) left,
    )

send_all-Handled :
    (env : Env) (s : Senders) (order : Order) (ev : AlertEvent) (chs : List NotificationChannel)
    (w : World)
    → ((xs : List NotificationChannel) → Permᴰ (order xs) xs)
    → Handled env s ev (enabled chs) w.db (send_all env s order ev chs w)
unfolding send_all ◌>>=◌
send_all-Handled env s order ev [] w d = ([], Permᴰ.nil, refl, refl)
send_all-Handled env s order ev (ch ∷ chs) w d =
    let rs = enabled (ch ∷ chs) in
    let (tally, same) = deliver_all-tallied env s ev (order rs) no_tally w in
    let w' = (deliver_all env s ev (order rs) no_tally w).1 in
    rw tally (
      subst (λ db. Handled env s ev rs db (finish env ev (tallied s ev (order rs) no_tally) w'))
        same (tally-Handled env s ev rs (order rs) w' (d rs)))

handle-send_all :
    (env : Env) (s : Senders) (order : Order) (ev : AlertEvent) (w : World)
    → env.fault list_for_monitor ≡ none
    → env.fault list_by_user ≡ none
    → handle env s order ev w
      ≡ send_all env s order ev (or_else (bound_to ev.monitor_id w.db) (of_user ev.user_id w.db)) w
unfolding handle ◌>>=◌ Channels.list_for_monitor Channels.list_by_user
handle-send_all env s order ev w f f' = ground arith

-- If the lists of channels can be read, then, in whatever order the senders report, handling an
-- alert returns an error exactly if it has a recipient and no sending to one succeeds. It changes the
-- tables exactly if the sending to some recipients succeeds, to others fails, and one of the three
-- attempts at writing a dead letter is not hit by a fault: one dead letter is then added, with the
-- event, the numbers of failed and of all recipients, and the failed channels in some order.
pub handle-Handled :
    (env : Env) (s : Senders) (order : Order) (ev : AlertEvent) (w : World)
    → ((xs : List NotificationChannel) → Permᴰ (order xs) xs)
    → env.fault list_for_monitor ≡ none
    → env.fault list_by_user ≡ none
    → Handled env s ev (recipients ev w.db) w.db (handle env s order ev w)
handle-Handled env s order ev w d f f' = rw (handle-send_all env s order ev w f f') (
    send_all-Handled env s order ev
      (or_else (bound_to ev.monitor_id w.db) (of_user ev.user_id w.db)) w d)
