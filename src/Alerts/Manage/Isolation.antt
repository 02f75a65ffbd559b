-- ===== src/Alerts/Manage/Isolation.antt =====
-- Users cannot change one another's channels, and bind only channels and monitors of their own.
use pingcast.Prelude.{
  ℕ, Bool, true, Option, none, some, ◌≡◌, ◌≢◌, sym, ap, ◌∙◌, ==_refl, find, any, arith, Text,
}
use pingcast.Error.{Result, ok, err, sentinel, forbidden}
use pingcast.Store.World.{World, Env, MonitorRow, ChannelRow, get_monitor, get_channel}
use pingcast.Store.Exec.{◌>>=◌}
use pingcast.Store.Channels
use pingcast.Store.Channels.{is_binding}
use pingcast.Store.Monitors
use pingcast.Store.Exec.Reads.{read_ok, Reads-check, check-ok}
use pingcast.Store.Monitors.Reads.{get_monitor-Reads, get_monitor-ok}
use pingcast.Store.Channels.Reads.{get_channel-Reads, get_channel-ok}
use pingcast.Monitoring.Lifecycle.Effects.{passed, owner_of}
use pingcast.Alerts.Delivery.{Senders}
use pingcast.Alerts.Manage.{load_owned_channel, update_channel, delete_channel, bind_channel}

-- At another user's channel, if the tables can be read, changing it, deleting it and binding it to
-- a monitor of one's own return the error `forbidden` and leave the world as it was.
pub foreign_channel-forbidden :
    (env : Env) (s : Senders) (user_id monitor_id channel_id : ℕ) (name : Text)
    (config : Option Text) (is_enabled : Bool) (w : World) (row : ChannelRow) (mrow : MonitorRow)
    → env.fault get_channel ≡ none
    → env.fault get_monitor ≡ none
    → find (Channels.is_live channel_id) w.db.channels ≡ some row
    → row.chan.user_id ≢ user_id
    → find (Monitors.is_live monitor_id) w.db.monitors ≡ some mrow
    → mrow.mon.user_id ≡ user_id
    → (update_channel env s user_id channel_id name config is_enabled w
        ≡ (err (sentinel forbidden), w))
      × (delete_channel env user_id channel_id w ≡ (err (sentinel forbidden), w))
      × (bind_channel env user_id monitor_id channel_id w ≡ (err (sentinel forbidden), w))
unfolding update_channel delete_channel bind_channel load_owned_channel ◌>>=◌ Channels.get_by_id
    Monitors.get_by_id
foreign_channel-forbidden env s user_id monitor_id channel_id name config is_enabled w row mrow f f'
      live other mlive mine =
    (ground arith, ground arith, ground arith)

-- A channel and a monitor of the user, bound after the call.
abbrev pub Bound : ℕ → ℕ → ℕ → World → World → Type 0
Bound user_id monitor_id channel_id w w' =
    (row : ChannelRow) × (mrow : MonitorRow) × (find (Channels.is_live channel_id) w.db.channels
      ≡ some row)
    × (row.chan.user_id ≡ user_id)
    × (find (Monitors.is_live monitor_id) w.db.monitors ≡ some mrow)
    × (mrow.mon.user_id ≡ user_id)
    × (any (is_binding monitor_id channel_id) w'.db.bindings ≡ true)

bound_after :
    (env : Env) (monitor_id channel_id : ℕ) (w : World)
    → (Channels.bind_to_monitor env monitor_id channel_id w).0 ≡ ok tt
    → any
        (is_binding monitor_id channel_id)
        (Channels.bind_to_monitor env monitor_id channel_id w).1.db.bindings
      ≡ true
unfolding Channels.bind_to_monitor ◌>>=◌
bound_after env monitor_id channel_id w h = ground (arith, ==_refl monitor_id, ==_refl channel_id)

-- A binding that succeeds joins a channel and a monitor that both belong to the user and are not
-- deleted, and is in the table afterwards.
pub bind_channel-Bound :
    (env : Env) (user_id monitor_id channel_id : ℕ) (w : World)
    → (bind_channel env user_id monitor_id channel_id w).0 ≡ ok tt
    → Bound user_id monitor_id channel_id w (bind_channel env user_id monitor_id channel_id w).1
unfolding bind_channel
bind_channel-Bound env user_id monitor_id channel_id w =
    let C : Result (Unit {0}) × World → Type 0 = λ x. Bound user_id monitor_id channel_id w x.1 in
    read_ok C _ _ w tt (get_monitor-Reads env _) λ m e. read_ok C _ _ w tt (Reads-check _) λ _ mine.
      read_ok C _ _ w tt (get_channel-Reads env _) λ ch e'.
        read_ok C _ _ w tt (Reads-check _) λ _ mine' h.
          let (mrow, mlive, msame) = get_monitor-ok env monitor_id w m e in
          let (row, live, same) = get_channel-ok env channel_id w ch e' in
          (
            row,
            mrow,
            live,
            ap (λ x. x.user_id) (sym same) ∙ owner_of _ _ (passed _ _ (check-ok _ w mine')),
            mlive,
            ap (λ x. x.user_id) msame ∙ owner_of _ _ (passed _ _ (check-ok _ w mine)),
            bound_after env monitor_id channel_id w h,
          )
