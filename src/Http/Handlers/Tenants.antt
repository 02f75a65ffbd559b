-- ===== src/Http/Handlers/Tenants.antt =====
-- What the handlers answer about monitors and channels of other users.
use pingcast.Prelude.{ℕ, false, Option, none, some, find, Text, ◌≡◌, ◌≢◌, refl, ap, arith}
use pingcast.Error.{Result, ok, err, sentinel, forbidden}
use pingcast.Domain.User.{User}
use pingcast.Store.World.{World, Env, MonitorRow, ChannelRow, get_monitor, get_channel}
use pingcast.Store.Exec.{Exec, ◌>>=◌}
use pingcast.Store.Monitors
use pingcast.Store.Channels
use pingcast.Monitoring.Crud.Isolation.{foreign_monitor-forbidden}
use pingcast.Alerts.Delivery.{Senders}
use pingcast.Alerts.Manage.Isolation.{foreign_channel-forbidden}
use pingcast.Http.Respond.{
  Rendering, Response, answer, failure, names_argument, forbidden_envelope, classify,
}
use pingcast.Http.Handlers.{Libraries, require_user, parsed, write, served}
use pingcast.Http.Handlers.Monitors.{
  UpdateMonitorRequest, marshalled, update_input, update_monitor_handler, delete_monitor_handler,
  toggle_monitor_pause_handler,
}
use pingcast.Http.Handlers.Channels.{
  UpdateChannelRequest, or_blank, or_true, update_channel_handler, delete_channel_handler,
  bind_channel_handler, get_channel_handler, get_channel_by_id,
}

-- The answer 403 to a request that changed nothing.
abbrev pub Refused : {B : Type 0} → World → Result (Response B) × World → Type 0
Refused w x = x ≡ (ok (answer (failure forbidden_envelope)), w)

write-forbidden :
    {B : Type 0} (r : Rendering)
    → names_argument (r.text (sentinel forbidden)) ≡ false
    → write {B = B} r (sentinel forbidden) ≡ answer (failure forbidden_envelope)
unfolding write classify forbidden_envelope
write-forbidden r plain = rw plain refl

-- A service that returns the error `forbidden` and changes nothing.
served-Refused :
    {A B : Type 0} (m : Exec A) (r : Rendering) (f : A → Exec (Response B)) (w : World)
    → names_argument (r.text (sentinel forbidden)) ≡ false
    → m w ≡ (err (sentinel forbidden), w)
    → Refused w (served m (write r) f w)
unfolding ◌>>=◌
served-Refused {A} {B} m r f w plain e = rw e (ap (λ x. (ok x, w)) (write-forbidden r plain))

-- At another user's monitor, if the table can be read and the text of the error `forbidden` names no parameter, a
-- request of a user with a body that is read to change, delete or pause it is answered with status 403 and
-- the code FORBIDDEN_TENANT, and leaves the world as it was.
pub foreign_monitor-Refused :
    (env : Env) (libs : Libraries) (user : User) (id : ℕ) (req : UpdateMonitorRequest)
    (config : Option Text) (w : World) (row : MonitorRow)
    → names_argument (libs.rendering.text (sentinel forbidden)) ≡ false
    → marshalled libs.json req.check_config ≡ some config
    → env.fault get_monitor ≡ none
    → find (Monitors.is_live id) w.db.monitors ≡ some row
    → row.mon.user_id ≢ user.id
    → Refused w (update_monitor_handler env libs (some user) id (some req) w)
      × Refused w (delete_monitor_handler env libs (some user) id w)
      × Refused w (toggle_monitor_pause_handler env libs (some user) id w)
unfolding update_monitor_handler delete_monitor_handler toggle_monitor_pause_handler require_user
    parsed
foreign_monitor-Refused env libs user id req config w row plain given f live other =
    let (u, d, t) =
      foreign_monitor-forbidden env user id (update_input req config) w row f live other in
    (
      rw given (served-Refused _ libs.rendering _ w plain u),
      served-Refused _ libs.rendering _ w plain d,
      served-Refused _ libs.rendering _ w plain t,
    )

get_channel-forbidden :
    (env : Env) (user_id id : ℕ) (w : World) (row : ChannelRow)
    → env.fault get_channel ≡ none
    → find (Channels.is_live id) w.db.channels ≡ some row
    → row.chan.user_id ≢ user_id
    → get_channel_by_id env user_id id w ≡ (err (sentinel forbidden), w)
unfolding get_channel_by_id Channels.get_by_id ◌>>=◌
get_channel-forbidden env user_id id w row f live other = ground arith

-- At another user's channel, if the tables can be read and the text of the error `forbidden` names no parameter,
-- a request of a user to see it, to change it with a body that is read, to delete it, and to bind it to a monitor
-- of the user's own is answered with status 403 and the code FORBIDDEN_TENANT, and leaves the world as it was.
pub foreign_channel-Refused :
    (env : Env) (libs : Libraries) (s : Senders) (user : User) (monitor_id id : ℕ)
    (req : UpdateChannelRequest) (config : Option Text) (w : World) (row : ChannelRow)
    (mrow : MonitorRow)
    → names_argument (libs.rendering.text (sentinel forbidden)) ≡ false
    → marshalled libs.json req.config ≡ some config
    → env.fault get_channel ≡ none
    → env.fault get_monitor ≡ none
    → find (Channels.is_live id) w.db.channels ≡ some row
    → row.chan.user_id ≢ user.id
    → find (Monitors.is_live monitor_id) w.db.monitors ≡ some mrow
    → mrow.mon.user_id ≡ user.id
    → Refused w (get_channel_handler env libs (some user) id w)
      × Refused w (update_channel_handler env libs s (some user) id (some req) w)
      × Refused w (delete_channel_handler env libs (some user) id w)
      × Refused w (bind_channel_handler env libs (some user) monitor_id (some id) w)
unfolding get_channel_handler update_channel_handler delete_channel_handler bind_channel_handler
    require_user parsed
foreign_channel-Refused env libs s user monitor_id id req config w row mrow plain given f g live
      other mlive mine =
    let (u, d, b) =
      foreign_channel-forbidden env s user.id monitor_id id (or_blank req.name) config
        (or_true req.is_enabled) w row mrow f g live other mlive mine in
    (
      served-Refused _ libs.rendering _ w plain
          (get_channel-forbidden env user.id id w row f live other),
      rw given (served-Refused _ libs.rendering _ w plain u),
      served-Refused _ libs.rendering _ w plain d,
      served-Refused _ libs.rendering _ w plain b,
    )
