-- ===== src/Monitoring/Crud/Isolation.antt =====
-- Users cannot change one another's monitors.
use pingcast.Prelude.{
  ℕ, ◌==◌, Bool, true, not, none, some, List, [], ◌∷◌, ◌≡◌, ◌≢◌, ◌∙◌, refl, find, keep,
  update_where, arith, Option-cases, inl, inr,
}
use pingcast.Error.{ok, err, sentinel, forbidden}
use pingcast.Domain.User.{User}
use pingcast.Domain.Monitor.{Monitor, MonitorAction}
use pingcast.Store.World.{World, Env, MonitorRow, get_monitor}
use pingcast.Store.Exec.{◌>>=◌}
use pingcast.Store.Exec.Keeps.{
  Keeps, Keeps-call, Keeps-bind, Keeps-wrapping, Keeps-pure, Keeps-attempt, Keeps-count_metric,
  Keeps-if, Keeps-throw,
}
use pingcast.Store.Exec.Reads.{Reads, Reads-bind, Reads-check, Reads-pure, bind_read}
use pingcast.Store.Monitors.Reads.{get_monitor-Reads}
use pingcast.Store.Monitors
use pingcast.Store.Monitors.{is_live, is_owned}
use pingcast.Monitoring.Crud.{
  UpdateMonitorInput, load_owned_monitor, announce, publish_monitor_event, publish_changed,
  publish_deleted, update_monitor, delete_monitor, toggle_pause, apply_input,
}

-- The rows of the other users.
abbrev pub others : ℕ → List MonitorRow → List MonitorRow
others user_id = keep (λ row. not (row.mon.user_id == user_id))

others-update_where :
    (user_id : ℕ) (q : MonitorRow → Bool) (f : MonitorRow → MonitorRow) (rows : List MonitorRow)
    → ((row : MonitorRow) → q row ≡ true → row.mon.user_id ≡ user_id)
    → ((row : MonitorRow) → (f row).mon.user_id ≡ row.mon.user_id)
    → others user_id (update_where q f rows) ≡ others user_id rows
others-update_where user_id q f [] h k = refl
others-update_where user_id q f (row ∷ rows) h k =
    ground (arith, others-update_where user_id q f rows h k, h row, k row)

owned-user :
    (id user_id : ℕ) (row : MonitorRow) → is_owned id user_id row ≡ true → row.mon.user_id ≡ user_id
owned-user id user_id row h = ground arith

pub load-Reads : (env : Env) (id user_id : ℕ) → Reads (load_owned_monitor env id user_id)
unfolding load_owned_monitor
load-Reads env id user_id =
    Reads-bind _ _ (get_monitor-Reads env id) λ m. Reads-bind _ _ (Reads-check _) λ _. Reads-pure m

-- A monitor is loaded for its owner only.
pub load-owner :
    (env : Env) (id user_id : ℕ) (w : World) (m : Monitor)
    → (load_owned_monitor env id user_id w).0 ≡ ok m
    → m.user_id ≡ user_id
unfolding load_owned_monitor ◌>>=◌ Monitors.get_by_id
load-owner env id user_id w m h = ground arith

module _ (user_id : ℕ) (rows : List MonitorRow) where
  abbrev Same : World → Type 0
  Same w = others user_id w.db.monitors ≡ rows

  announce-Same :
      (env : Env) (action : MonitorAction) (m : Monitor) → Keeps Same (announce env action m)
  unfolding announce publish_monitor_event publish_changed
  announce-Same env action m =
      Keeps-bind _ _
        (Keeps-attempt _
          (Keeps-if _ _ _ (Keeps-call env _ _ (record { at = λ w h. h })) (Keeps-pure tt)))
        λ r. Keeps-pure _

  write-Same :
      (q : MonitorRow → Bool) (f : MonitorRow → MonitorRow) (w : World)
      → ((row : MonitorRow) → q row ≡ true → row.mon.user_id ≡ user_id)
      → ((row : MonitorRow) → (f row).mon.user_id ≡ row.mon.user_id)
      → Same w
      → others user_id (update_where q f w.db.monitors) ≡ rows
  write-Same q f w h k s = rw (others-update_where user_id q f w.db.monitors h k) s

  update-Same : (env : Env) (m : Monitor) → m.user_id ≡ user_id → Keeps Same (Monitors.update env m)
  unfolding Monitors.update
  update-Same env m e = Keeps-call env _ _ (record {
    at = λ w. write-Same _ _ w (λ row q. owned-user m.id m.user_id row q ∙ e) (λ row. refl);
  })

  delete-Same : (env : Env) (id : ℕ) → Keeps Same (Monitors.delete env id user_id)
  unfolding Monitors.delete
  delete-Same env id =
      Keeps-call env _ _
        (record { at = λ w. write-Same _ _ w (owned-user id user_id) (λ row. refl) })

  toggle-Same : (env : Env) (id : ℕ) → Keeps Same (Monitors.toggle_pause env id user_id)
  unfolding Monitors.toggle_pause
  toggle-Same env id = Keeps-call env _ _ (record {
    at = λ w s. elim (Option-cases (find (is_owned id user_id) w.db.monitors)) [
      | inl e ↦ rw e s
      | inr (row, e) ↦ rw e (write-Same _ _ w (owned-user id user_id) (λ r. refl) s)
    ];
  })

  publish_deleted-Same : (env : Env) (id : ℕ) → Keeps Same (publish_deleted env id)
  unfolding publish_deleted publish_changed
  publish_deleted-Same env id =
      Keeps-if _ _ _
        (Keeps-bind _ _ (Keeps-attempt _ (Keeps-call env _ _ (record { at = λ w h. h })))
          λ r. Keeps-pure tt)
        (Keeps-throw _)

-- Whatever fails on the way, changing, deleting or pausing a monitor as a user leaves the rows of
-- all other users as they were.
pub monitors_isolated :
    (env : Env) (user : User) (id : ℕ) (input : UpdateMonitorInput) (w : World)
    → let rows = others user.id w.db.monitors in
      (others user.id (update_monitor env user id input w).1.db.monitors ≡ rows)
      × (others user.id (delete_monitor env user.id id w).1.db.monitors ≡ rows)
      × (others user.id (toggle_pause env user id w).1.db.monitors ≡ rows)
unfolding update_monitor delete_monitor toggle_pause apply_input
monitors_isolated env user id input w =
    let P = Same user.id (others user.id w.db.monitors) in
    (
      bind_read P _ _ w (load-Reads env id user.id) refl λ old loaded.
          bind_read P _ _ w (Reads-check _) refl λ _ _.
            bind_read P _ _ w (Reads-check _) refl λ _ _.
              (Keeps-bind _ _
                  (Keeps-wrapping _ _
                    (update-Same user.id _ env _ (load-owner env id user.id w old loaded)))
                  λ _. announce-Same user.id _ env _ _).at
                w refl,
      bind_read P _ _ w (load-Reads env id user.id) refl λ old loaded.
          (Keeps-bind _ _ (delete-Same user.id _ env id) λ _.
              Keeps-bind _ _ (Keeps-count_metric env _ (λ w' h. h))
                λ _. publish_deleted-Same user.id _ env id).at
            w refl,
      bind_read P _ _ w (load-Reads env id user.id) refl λ old loaded.
          (Keeps-bind _ _ (Keeps-wrapping _ _ (toggle-Same user.id _ env id))
              λ mon. announce-Same user.id _ env _ _).at
            w refl,
    )

-- At another user's monitor, if the table can be read, changing, deleting and pausing it return
-- the error `forbidden` and leave the world as it was.
pub foreign_monitor-forbidden :
    (env : Env) (user : User) (id : ℕ) (input : UpdateMonitorInput) (w : World) (row : MonitorRow)
    → env.fault get_monitor ≡ none
    → find (is_live id) w.db.monitors ≡ some row
    → row.mon.user_id ≢ user.id
    → (update_monitor env user id input w ≡ (err (sentinel forbidden), w))
      × (delete_monitor env user.id id w ≡ (err (sentinel forbidden), w))
      × (toggle_pause env user id w ≡ (err (sentinel forbidden), w))
unfolding update_monitor delete_monitor toggle_pause load_owned_monitor ◌>>=◌ Monitors.get_by_id
foreign_monitor-forbidden env user id input w row f e other =
    (ground arith, ground arith, ground arith)
