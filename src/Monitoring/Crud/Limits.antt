-- ===== src/Monitoring/Crud/Limits.antt =====
-- What a monitor that was created satisfies, and the limit of the plan.
use pingcast.Prelude.{
  ℕ, ◌≤◌, ◌<◌, ◌==◌, ==_iff, Bool, false, not, ◌&&◌, Option, List, [], ◌∷◌, ◌≡◌, refl, ap, ◌∙◌,
  count, any, Bool-cases, inl, inr, arith, is_empty, byte_len, none,
}
use pingcast.Prelude.Int.{pos, ◌≤ℤ◌}
use pingcast.Error.{Error, Result, ok, err}
use pingcast.Domain.User.{User, monitor_limit, min_interval}
use pingcast.Domain.Monitor.{Monitor, create, unknown}
use pingcast.Store.World.{World, Env, MonitorRow, monitor_created}
use pingcast.Store.Exec.{Exec, wrapping, call, pure, count_metric, ◌>>=◌, ◌>>◌}
use pingcast.Store.Exec.Keeps.{Keeps, Keeps-call, Keeps-bind, Keeps-wrapping, Keeps-pure}
use pingcast.Store.Exec.Reads.{
  Reads, Reads-call, Reads-wrapping, Reads-check, Reads-bind, read_ok, bind_ok, transaction_ok,
  transaction_atomic,
}
use pingcast.Store.Monitors
use pingcast.Store.Channels
use pingcast.Monitoring.Crud.{
  CreateMonitorInput, new_monitor, check_input, bind_all, insert_monitor, create_monitor, announce,
  publish_monitor_event, publish_changed,
}

-- The bounds that the plan and the input checks promise.
pub record IsValidMonitor (user : User) (m : Monitor) : Type 0 where
  pub owned : m.user_id ≡ user.id
  pub interval_low : pos (min_interval user) ≤ℤ m.interval_seconds
  pub interval_high : m.interval_seconds ≤ℤ pos 86400
  pub threshold_low : pos 1 ≤ℤ m.alert_after_failures
  pub threshold_high : m.alert_after_failures ≤ℤ pos 100
  pub named : is_empty m.name ≡ false
  pub name_short : byte_len m.name ≤ 255

-- The monitors of the user that are not deleted.
abbrev pub owned_by : ℕ → MonitorRow → Bool
owned_by user_id row = row.mon.user_id == user_id && not row.deleted

pub check_input-Reads :
    (env : Env) (user : User) (input : CreateMonitorInput) (n : ℕ)
    → Reads (check_input env user input n)
unfolding check_input
check_input-Reads env user input n =
    Reads-bind _ _ (Reads-check _)
      λ _. Reads-bind _ _ (Reads-check _) λ _. Reads-bind _ _ (Reads-check _) λ _. Reads-check _

pub count_by_user-Reads : (env : Env) (id : ℕ) → Reads (Monitors.count_by_user env id)
unfolding Monitors.count_by_user
count_by_user-Reads env id = Reads-call env _ _ (record { same = λ w. refl })

count_by_user-ok :
    (env : Env) (id n : ℕ) (w : World)
    → (wrapping "count monitors: %w" (Monitors.count_by_user env id) w).0 ≡ ok n
    → count (owned_by id) w.db.monitors ≡ n
unfolding Monitors.count_by_user wrapping call
count_by_user-ok env id n w h = ground arith

check_input-ok :
    (env : Env) (user : User) (input : CreateMonitorInput) (n : ℕ) (w : World) {u : Unit {0}}
    → (check_input env user input n w).0 ≡ ok u
    → (n < monitor_limit user) × IsValidMonitor user (new_monitor user input)
unfolding check_input new_monitor ◌>>=◌
check_input-ok env user input n w h = ground arith

-- The row that the database returns for an insert.
abbrev pub stamped : Env → Monitor → Monitor
stamped env m = record m { id = env.new_id; current_status = unknown; created_at = env.now }

abbrev pub Inserted : Env → Monitor → World → Result Monitor × World → Type 0
Inserted env m w (r, w') =
    (r ≡ ok (stamped env m))
    × (w'.db.monitors
        ≡ record { mon = stamped env m; deleted = false; group_id = none } ∷ w.db.monitors)

abbrev pub SameMonitors : List MonitorRow → World → Type 0
SameMonitors rows w = w.db.monitors ≡ rows

bind_same :
    (env : Env) (rows : List MonitorRow) (id c : ℕ)
    → Keeps (SameMonitors rows) (Channels.bind_to_monitor env id c)
unfolding Channels.bind_to_monitor
bind_same env rows id c = Keeps-call env _ _ (record {
  at = λ w h. elim (Bool-cases (any (Channels.is_binding id c) w.db.bindings)) [
    | inl e ↦ rw e h
    | inr e ↦ rw e h
  ];
})

pub bind_all-SameMonitors :
    (env : Env) (rows : List MonitorRow) (id : ℕ) (cs : List ℕ)
    → Keeps (SameMonitors rows) (bind_all env id cs)
unfolding bind_all
bind_all-SameMonitors env rows id [] = Keeps-pure tt
bind_all-SameMonitors env rows id (c ∷ cs) =
    Keeps-bind _ _ (Keeps-wrapping _ _ (bind_same env rows id c))
      λ _. bind_all-SameMonitors env rows id cs

-- The body of the transaction of `insert_monitor`.
abbrev pub bound_insert : Env → Monitor → List ℕ → Exec Monitor
bound_insert env m cs = do
  created ← wrapping "create monitor: %w" (Monitors.create env m)
  bind_all env created.id cs
  pure created

abbrev with_row : Env → Monitor → World → World
with_row env m w = record w {
  db = record w.db {
    monitors = record { mon = stamped env m; deleted = false; group_id = none } ∷ w.db.monitors;
  };
}

bound_insert_ok :
    (env : Env) (m : Monitor) (cs : List ℕ) (w : World) (c : Monitor)
    → (bound_insert env m cs w).0 ≡ ok c
    → Inserted env m w (bound_insert env m cs w)
unfolding ◌>>=◌ Monitors.create
bound_insert_ok env m cs w c h = ground (
  arith,
  (bind_all-SameMonitors env (with_row env m w).db.monitors env.new_id cs).at (with_row env m w)
      refl,
)

pub insert_monitor_ok :
    (env : Env) (m : Monitor) (cs : List ℕ) (w : World) (c : Monitor)
    → (insert_monitor env m cs w).0 ≡ ok c
    → Inserted env m w (insert_monitor env m cs w)
unfolding insert_monitor
insert_monitor_ok env m [] w c h = unfold ◌>>=◌ Monitors.create in ground arith
insert_monitor_ok env m (x ∷ cs) w c h =
    let same = transaction_ok env (bound_insert env m (x ∷ cs)) w c h in
    rw same (bound_insert_ok env m (x ∷ cs) w c (rw same at h))

-- An insert that fails leaves the monitors as they were.
pub insert_monitor_err :
    (env : Env) (m : Monitor) (cs : List ℕ) (w : World) (e : Error)
    → (insert_monitor env m cs w).0 ≡ err e
    → (insert_monitor env m cs w).1.db.monitors ≡ w.db.monitors
unfolding insert_monitor
insert_monitor_err env m [] w e h = unfold ◌>>=◌ Monitors.create in ground arith
insert_monitor_err env m (x ∷ cs) w e h =
    ap (λ db. db.monitors) (transaction_atomic env (bound_insert env m (x ∷ cs)) w e h)

-- The last two steps of `create_monitor`, which leave the tables as they are.
abbrev pub told : Env → Monitor → Exec (Monitor × Option Error)
told env m = count_metric env monitor_created >> announce env create m

told_ok :
    (env : Env) (m : Monitor) (w : World) (p : Monitor × Option Error)
    → (told env m w).0 ≡ ok p
    → (p.0 ≡ m) × ((told env m w).1.db ≡ w.db)
unfolding announce publish_monitor_event publish_changed ◌>>=◌
told_ok env m w p h = ground arith

-- One more row of the user.
count_row :
    (user : User) (m : Monitor) (rows : List MonitorRow) (n : ℕ)
    → m.user_id ≡ user.id
    → count (owned_by user.id) rows ≡ n
    → n < monitor_limit user
    → count (owned_by user.id) (record { mon = m; deleted = false; group_id = none } ∷ rows)
      ≤ monitor_limit user
count_row user m rows n e c l = ground (arith, ==_iff m.user_id user.id)

stamped-IsValidMonitor :
    (env : Env) (user : User) (m : Monitor)
    → IsValidMonitor user m
    → IsValidMonitor user (stamped env m)
stamped-IsValidMonitor env user m v = record {
  owned = v.owned;
  interval_low = v.interval_low;
  interval_high = v.interval_high;
  threshold_low = v.threshold_low;
  threshold_high = v.threshold_high;
  named = v.named;
  name_short = v.name_short;
}

-- What a success of `create_monitor` shows of the monitor and of the rows before and after.
abbrev pub Created : User → Monitor → List MonitorRow → List MonitorRow → Type 0
Created user m rows rows' =
    IsValidMonitor user m
    × (rows' ≡ record { mon = m; deleted = false; group_id = none } ∷ rows)
    × (count (owned_by user.id) rows' ≤ monitor_limit user)

Created-of_rows :
    (user : User) (m m' : Monitor) (rows rows' : List MonitorRow) (n : ℕ)
    → m' ≡ m
    → rows' ≡ record { mon = m; deleted = false; group_id = none } ∷ rows
    → IsValidMonitor user m
    → count (owned_by user.id) rows ≡ n
    → n < monitor_limit user
    → Created user m' rows rows'
Created-of_rows user m m' rows rows' n e e' v c l =
    rw (e, e') (v, refl, count_row user m rows n v.owned c l)

-- A monitor that `CreateMonitor` returns belongs to the user, keeps the bounds of the plan and of
-- the input checks, and is one row more in the table; the user had fewer monitors than the plan
-- allows, so has at most that many now.
pub create_monitor_ok :
    (env : Env) (user : User) (input : CreateMonitorInput) (w : World) (p : Monitor × Option Error)
    → (create_monitor env user input w).0 ≡ ok p
    → Created user p.0 w.db.monitors (create_monitor env user input w).1.db.monitors
unfolding create_monitor
create_monitor_ok env user input w p =
    let m = new_monitor user input in
    let C : Result (Monitor × Option Error) × World → Type 0 =
      λ x. Created user p.0 w.db.monitors x.1.db.monitors in
    read_ok C _ _ w p (Reads-wrapping _ _ (count_by_user-Reads env user.id)) λ n counted.
      read_ok C _ _ w p (check_input-Reads env user input n) λ _ checked.
        bind_ok C _ _ w p λ created inserted h.
          let (below, valid) = check_input-ok env user input n w checked in
          let (made, rows) = insert_monitor_ok env m input.channel_ids w created inserted in
          let (same, tables) =
            told_ok env created (insert_monitor env m input.channel_ids w).1 p h in
          Created-of_rows user (stamped env m) p.0 w.db.monitors _ n (cc (made, inserted, same))
            (ap (λ db. db.monitors) tables ∙ rows) (stamped-IsValidMonitor env user m valid)
            (count_by_user-ok env user.id n w counted) below
