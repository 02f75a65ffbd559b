-- ===== src/Monitoring/StatusPage/Expected.antt =====
-- What a page is to say of the monitors, read off the tables, and the queries that it is made of.
use pingcast.Prelude.{
  ℕ, ◌==◌, leb, ltb, Bool, true, false, not, ◌&&◌, ◌||◌, Option, none, some, String, any, text_eq,
  List, [], ◌∷◌, all, map, keep, Text, ◌≡◌, refl, arith,
}
use pingcast.Error.{ok}
use pingcast.Domain.Monitor.{Monitor, MonitorStatus, MaintenanceWindow, is_up, active_at}
use pingcast.Store.World.{World, Env, MonitorRow, UserRow, has_active}
use pingcast.Store.Exec.{◌>>=◌, attempt}
use pingcast.Store.Exec.Reads.{Reads}
use pingcast.Store.Monitors
use pingcast.Store.Monitors.{is_shown}
use pingcast.Store.Incidents
use pingcast.Store.Groups
use pingcast.Store.Windows
use pingcast.Store.Windows.{any_active}
use pingcast.Monitoring.Checks.{in_maintenance}
use pingcast.Monitoring.StatusPage.{StatusMonitor, Sections}

-- A window of the monitor holds at the time.
abbrev is_open : ℕ → ℕ → MaintenanceWindow → Bool
is_open id now m = m.monitor_id == id && leb m.starts_at now && ltb now m.ends_at

abbrev answers : Option String → Bool
answers none = true
answers (some s) = false

-- Maintenance is wired and known, and a window of the monitor holds.
abbrev pub maintained : Env → World → ℕ → Bool
maintained env w id =
    env.has_maintenance && answers (env.fault has_active) && any (is_open id env.now) w.db.windows

-- The live owner of the row has the slug.
abbrev is_owner : Text → MonitorRow → UserRow → Bool
is_owner slug row u = not u.deleted && u.user.id == row.mon.user_id && text_eq u.user.slug slug

abbrev pub is_listed : Text → List UserRow → MonitorRow → Bool
is_listed slug users row = row.mon.is_public && not row.deleted && any (is_owner slug row) users

-- What a page says of a monitor.
abbrev Entry : Type 0
Entry = ℕ × Text × MonitorStatus × Bool

abbrev pub said : StatusMonitor → Entry
said m = (m.id, m.name, m.current_status, m.in_maintenance)

abbrev pub entry : (ℕ → Env) → World → Monitor → Entry
entry env_of w m = (m.id, m.name, m.current_status, maintained (env_of m.id) w m.id)

-- The monitor is up, or its failure is expected.
abbrev pub is_fine : (ℕ → Env) → World → Monitor → Bool
is_fine env_of w m = is_up m.current_status || maintained (env_of m.id) w m.id

abbrev pub Lists : (ℕ → Env) → World → List Monitor → Sections → Type 0
Lists env_of w ms s =
    (s.all_up ≡ all (is_fine env_of w) ms) × (map said s.monitors ≡ map (entry env_of w) ms)

any_active-open :
    (id now : ℕ) (ms : List MaintenanceWindow) → any_active now id ms ≡ any (is_open id now) ms
unfolding active_at
any_active-open id now [] = refl
any_active-open id now (m ∷ ms) = ground (arith, any_active-open id now ms)

pub in_maintenance-maintained :
    (env : Env) (id : ℕ) (w : World) → (in_maintenance env id w).0 ≡ ok (maintained env w id)
unfolding in_maintenance Windows.active active_at ◌>>=◌
in_maintenance-maintained env id w = ground (arith, any_active-open id env.now w.db.windows)

pub in_maintenance-Reads : (env : Env) (id : ℕ) → Reads (in_maintenance env id)
unfolding in_maintenance Windows.active active_at ◌>>=◌
in_maintenance-Reads env id = record { same = λ w. ground arith }

pub list_by_monitor-Reads :
    (env : Env) (id n : ℕ) → Reads (attempt (Incidents.list_by_monitor env id n))
unfolding Incidents.list_by_monitor ◌>>=◌
list_by_monitor-Reads env id n = record { same = λ w. ground arith }

pub list_memberships-Reads :
    (env : Env) (id : ℕ) → Reads (attempt (Groups.list_memberships_of env id))
unfolding Groups.list_memberships_of ◌>>=◌
list_memberships-Reads env id = record { same = λ w. ground arith }

pub list_public-Reads : (env : Env) (slug : Text) → Reads (Monitors.list_public_by_slug env slug)
unfolding Monitors.list_public_by_slug ◌>>=◌
list_public-Reads env slug = record { same = λ w. ground arith }

any-owner :
    (slug : Text) (row : MonitorRow) (users : List UserRow)
    → any (λ u. u.user.id == row.mon.user_id && text_eq u.user.slug slug && not u.deleted) users
      ≡ any (is_owner slug row) users
any-owner slug row [] = refl
any-owner slug row (u ∷ users) = ground (arith, any-owner slug row users)

pub shown-listed :
    (slug : Text) (users : List UserRow) (rows : List MonitorRow)
    → keep (is_shown slug users) rows ≡ keep (is_listed slug users) rows
shown-listed slug users [] = refl
shown-listed slug users (row ∷ rows) =
    ground (arith, any-owner slug row users, shown-listed slug users rows)
