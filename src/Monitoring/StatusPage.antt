-- ===== src/Monitoring/StatusPage.antt =====
-- internal/app/monitoring.go: GetStatusPage, the public page of a user. The share of the last 90 days
-- that a monitor was up, a float whose error is only logged, is left out.
pub mod Expected
pub mod Shown
use pingcast.Prelude.{
  ℕ, ◌==◌, Bool, true, false, not, ◌&&◌, ◌||◌, if◌then◌else◌, Option, none, some, List, [], ◌∷◌,
  ◌++◌, find, Text,
}
use pingcast.Error.{errorf, Result, ok, err}
use pingcast.Domain.User.{User, is_pro}
use pingcast.Domain.Monitor.{Monitor, MonitorStatus, is_up}
use pingcast.Domain.Incident.{Incident}
use pingcast.Domain.Group.{MonitorGroup}
use pingcast.Store.World.{World, Env, Branding}
use pingcast.Store.Exec.{Exec, ◌>>=◌, ◌>>◌, pure, throw, attempt}
use pingcast.Store.Users
use pingcast.Store.Users.{no_branding}
use pingcast.Store.Monitors
use pingcast.Store.Incidents
use pingcast.Store.Groups
use pingcast.Accounts.Auth.{or_throw}
use pingcast.Monitoring.Checks.{in_maintenance}

pub record StatusMonitor : Type 0 where
  pub id : ℕ
  pub name : Text
  pub current_status : MonitorStatus
  pub group_id : Option ℕ
  pub in_maintenance : Bool

-- What the loop over the monitors fills.
pub record Sections : Type 0 where
  pub all_up : Bool
  pub monitors : List StatusMonitor
  pub incidents : List Incident

pub record StatusPageData : Type 0 where
  pub slug : Text
  pub all_up : Bool
  pub show_branding : Bool
  pub branding : Branding
  pub monitors : List StatusMonitor
  pub incidents : List Incident
  pub groups : List MonitorGroup

-- The value, or nil after an error that is logged.
abbrev or_nil : {A : Type 0} → Result (List A) → List A
or_nil (ok xs) = xs
or_nil (err e) = []

abbrev group_of : ℕ → List (ℕ × ℕ) → Option ℕ
group_of id ms = elim (find (λ m. m.0 == id) ms) [ none ↦ none | some m ↦ some m.1 ]

-- The loop: the second environment is that of the queries for one monitor.
unfoldable pub list_sections : Env → (ℕ → Env) → List (ℕ × ℕ) → List Monitor → Exec Sections
list_sections env env_of memberships [] =
    pure (record { all_up = true; monitors = []; incidents = [] })
list_sections env env_of memberships (m ∷ ms) = do
  maintenance ← in_maintenance (env_of m.id) m.id
  incidents ← attempt (Incidents.list_by_monitor (env_of m.id) m.id 5)
  rest ← list_sections env env_of memberships ms
  pure (record {
    all_up = (is_up m.current_status || maintenance) && rest.all_up;
    monitors =
        record {
          id = m.id;
          name = m.name;
          current_status = m.current_status;
          group_id = group_of m.id memberships;
          in_maintenance = maintenance;
        }
        ∷ rest.monitors;
    incidents = or_nil incidents ++ rest.incidents;
  })

abbrev or_none : Result Branding → Branding
or_none (ok b) = b
or_none (err e) = no_branding

abbrev branding_for : Env → User → Exec Branding
branding_for env user =
    if is_pro user.plan
    then (do b ← attempt (Users.get_branding env user.id); pure (or_none b))
    else pure no_branding

unfoldable pub get_status_page : Env → (ℕ → Env) → Text → Exec StatusPageData
unfolding list_sections
get_status_page env env_of slug = do
  found ← attempt (Users.get_by_slug env slug)
  user ← or_throw (errorf "user not found") found
  monitors ← Monitors.list_public_by_slug env slug
  memberships ← attempt (Groups.list_memberships_of env user.id)
  sections ← list_sections env env_of (or_nil memberships) monitors
  branding ← branding_for env user
  groups ← attempt (Groups.list_by_user env user.id)
  pure (record {
    slug = slug;
    all_up = sections.all_up;
    show_branding = not (is_pro user.plan);
    branding = branding;
    monitors = sections.monitors;
    incidents = sections.incidents;
    groups = or_nil groups;
  })
