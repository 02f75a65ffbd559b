-- ===== src/Examples/StatusPage.antt =====
-- The theorem about the status page, on a page with a monitor that is down in a window.
use pingcast.Prelude.{true, false, none, [], ◌∷◌, codes, ◌≡◌, refl}
use pingcast.Error.{ok}
use pingcast.Domain.Monitor.{down, active_at}
use pingcast.Store.World.{World}
use pingcast.Store.Exec.{◌>>=◌}
use pingcast.Store.Users
use pingcast.Store.Users.{no_branding}
use pingcast.Store.Monitors
use pingcast.Store.Incidents
use pingcast.Store.Windows
use pingcast.Store.Groups
use pingcast.Monitoring.Checks.{in_maintenance}
use pingcast.Monitoring.StatusPage.{StatusPageData, list_sections, get_status_page}
use pingcast.Monitoring.StatusPage.Shown.{IsShown, get_status_page-IsShown}
use pingcast.Examples.Data.{env, site, row, incident}
use pingcast.Examples.Accounts.{members}

-- The site is down in a window that is open, and a second monitor is private.
abbrev planned : World
planned = record members {
  db = record members.db {
    monitors =
        record row { mon = record site { current_status = down } }
        ∷ record row { mon = record site { id = 8; is_public = false } }
        ∷ [];
    incidents = incident ∷ [];
    windows =
        record {
          id = 1;
          monitor_id = 7;
          starts_at = 7000;
          ends_at = 8000;
          reason = [];
          created_at = 6000;
        }
        ∷ [];
  };
}

abbrev page : StatusPageData
page = record {
  slug = codes "ann";
  all_up = true;
  show_branding = false;
  branding = no_branding;
  monitors =
      record {
        id = 7;
        name = codes "site";
        current_status = down;
        group_id = none;
        in_maintenance = true;
      }
      ∷ [];
  incidents = incident ∷ [];
  groups = [];
}

page_found : (get_status_page env (λ id. env) (codes "ann") planned).0 ≡ ok page
unfolding get_status_page list_sections in_maintenance Users.get_by_slug Users.get_branding
    Monitors.list_public_by_slug Groups.list_memberships_of Groups.list_by_user
    Incidents.list_by_monitor Windows.active active_at ◌>>=◌
page_found = refl

get_status_page-IsShown_example : IsShown (λ id. env) planned (codes "ann") page
get_status_page-IsShown_example =
    get_status_page-IsShown env (λ id. env) (codes "ann") planned page page_found
