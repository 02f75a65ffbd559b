-- ===== src/Examples/Groups.antt =====
-- The theorem about groups of monitors, on a sample group.
use pingcast.Prelude.{[], ◌∷◌, codes, map, some, ◌≡◌}
use pingcast.Prelude.Int.{pos}
use pingcast.Domain.Group.{MonitorGroup}
use pingcast.Store.World.{World}
use pingcast.Monitoring.Groups.{deleting, written, others, written-others}
use pingcast.Examples.Data.{env, failing, row}

abbrev core : MonitorGroup
core = record { id = 3; user_id = 2; name = codes "core"; ordering = pos 0; created_at = 5 }

-- Bob's group, with a monitor of Ann in it.
abbrev grouped : World
grouped = record failing {
  db = record failing.db { groups = core ∷ []; monitors = record row { group_id = some 3 } ∷ [] };
}

written-others_example :
    (others 2 (written env 2 (deleting 3) grouped).db.groups ≡ others 2 (core ∷ []))
    × (map (λ row. row.mon) (written env 2 (deleting 3) grouped).db.monitors ≡ row.mon ∷ [])
written-others_example = written-others env 2 (deleting 3) grouped
