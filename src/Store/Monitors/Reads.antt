-- ===== src/Store/Monitors/Reads.antt =====
-- Reading a monitor writes nothing, and returns a row that is not deleted.
use pingcast.Prelude.{ℕ, some, ◌≡◌, refl, find, arith, Option-cases, inl, inr}
use pingcast.Error.{ok}
use pingcast.Domain.Monitor.{Monitor}
use pingcast.Store.World.{World, Env, MonitorRow}
use pingcast.Store.Exec.{call}
use pingcast.Store.Exec.Reads.{Reads, Reads-call}
use pingcast.Store.Monitors.{is_live, get_by_id}

pub get_monitor-Reads : (env : Env) (id : ℕ) → Reads (get_by_id env id)
unfolding get_by_id
get_monitor-Reads env id = Reads-call env _ _ (record {
  same = λ w. elim (Option-cases (find (is_live id) w.db.monitors)) [
    | inl e ↦ rw e refl
    | inr (row, e) ↦ rw e refl
  ];
})

pub get_monitor-ok :
    (env : Env) (id : ℕ) (w : World) (m : Monitor)
    → (get_by_id env id w).0 ≡ ok m
    → (row : MonitorRow) × (find (is_live id) w.db.monitors ≡ some row) × (row.mon ≡ m)
unfolding get_by_id call
get_monitor-ok env id w m h = elim (Option-cases (find (is_live id) w.db.monitors)) [
  | inl e ↦ absurd (ground arith)
  | inr (row, e) ↦ (row, e, ground arith)
]
