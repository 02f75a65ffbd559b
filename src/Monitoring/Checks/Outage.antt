-- ===== src/Monitoring/Checks/Outage.antt =====
-- An outage is noticed: enough failures in a row open an incident, and its alert is published.
use pingcast.Prelude.{
  ℕ, suc, ◌+◌, ◌≤◌, ◌==◌, ==_refl, Bool, true, false, ◌&&◌, if◌then◌else◌, some, List, [], ◌∷◌, any,
  find, All, length, update_where, ◌≡◌, refl, sym, ap, ◌∙◌, arith, Bool-cases, inl, inr, subst,
}
use pingcast.Prelude.Int.{pos, ◌≤ℤ◌}
use pingcast.Domain.Monitor.{
  Monitor, CheckResult, AlertEvent, AlertEventType, MonitorStatus, alert_down, alert_up,
  alert_ssl_expiring, down,
}
use pingcast.Store.World.{World, Env, MonitorRow}
use pingcast.Store.Checks.{insert_desc, count_failures}
use pingcast.Store.Checks.Failures.{downs_first, count_failures_lem}
use pingcast.Store.Incidents.{is_open_for, resolved_since}
use pingcast.Store.Monitors.{is_live}
use pingcast.Store.Windows.{any_active}
use pingcast.Monitoring.Checks.{process_check_result}
use pingcast.Monitoring.Checks.Decision.{quiet, recorded, should_open, announced, process-expected}

abbrev is_down_event : AlertEventType → Bool
is_down_event alert_down = true
is_down_event alert_up = false
is_down_event alert_ssl_expiring = false

-- A down alert of the monitor.
abbrev pub is_down_alert : ℕ → AlertEvent → Bool
is_down_alert id a = a.monitor_id == id && is_down_event a.event

-- The results one after the other, where no outside call fails.
abbrev pub process_all : Monitor → List (Env × CheckResult) → World → World
process_all m [] w = w
process_all m (s ∷ ss) w = process_all m ss (process_check_result (quiet s.0) m s.1 w).1

-- Down results of the monitor, each not older than the one before, at times when no incident of the
-- tables was resolved a moment ago and no maintenance goes on.
abbrev pub Failing : Monitor → World → ℕ → List (Env × CheckResult) → Type 0
Failing m w last [] = Unit
Failing m w last (s ∷ ss) =
    (s.1.monitor_id ≡ m.id)
    × (s.1.status ≡ down)
    × (last ≤ s.1.checked_at)
    × (any (resolved_since s.0.now m.id) w.db.incidents ≡ false)
    × ((s.0.has_maintenance && any_active s.0.now m.id w.db.windows) ≡ false)
    × Failing m w s.1.checked_at ss

-- The incident is open and its alert is out.
abbrev pub Noticed : Monitor → World → Type 0
Noticed m w =
    (any (is_open_for m.id) w.db.incidents ≡ true) × (any (is_down_alert m.id) w.alerts ≡ true)

-- Between two results of the outage, after `n` of them.
record Ongoing (m : Monitor) (w₀ : World) (last n : ℕ) (w : World) : Type 0 where
  live : (row : MonitorRow) × (find (is_live m.id) w.db.monitors ≡ some row)
  older : All (λ r. r.checked_at ≤ last) w.db.check_results
  failures : n ≤ downs_first m.id w.db.check_results
  calm :
      (t : ℕ)
      → any (resolved_since t m.id) w.db.incidents ≡ any (resolved_since t m.id) w₀.db.incidents
  windows : w.db.windows ≡ w₀.db.windows
  reported : any (is_open_for m.id) w.db.incidents ≡ true → any (is_down_alert m.id) w.alerts ≡ true

insert_desc-front :
    (r : CheckResult) (rs : List CheckResult) (last : ℕ)
    → All (λ x. x.checked_at ≤ last) rs
    → last ≤ r.checked_at
    → insert_desc r rs ≡ r ∷ rs
unfolding insert_desc
insert_desc-front r [] last h l = refl
insert_desc-front r (x ∷ rs) last h l = ground (arith, h.0)

older-suc :
    (last last' : ℕ) (rs : List CheckResult)
    → last ≤ last'
    → All (λ x. x.checked_at ≤ last) rs
    → All (λ x. x.checked_at ≤ last') rs
older-suc last last' [] l h = tt
older-suc last last' (x ∷ rs) l h = (omega (arith, h.0), older-suc last last' rs l h.1)

find-live :
    (id : ℕ) (s : MonitorStatus) (rows : List MonitorRow) (row : MonitorRow)
    → find (is_live id) rows ≡ some row
    → (row' : MonitorRow) × (find (is_live id) (
          update_where
            (is_live id)
            (λ row. record row { mon = record row.mon { current_status = s } })
            rows)
        ≡ some row')
find-live id s [] row h = absurd (cc)
find-live id s (x ∷ rows) row h = elim (Bool-cases (is_live id x)) [
  | inl e ↦ (record x { mon = record x.mon { current_status = s } }, ground (arith, e))
  | inr e ↦
      let (row', h') = find-live id s rows row (ground (arith, e)) in (row', ground (arith, e, h'))
]

-- What the tables are after a down result.
abbrev after : Env → Monitor → CheckResult → World → World
after env m r w =
    let w' = recorded env m r w in if should_open env m w'.db then announced env m r w' else w'

processed :
    (env : Env) (m : Monitor) (r : CheckResult) (w : World) (row : MonitorRow)
    → find (is_live m.id) w.db.monitors ≡ some row
    → r.status ≡ down
    → (process_check_result (quiet env) m r w).1 ≡ after env m r w
processed env m r w row live d = ap (λ x. x.1) (process-expected env m r w row live) ∙ rw d refl

module _ (env : Env) (m : Monitor) (r : CheckResult) (w : World) where
  after_tables :
      ((after env m r w).db.check_results ≡ insert_desc r w.db.check_results)
      × ((after env m r w).db.windows ≡ w.db.windows)
      × ((after env m r w).db.monitors
          ≡ update_where
              (is_live m.id)
              (λ row. record row { mon = record row.mon { current_status = r.status } })
              w.db.monitors)
  after_tables = elim (Bool-cases (should_open env m (recorded env m r w).db)) [
    | inl e ↦ rw e (ground arith, ground arith, ground arith)
    | inr e ↦ rw e (ground arith, ground arith, ground arith)
  ]

  after_calm :
      (t : ℕ)
      → any (resolved_since t m.id) (after env m r w).db.incidents
        ≡ any (resolved_since t m.id) w.db.incidents
  after_calm t = elim (Bool-cases (should_open env m (recorded env m r w).db)) [
    | inl e ↦ rw e (ground arith)
    | inr e ↦ rw e (ground arith)
  ]

  after_reported :
      (any (is_open_for m.id) w.db.incidents ≡ true → any (is_down_alert m.id) w.alerts ≡ true)
      → any (is_open_for m.id) (after env m r w).db.incidents ≡ true
      → any (is_down_alert m.id) (after env m r w).alerts ≡ true
  after_reported h = elim (Bool-cases (should_open env m (recorded env m r w).db)) [
    | inl e ↦ rw e (λ o. ground (arith, ==_refl m.id))
    | inr e ↦ rw e (λ o. ground (arith, h, o))
  ]

  -- The threshold is reached, and nothing stands against an incident.
  after_open :
      m.alert_after_failures ≤ℤ pos (count_failures m.id (insert_desc r w.db.check_results))
      → any (resolved_since env.now m.id) w.db.incidents ≡ false
      → (env.has_maintenance && any_active env.now m.id w.db.windows) ≡ false
      → any (is_open_for m.id) (after env m r w).db.incidents ≡ true
  after_open enough calm free = elim (Bool-cases (should_open env m (recorded env m r w).db)) [
    | inl e ↦ rw e (ground (arith, ==_refl m.id))
    | inr e ↦ rw e (ground (arith, e, enough, calm, free))
  ]

Ongoing-after :
    (env : Env) (m : Monitor) (w₀ w : World) (r : CheckResult) (last n : ℕ)
    → Ongoing m w₀ last n w
    → r.monitor_id ≡ m.id
    → r.status ≡ down
    → last ≤ r.checked_at
    → Ongoing m w₀ r.checked_at (suc n) (after env m r w)
Ongoing-after env m w₀ w r last n o mine d later =
    let (results, windows, monitors) = after_tables env m r w in
    let front = insert_desc-front r w.db.check_results last o.older later in
    let (row, found) = o.live in
    record {
      live = rw monitors (find-live m.id r.status w.db.monitors row found);
      older =
          rw (results, front)
            (omega arith, older-suc last r.checked_at w.db.check_results later o.older);
      failures = rw (results, front) (ground (arith, o.failures, mine, d, ==_refl m.id));
      calm = λ t. after_calm env m r w t ∙ o.calm t;
      windows = windows ∙ o.windows;
      reported = after_reported env m r w o.reported;
    }

Ongoing-all :
    (m : Monitor) (w₀ : World) (ss : List (Env × CheckResult)) (s : Env × CheckResult) (last n : ℕ)
    (w : World)
    → Ongoing m w₀ last n w
    → Failing m w₀ last (s ∷ ss)
    → m.alert_after_failures ≤ℤ pos (n + length (s ∷ ss))
    → Noticed m (process_all m (s ∷ ss) w)
Ongoing-all m w₀ [] s last n w o (mine, d, later, calm, free, _) enough =
    let next = Ongoing-after s.0 m w₀ w s.1 last n o mine d later in
    let (row, found) = o.live in
    let counted : suc n ≤ downs_first m.id (insert_desc s.1 w.db.check_results) =
      subst (λ l. suc n ≤ downs_first m.id l) (after_tables s.0 m s.1 w).0 next.failures in
    let is_open =
      after_open s.0 m s.1 w (rw count_failures_lem (omega (arith, enough, counted)))
        (o.calm s.0.now ∙ calm) (rw o.windows free) in
    rw (processed s.0 m s.1 w row found d) (is_open, next.reported is_open)
Ongoing-all m w₀ (s' ∷ ss) s last n w o (mine, d, later, calm, free, rest) enough =
    let (row, found) = o.live in
    subst (λ w'. Noticed m (process_all m (s' ∷ ss) w')) (sym (processed s.0 m s.1 w row found d))
      (Ongoing-all m w₀ ss s' s.1.checked_at (suc n) (after s.0 m s.1 w)
        (Ongoing-after s.0 m w₀ w s.1 last n o mine d later) rest (ground (arith, enough)))

-- An outage that lasts is noticed. Where no outside call fails, the monitor is not deleted, and every
-- open incident of it was announced: after as many down results in a row as its threshold asks for,
-- one at least, each not older than those stored before, outside of maintenance and not within five
-- minutes of a resolution, an incident of the monitor is open and a down alert of it was published.
pub process_all-Noticed :
    (m : Monitor) (w : World) (row : MonitorRow) (last : ℕ) (s : Env × CheckResult)
    (ss : List (Env × CheckResult))
    → find (is_live m.id) w.db.monitors ≡ some row
    → All (λ r. r.checked_at ≤ last) w.db.check_results
    → (any (is_open_for m.id) w.db.incidents ≡ true → any (is_down_alert m.id) w.alerts ≡ true)
    → Failing m w last (s ∷ ss)
    → m.alert_after_failures ≤ℤ pos (length (s ∷ ss))
    → Noticed m (process_all m (s ∷ ss) w)
process_all-Noticed m w row last s ss live older reported failing enough =
    Ongoing-all m w ss s last 0 w
      (record {
        live = (row, live);
        older = older;
        failures = omega arith;
        calm = λ t. refl;
        windows = refl;
        reported = reported;
      })
      failing (ground (arith, enough))
