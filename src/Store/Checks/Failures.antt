-- ===== src/Store/Checks/Failures.antt =====
-- The query that counts consecutive failures, against a plain recursion over the results.
use pingcast.Prelude.{
  ℕ, suc, ◌+◌, ◌≤◌, ltb, ◌==◌, Bool, ◌&&◌, if◌then◌else◌, List, [], ◌∷◌, keep, count, length, ◌≡◌,
  refl, ap, ◌∙◌, arith,
}
use pingcast.Domain.Monitor.{CheckResult, MonitorStatus, is_down, up, down, unknown}
use pingcast.Store.Checks.{ordered, first_up, coalesce, count_failures}

-- The results that are down before the first that is up, in the order of the table, newest first.
abbrev pub downs_first : ℕ → List CheckResult → ℕ
downs_first monitor_id [] = 0
downs_first monitor_id (r ∷ rs) =
    let rest = downs_first monitor_id rs in
    if r.monitor_id == monitor_id
    then elim r.status [ up ↦ 0 | down ↦ suc rest | unknown ↦ rest ]
    else rest

abbrev downs : List CheckResult → ℕ
downs [] = 0
downs (r ∷ rs) = let rest = downs rs in elim r.status [ up ↦ 0 | down ↦ suc rest | unknown ↦ rest ]

downs-keep :
    (id : ℕ) (rs : List CheckResult) → downs (keep (λ r. r.monitor_id == id) rs) ≡ downs_first id rs
downs-keep id [] = refl
downs-keep id (r ∷ rs) = ground (arith, downs-keep id rs)

abbrev before : ℕ → MonitorStatus × ℕ → Bool
before bound row = is_down row.0 && ltb row.1 bound

count-before_none :
    (bound rn : ℕ) (rs : List CheckResult) → bound ≤ rn → count (before bound) (ordered rn rs) ≡ 0
count-before_none bound rn [] h = refl
count-before_none bound rn (r ∷ rs) h =
    ground (arith, count-before_none bound (suc rn) rs (omega arith))

bound_above :
    (rn end : ℕ) (rs : List CheckResult)
    → rn + length rs ≤ end
    → rn ≤ coalesce (first_up (ordered rn rs)) end
bound_above rn end [] h = omega arith
bound_above rn end (r ∷ rs) h = ground (arith, bound_above (suc rn) end rs (omega arith))

count-before :
    (rn end : ℕ) (rs : List CheckResult)
    → rn + length rs ≤ end
    → count (before (coalesce (first_up (ordered rn rs)) end)) (ordered rn rs) ≡ downs rs
count-before rn end [] h = refl
count-before rn end (r ∷ rs) h = ground (
  arith,
  count-before (suc rn) end rs (omega arith),
  bound_above (suc rn) end rs (omega arith),
  count-before_none rn (suc rn) rs (omega arith),
)

length-ordered : (rn : ℕ) (rs : List CheckResult) → length (ordered rn rs) ≡ length rs
length-ordered rn [] = refl
length-ordered rn (r ∷ rs) = ap suc (length-ordered (suc rn) rs)

-- The count of consecutive failures, which the query finds by row numbers, is the number of down
-- results of the monitor that are newer than its latest up result, or of all its down results if
-- none is up; a result of unknown status neither counts nor ends the run.
pub count_failures_lem : (id : ℕ) (rs : List CheckResult) → count_failures id rs ≡ downs_first id rs
unfolding count_failures
count_failures_lem id rs =
    let mine = keep (λ r. r.monitor_id == id) rs in
    rw (length-ordered 1 mine)
      (count-before 1 (length mine + 1) mine (omega arith) ∙ downs-keep id rs)
