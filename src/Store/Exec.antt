-- ===== src/Store/Exec.antt =====
-- Methods over the ports as state passing: what was written before an error stays written, so the
-- state comes back beside the error too, and a transaction puts the tables back.
pub mod Keeps
pub mod Reads
use pingcast.Prelude.{String, Option, none, some, if◌then◌else◌, ◌∷◌}
use pingcast.Error.{Error, foreign, wrap, Result, ok, err}
use pingcast.Store.World.{World, Env, Op, Metric, commit}

abbrev pub Exec {ℓ} : Type ℓ → Type ℓ
Exec A = World → Result A × World

abbrev continue : {A B : Type 0} → Result A → (A → Exec B) → Exec B
continue (ok a) f w = f a w
continue (err e) f w = (err e, w)

abbrev wrapped : {A : Type 0} → String → Result A → Result A
wrapped f (ok a) = ok a
wrapped f (err e) = err (wrap f e)

abbrev checked : Option Error → Result (Unit {0})
checked none = ok tt
checked (some e) = err e

abbrev called : {A : Type 0} → Option String → Exec A → Exec A
called none m w = m w
called (some s) m w = (err (foreign s), w)

-- The end of a transaction that began at `w`: the commit's fault, the body's result, its state.
abbrev ended : {A : Type 0} → Option String → World → Result A → World → Result A × World
ended fault w (err e) w' = (err e, record w' { db = w.db })
ended none w (ok a) w' = (ok a, w')
ended (some s) w (ok a) w' = (err (foreign s), record w' { db = w.db })

unfoldable pub pure : {A : Type 0} → A → Exec A
pure a w = (ok a, w)

unfoldable pub throw : {A : Type 0} → Error → Exec A
throw e w = (err e, w)

-- `if err := …; err != nil { return err }` for a check that returns an error or nil.
unfoldable pub check : Option Error → Exec (Unit {0})
check o w = (checked o, w)

-- The same, with the error wrapped: `fmt.Errorf("…: %w", err)`.
unfoldable pub wrapping : {A : Type 0} → String → Exec A → Exec A
wrapping f m w = let (r, w') = m w in (wrapped f r, w')

-- An error that the code looks at and does not return.
unfoldable pub attempt : {A : Type 0} → Exec A → Exec (Result A)
attempt m w = let (r, w') = m w in (ok r, w')

-- A call through a port: it fails for an outside reason, and then does nothing, or it is made.
unfoldable pub call : {A : Type 0} → Env → Op → Exec A → Exec A
call env op m = called (env.fault op) m

-- `if s.metrics != nil { s.metrics.… }`.
unfoldable pub count_metric : Env → Metric → Exec (Unit {0})
count_metric env m w = (ok tt, if env.has_metrics then record w { metrics = m ∷ w.metrics } else w)

-- `txm.Do`: the tables are put back on an error of the body or of the commit.
unfoldable pub transaction : {A : Type 0} → Env → Exec A → Exec A
transaction env m w = let (r, w') = m w in ended (env.fault commit) w r w'

-- Opening this opens all of the above.
infixl 5 ◌>>=◌ ◌>>◌
unfoldable pub ◌>>=◌ : {A B : Type 0} → Exec A → (A → Exec B) → Exec B
unfolding pure throw check wrapping attempt call count_metric transaction
◌>>=◌ m f w = let (r, w') = m w in continue r f w'

abbrev pub ◌>>◌ : {A B : Type 0} → Exec A → Exec B → Exec B
m >> k = m >>= λ _. k
