-- ===== src/Store/Exec/Keeps.antt =====
-- Invariants of the world, one rule for each way to build a method.
use pingcast.Prelude.{◌∷◌, String, Bool, true, false, if◌then◌else◌, Option, none, some, ◌≡◌, refl}
use pingcast.Error.{Error, Result, ok, err}
use pingcast.Store.World.{World, Env, Op, Metric, commit}
use pingcast.Store.Exec
use pingcast.Store.Exec.{
  Exec, pure, throw, check, wrapping, attempt, call, count_metric, transaction, ◌>>=◌,
}

-- `m` keeps `P`, whether it returns a value or an error.
pub record Keeps (P : World → Type 0) {A : Type 0} (m : Exec A) : Type 0 where
  pub at : (w : World) → P w → P (m w).1

-- `P` looks at the tables only.
pub record TablesOnly (P : World → Type 0) : Type 0 where
  pub holds : (w w' : World) → w.db ≡ w'.db → P w → P w'

module _ {P : World → Type 0} {A : Type 0} where
  pub Keeps-pure : (a : A) → Keeps P (pure a)
  unfolding pure
  Keeps-pure a = record { at = λ w h. h }

  pub Keeps-throw : (e : Error) → Keeps P (throw {A = A} e)
  unfolding throw
  Keeps-throw e = record { at = λ w h. h }

  pub Keeps-wrapping : (f : String) (m : Exec A) → Keeps P m → Keeps P (wrapping f m)
  unfolding wrapping
  Keeps-wrapping f m k = record { at = λ w h. k.at w h }

  pub Keeps-attempt : (m : Exec A) → Keeps P m → Keeps P (attempt m)
  unfolding attempt
  Keeps-attempt m k = record { at = λ w h. k.at w h }

  pub Keeps-call : (env : Env) (op : Op) (m : Exec A) → Keeps P m → Keeps P (call env op m)
  unfolding call
  Keeps-call env op m k = record { at = λ w h. by_fault (env.fault op) w h }
    where
      by_fault : (o : Option String) (w : World) → P w → P (Exec.called o m w).1
      by_fault none w h = k.at w h
      by_fault (some s) w h = h

  pub Keeps-if : (b : Bool) (m n : Exec A) → Keeps P m → Keeps P n → Keeps P (if b then m else n)
  Keeps-if true m n km kn = km
  Keeps-if false m n km kn = kn

  -- The test passes, so the other branch is not looked at.
  pub Keeps-then : (b : Bool) (m n : Exec A) → b ≡ true → Keeps P m → Keeps P (if b then m else n)
  Keeps-then true m n e km = km
  Keeps-then false m n e km = absurd (cc)

  pub Keeps-transaction :
      (env : Env) (m : Exec A) → TablesOnly P → Keeps P m → Keeps P (transaction env m)
  unfolding transaction
  Keeps-transaction env m t k = record {
    at = λ w h. by_end (env.fault commit) w (m w).0 (m w).1 h (k.at w h);
  }
    where
      by_end :
          (o : Option String) (w : World) (r : Result A) (w' : World)
          → P w
          → P w'
          → P (Exec.ended o w r w').1
      by_end o w (err e) w' h h' = t.holds w _ refl h
      by_end none w (ok a) w' h h' = h'
      by_end (some s) w (ok a) w' h h' = t.holds w _ refl h

module _ {P : World → Type 0} where
  pub Keeps-check : (o : Option Error) → Keeps P (check o)
  unfolding check
  Keeps-check o = record { at = λ w h. h }

  pub Keeps-count_metric :
      (env : Env) (m : Metric)
      → ((w : World) → P w → P (record w { metrics = m ∷ w.metrics }))
      → Keeps P (count_metric env m)
  unfolding count_metric
  Keeps-count_metric env m k = record { at = λ w h. by_wiring env.has_metrics w h }
    where
      by_wiring :
          (b : Bool) (w : World) → P w → P (if b then record w { metrics = m ∷ w.metrics } else w)
      by_wiring true w h = k w h
      by_wiring false w h = h

module _ {P : World → Type 0} {A B : Type 0} where
  pub Keeps-bind :
      (m : Exec A) (f : A → Exec B) → Keeps P m → ((a : A) → Keeps P (f a)) → Keeps P (m >>= f)
  unfolding ◌>>=◌
  Keeps-bind m f km kf = record { at = λ w h. by_result (m w).0 (m w).1 (km.at w h) }
    where
      by_result : (r : Result A) (w : World) → P w → P (Exec.continue r f w).1
      by_result (ok a) w h = (kf a).at w h
      by_result (err e) w h = h

pub ruleset keeps_rules = (
  Keeps-pure, Keeps-throw, Keeps-wrapping, Keeps-attempt, Keeps-call, Keeps-if, Keeps-transaction,
  Keeps-check, Keeps-count_metric, Keeps-bind,
)
