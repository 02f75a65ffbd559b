-- ===== src/Http/Access/Outcomes.antt =====
-- Predicates on what middlewares pass on, one rule for each way to build a middleware.
use pingcast.Prelude.{Bool, true, false, if◌then◌else◌, Option, ◌≡◌, refl, arith, subst}
use pingcast.Error.{ok}
use pingcast.Domain.User.{User}
use pingcast.Store.World.{World}
use pingcast.Store.Exec.{Exec, ◌>>=◌, pure}
use pingcast.Store.Exec.Reads.{after_ok}
use pingcast.Http.Access.{
  Outcome, next, unauthorized, forbidden_tenant, rate_limited, pro_required, then_run,
}

-- What is passed on satisfies the predicate.
pub record Passes (P : Option User → Type 0) (o : Outcome) : Type 0 where
  pub holds : (u : Option User) → o ≡ next u → P u

module _ {P : Option User → Type 0} where
  pub Passes-next : (u : Option User) → P u → Passes P (next u)
  Passes-next u h = record { holds = λ u' e. subst P (ground (arith, e)) h }

  pub Passes-if :
      (b : Bool) (o o' : Outcome) → Passes P o → Passes P o' → Passes P (if b then o else o')
  Passes-if true o o' h h' = h
  Passes-if false o o' h h' = h'

pub Passes-then :
    (P Q : Option User → Type 0) (o : Outcome) (m : Option User → Outcome)
    → Passes P o
    → ((u : Option User) → P u → Passes Q (m u))
    → Passes Q (then_run o m)
Passes-then P Q (next u) m h k = k u (h.holds u refl)
Passes-then P Q (unauthorized b) m h k = record { holds = λ u e. absurd (ground (arith, e)) }
Passes-then P Q forbidden_tenant m h k = record { holds = λ u e. absurd (ground (arith, e)) }
Passes-then P Q rate_limited m h k = record { holds = λ u e. absurd (ground (arith, e)) }
Passes-then P Q pro_required m h k = record { holds = λ u e. absurd (ground (arith, e)) }

-- The outcomes of a method satisfy the predicate.
pub record Yields (Q : Outcome → Type 0) (m : Exec Outcome) : Type 0 where
  pub yields : (w : World) (o : Outcome) → (m w).0 ≡ ok o → Q o

module _ {Q : Outcome → Type 0} where
  pub Yields-pure : (o : Outcome) → Q o → Yields Q (pure o)
  unfolding pure
  Yields-pure o h = record { yields = λ w o' e. subst Q (ground (arith, e)) h }

  pub Yields-if :
      (b : Bool) (m n : Exec Outcome) → Yields Q m → Yields Q n → Yields Q (if b then m else n)
  Yields-if true m n h k = h
  Yields-if false m n h k = k

  pub Yields-bind :
      {A : Type 0} (m : Exec A) (f : A → Exec Outcome)
      → ((a : A) → Yields Q (f a))
      → Yields Q (m >>= f)
  Yields-bind m f k = record {
    yields = λ w o. after_ok (λ r. Q o) m f w o (λ a e h. (k a).yields _ o h);
  }
