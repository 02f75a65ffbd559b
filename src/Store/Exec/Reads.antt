-- ===== src/Store/Exec/Reads.antt =====
-- Methods that write nothing, and going through a chain from one state with what the part that
-- was run returned.
use pingcast.Prelude.{String, Option, none, some, ◌≡◌, refl, ◌∙◌, arith}
use pingcast.Error.{Error, Result, ok, err}
use pingcast.Store.World.{World, Env, Op, commit}
use pingcast.Store.Exec
use pingcast.Store.Exec.{Exec, pure, check, wrapping, call, transaction, ◌>>=◌}
use pingcast.Store.Exec.Keeps.{Keeps, TablesOnly}

pub record Reads {A : Type 0} (m : Exec A) : Type 0 where
  pub same : (w : World) → (m w).1 ≡ w

module _ {A : Type 0} where
  pub Reads-call : (env : Env) (op : Op) (m : Exec A) → Reads m → Reads (call env op m)
  unfolding call
  Reads-call env op m k = record { same = λ w. by_fault (env.fault op) w }
    where
      by_fault : (o : Option String) (w : World) → (Exec.called o m w).1 ≡ w
      by_fault none w = k.same w
      by_fault (some s) w = refl

  pub Reads-wrapping : (f : String) (m : Exec A) → Reads m → Reads (wrapping f m)
  unfolding wrapping
  Reads-wrapping f m k = record { same = λ w. k.same w }

  pub Reads-Keeps : (P : World → Type 0) (m : Exec A) → Reads m → Keeps P m
  Reads-Keeps P m k = record { at = λ w h. rw k.same h }

pub Reads-check : (o : Option Error) → Reads (check o)
unfolding check
Reads-check o = record { same = λ w. refl }

pub Reads-pure : {A : Type 0} (a : A) → Reads (pure a)
unfolding pure
Reads-pure a = record { same = λ w. refl }

pub check-ok : (o : Option Error) (w : World) {u : Unit {0}} → (check o w).0 ≡ ok u → o ≡ none
unfolding check
check-ok o w h = ground arith

pub Reads-bind :
    {A B : Type 0} (m : Exec A) (f : A → Exec B)
    → Reads m
    → ((a : A) → Reads (f a))
    → Reads (m >>= f)
unfolding ◌>>=◌
Reads-bind {A} {B} m f k l = record { same = λ w. by_result (m w).0 (m w).1 w (k.same w) }
  where
    by_result : (r : Result A) (w' w : World) → w' ≡ w → (Exec.continue r f w').1 ≡ w
    by_result (ok a) w' w e = (l a).same w' ∙ e
    by_result (err x) w' w e = e

-- A chain that begins with a method that writes nothing, at one state.
pub bind_read :
    {A B : Type 0} (P : World → Type 0) (m : Exec A) (f : A → Exec B) (w : World)
    → Reads m
    → P w
    → ((a : A) → (m w).0 ≡ ok a → P (f a w).1)
    → P ((m >>= f) w).1
unfolding ◌>>=◌
bind_read {A} {B} P m f w reads h k = by_result (m w).0 (m w).1 (reads.same w) k
  where
    by_result :
        (r : Result A) (w' : World)
        → w' ≡ w
        → ((a : A) → r ≡ ok a → P (f a w).1)
        → P (Exec.continue r f w').1
    by_result (ok a) w' e k' = rw e (k' a refl)
    by_result (err x) w' e k' = rw e h

-- What holds after the body where it succeeds, and held before, holds after a transaction.
pub transaction_at :
    {A : Type 0} (P : World → Type 0) (env : Env) (m : Exec A) (w : World)
    → TablesOnly P
    → P w
    → ((a : A) → (m w).0 ≡ ok a → P (m w).1)
    → P (transaction env m w).1
unfolding transaction
transaction_at {A} P env m w t h k = by_end (env.fault commit) (m w).0 (m w).1 k
  where
    by_end :
        (o : Option String) (r : Result A) (w' : World)
        → ((a : A) → r ≡ ok a → P w')
        → P (Exec.ended o w r w').1
    by_end o (err e) w' k' = t.holds w _ refl h
    by_end none (ok a) w' k' = k' a refl
    by_end (some s) (ok a) w' k' = t.holds w _ refl h

-- A transaction that fails leaves the tables as they were.
pub transaction_atomic :
    {A : Type 0} (env : Env) (m : Exec A) (w : World) (e : Error)
    → (transaction env m w).0 ≡ err e
    → (transaction env m w).1.db ≡ w.db
unfolding transaction
transaction_atomic {A} env m w e = by_end (env.fault commit) (m w).0 (m w).1
  where
    by_end :
        (o : Option String) (r : Result A) (w' : World)
        → (Exec.ended o w r w').0 ≡ err e
        → (Exec.ended o w r w').1.db ≡ w.db
    by_end o (err x) w' h = refl
    by_end none (ok a) w' h = cc
    by_end (some s) (ok a) w' h = refl

-- A chain that succeeds and begins with a method that writes nothing: what holds after the rest,
-- from what that method returned.
pub read_ok :
    {A B : Type 0} (C : Result B × World → Type 0) (m : Exec A) (f : A → Exec B) (w : World) (b : B)
    → Reads m
    → ((a : A) → (m w).0 ≡ ok a → (f a w).0 ≡ ok b → C (f a w))
    → ((m >>= f) w).0 ≡ ok b
    → C ((m >>= f) w)
unfolding ◌>>=◌
read_ok {A} {B} C m f w b reads k = by_result (m w).0 (m w).1 (reads.same w) k
  where
    by_result :
        (r : Result A) (w' : World)
        → w' ≡ w
        → ((a : A) → r ≡ ok a → (f a w).0 ≡ ok b → C (f a w))
        → (Exec.continue r f w').0 ≡ ok b
        → C (Exec.continue r f w')
    by_result (ok a) w' e k' = rw e (k' a refl)
    by_result (err x) w' e k' = λ h. cc

-- A transaction that succeeds is its body.
pub transaction_ok :
    {A : Type 0} (env : Env) (m : Exec A) (w : World) (a : A)
    → (transaction env m w).0 ≡ ok a
    → transaction env m w ≡ m w
unfolding transaction
transaction_ok {A} env m w a = by_end (env.fault commit) (m w).0 (m w).1
  where
    by_end :
        (o : Option String) (r : Result A) (w' : World)
        → (Exec.ended o w r w').0 ≡ ok a
        → Exec.ended o w r w' ≡ (r, w')
    by_end o (err x) w' h = cc
    by_end none (ok b) w' h = refl
    by_end (some s) (ok b) w' h = cc

-- A chain that succeeds: what holds after the rest, from what the first method did.
pub bind_ok :
    {A B : Type 0} (C : Result B × World → Type 0) (m : Exec A) (f : A → Exec B) (w : World) (b : B)
    → ((a : A) → (m w).0 ≡ ok a → (f a (m w).1).0 ≡ ok b → C (f a (m w).1))
    → ((m >>= f) w).0 ≡ ok b
    → C ((m >>= f) w)
unfolding ◌>>=◌
bind_ok {A} {B} C m f w b = by_result (m w).0 (m w).1
  where
    by_result :
        (r : Result A) (w' : World)
        → ((a : A) → r ≡ ok a → (f a w').0 ≡ ok b → C (f a w'))
        → (Exec.continue r f w').0 ≡ ok b
        → C (Exec.continue r f w')
    by_result (ok a) w' k = k a refl
    by_result (err x) w' k = λ h. cc

-- A chain that succeeds: what holds after the rest, from what the first method returned and left.
pub after_ok :
    {A B : Type 0} (C : Result B × World → Type 0) (m : Exec A) (f : A → Exec B) (w : World) (b : B)
    → ((a : A) → (m w).0 ≡ ok a → (f a (m w).1).0 ≡ ok b → C (f a (m w).1))
    → ((m >>= f) w).0 ≡ ok b
    → C ((m >>= f) w)
unfolding ◌>>=◌
after_ok {A} {B} C m f w b k = by_result (m w).0 (m w).1 k
  where
    by_result :
        (r : Result A) (w' : World)
        → ((a : A) → r ≡ ok a → (f a w').0 ≡ ok b → C (f a w'))
        → (Exec.continue r f w').0 ≡ ok b
        → C (Exec.continue r f w')
    by_result (ok a) w' k' = k' a refl
    by_result (err x) w' k' = λ h. cc

-- A chain that fails and begins with a method that writes nothing.
pub read_err :
    {A B : Type 0} (P : World → Type 0) (m : Exec A) (f : A → Exec B) (w : World) (e : Error)
    → Reads m
    → P w
    → ((a : A) → (m w).0 ≡ ok a → (f a w).0 ≡ err e → P (f a w).1)
    → ((m >>= f) w).0 ≡ err e
    → P ((m >>= f) w).1
unfolding ◌>>=◌
read_err {A} {B} P m f w e reads h k = by_result (m w).0 (m w).1 (reads.same w) k
  where
    by_result :
        (r : Result A) (w' : World)
        → w' ≡ w
        → ((a : A) → r ≡ ok a → (f a w).0 ≡ err e → P (f a w).1)
        → (Exec.continue r f w').0 ≡ err e
        → P (Exec.continue r f w').1
    by_result (ok a) w' q k' = rw q (k' a refl)
    by_result (err x) w' q k' = λ _. rw q h

-- A chain that begins with a call through a port: what holds where the call is not made, and after the
-- rest where it is.
pub call_at :
    {A B : Type 0} (P : World → Type 0) (env : Env) (op : Op) (m : Exec A) (f : A → Exec B)
    (w : World)
    → P w
    → P (Exec.continue (m w).0 f (m w).1).1
    → P ((call env op m >>= f) w).1
unfolding ◌>>=◌
call_at {A} {B} P env op m f w h k = by_fault (env.fault op)
  where
    by_fault :
        (o : Option String) → P (Exec.continue (Exec.called o m w).0 f (Exec.called o m w).1).1
    by_fault none = k
    by_fault (some s) = h

pub wrapped_call_at :
    {A B : Type 0} (P : World → Type 0) (format : String) (env : Env) (op : Op) (m : Exec A)
    (f : A → Exec B) (w : World)
    → P w
    → P (Exec.continue (Exec.wrapped format (m w).0) f (m w).1).1
    → P ((wrapping format (call env op m) >>= f) w).1
unfolding ◌>>=◌
wrapped_call_at {A} {B} P format env op m f w h k = by_fault (env.fault op)
  where
    by_fault :
        (o : Option String)
        → P (Exec.continue (Exec.wrapped format (Exec.called o m w).0) f (Exec.called o m w).1).1
    by_fault none = k
    by_fault (some s) = h

-- A chain from one state: what holds where it stops at the first method, and where it goes on.
pub bind_at :
    {A B : Type 0} (P : World → Type 0) (m : Exec A) (f : A → Exec B) (w : World)
    → ((e : Error) → (m w).0 ≡ err e → P (m w).1)
    → ((a : A) → (m w).0 ≡ ok a → P (f a (m w).1).1)
    → P ((m >>= f) w).1
unfolding ◌>>=◌
bind_at {A} {B} P m f w stop go = by_result (m w).0 (m w).1 stop go
  where
    by_result :
        (r : Result A) (w' : World)
        → ((e : Error) → r ≡ err e → P w')
        → ((a : A) → r ≡ ok a → P (f a w').1)
        → P (Exec.continue r f w').1
    by_result (ok a) w' stop' go' = go' a refl
    by_result (err e) w' stop' go' = stop' e refl

-- What was published is not taken back.
pub transaction-events :
    {A : Type 0} (env : Env) (m : Exec A) (w : World)
    → (transaction env m w).1.events ≡ (m w).1.events
unfolding transaction
transaction-events {A} env m w = by_end (env.fault commit) (m w).0 (m w).1
  where
    by_end :
        (o : Option String) (r : Result A) (w' : World) → (Exec.ended o w r w').1.events ≡ w'.events
    by_end o (err e) w' = refl
    by_end none (ok a) w' = refl
    by_end (some s) (ok a) w' = refl
