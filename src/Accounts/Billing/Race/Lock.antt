-- ===== src/Accounts/Billing/Race/Lock.antt =====
-- Who may write a founder, and what a step of one transaction leaves of that.
use pingcast.Prelude.{
  ℕ, zero, suc, ◌+◌, ◌≤◌, ltb, Bool, true, false, not, ◌&&◌, ◌||◌, if◌then◌else◌, some, List, [],
  ◌∷◌, all, count, update_where, Text, codes, text_eq, ◌≡◌, refl, ap, subst, arith,
}
use pingcast.Store.World.{UserRow}
use pingcast.Store.Users.{is_live, is_founder, with_variant}
use pingcast.Accounts.Billing.Cap.{has_id}
use pingcast.Accounts.Billing.Race.{
  Phase, acquiring, counting, writing, ended, Transaction, nth, set_nth, is_held,
}

-- With so many founders in the table, whoever is about to write another one has the lock.
abbrev pub safe_at : Phase → ℕ → ℕ → Transaction → Bool
safe_at acquiring cap n t = true
safe_at counting cap n t = t.holds
safe_at writing cap n t = not (text_eq t.chosen (codes "founder")) || (t.holds && ltb n cap)
safe_at ended cap n t = true

abbrev pub is_safe : ℕ → ℕ → Transaction → Bool
is_safe cap n t = safe_at t.phase cap n t

safe-fewer :
    (cap n n' : ℕ) (t : Transaction) → n' ≤ n → is_safe cap n t ≡ true → is_safe cap n' t ≡ true
safe-fewer cap n n' t le h = by_phase t.phase h
  where
    by_phase : (p : Phase) → safe_at p cap n t ≡ true → safe_at p cap n' t ≡ true
    by_phase acquiring h = refl
    by_phase counting h = h
    by_phase writing h = ground (arith, le, h)
    by_phase ended h = refl

safe-free :
    (cap n n' : ℕ) (t : Transaction)
    → t.holds ≡ false
    → is_safe cap n t ≡ true
    → is_safe cap n' t ≡ true
safe-free cap n n' t f h = by_phase t.phase h
  where
    by_phase : (p : Phase) → safe_at p cap n t ≡ true → safe_at p cap n' t ≡ true
    by_phase acquiring h = refl
    by_phase counting h = h
    by_phase writing h = ground (arith, f, h)
    by_phase ended h = refl

abbrev pub held : Transaction → Bool
held t = t.holds

pub all-fewer :
    (cap n n' : ℕ) (ts : List Transaction)
    → n' ≤ n
    → all (is_safe cap n) ts ≡ true
    → all (is_safe cap n') ts ≡ true
all-fewer cap n n' [] le h = refl
all-fewer cap n n' (t ∷ ts) le h =
    ground (arith, h, safe-fewer cap n n' t le, all-fewer cap n n' ts le)

all-free :
    (cap n n' : ℕ) (ts : List Transaction)
    → count held ts ≡ 0
    → all (is_safe cap n) ts ≡ true
    → all (is_safe cap n') ts ≡ true
all-free cap n n' [] f h = refl
all-free cap n n' (t ∷ ts) f h = ground (arith, f, h, safe-free cap n n' t, all-free cap n n' ts)

head-same : (x t : Transaction) → some x ≡ some t → x ≡ t
head-same x t e = cc

pub nth-safe :
    (cap n i : ℕ) (t : Transaction) (ts : List Transaction)
    → nth i ts ≡ some t
    → all (is_safe cap n) ts ≡ true
    → is_safe cap n t ≡ true
nth-safe cap n i t [] e h = cc
nth-safe cap n zero t (x ∷ ts) e h =
    subst (λ y. is_safe cap n y ≡ true) (head-same x t e) (ground (arith, h))
nth-safe cap n (suc i) t (x ∷ ts) e h = nth-safe cap n i t ts e (ground (arith, h))

pub set-safe :
    (cap n i : ℕ) (t : Transaction) (ts : List Transaction)
    → all (is_safe cap n) ts ≡ true
    → is_safe cap n t ≡ true
    → all (is_safe cap n) (set_nth i t ts) ≡ true
set-safe cap n i t [] h k = refl
set-safe cap n zero t (x ∷ ts) h k = ground (arith, h, k)
set-safe cap n (suc i) t (x ∷ ts) h k = ground (arith, h, set-safe cap n i t ts)

abbrev pub one_if : Transaction → ℕ
one_if t = if t.holds then 1 else 0

pub count-set :
    (i : ℕ) (t x : Transaction) (ts : List Transaction)
    → nth i ts ≡ some x
    → count held (set_nth i t ts) + one_if x ≡ count held ts + one_if t
count-set i t x [] e = cc
count-set zero t x (y ∷ ts) e =
    subst (λ z. count held (t ∷ ts) + one_if z ≡ count held (y ∷ ts) + one_if t) (head-same y x e)
      (ground arith)
count-set (suc i) t x (y ∷ ts) e = ground (arith, count-set i t x ts e)

nth-held :
    (i : ℕ) (x : Transaction) (ts : List Transaction)
    → nth i ts ≡ some x
    → x.holds ≡ true
    → 1 ≤ count held ts
nth-held i x [] e h = cc
nth-held zero x (y ∷ ts) e h = ground (arith, h, ap (λ z. z.holds) (head-same y x e))
nth-held (suc i) x (y ∷ ts) e h = ground (arith, nth-held i x ts e h)

-- The only holder writes: what the others may do rests on the lock.
pub set-holder :
    (cap n n' i : ℕ) (t x : Transaction) (ts : List Transaction)
    → nth i ts ≡ some x
    → x.holds ≡ true
    → count held ts ≤ 1
    → all (is_safe cap n) ts ≡ true
    → is_safe cap n' t ≡ true
    → all (is_safe cap n') (set_nth i t ts) ≡ true
set-holder cap n n' i t x [] e h u a k = refl
set-holder cap n n' zero t x (y ∷ ts) e h u a k =
    ground (arith, k, all-free cap n n' ts, h, ap (λ z. z.holds) (head-same y x e), u, a)
set-holder cap n n' (suc i) t x (y ∷ ts) e h u a k =
    ground
      (arith, u, a, nth-held i x ts e h, safe-free cap n n' y, set-holder cap n n' i t x ts e h)

pub unheld : (ts : List Transaction) → is_held ts ≡ false → count held ts ≡ 0
unheld [] h = refl
unheld (t ∷ ts) h = ground (arith, h, unheld ts)

pub ids-kept :
    (id k : ℕ) (v : Text) (rows : List UserRow)
    → count (has_id id) (update_where (is_live k) (with_variant v) rows) ≡ count (has_id id) rows
ids-kept id k v [] = refl
ids-kept id k v (row ∷ rows) = ground (arith, ids-kept id k v rows)

abbrev pub founders : List UserRow → ℕ
founders = count is_founder
