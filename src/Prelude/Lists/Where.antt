-- ===== src/Prelude/Lists/Where.antt =====
-- Updates and searches by a test: what they do to a predicate on all elements and to a count.
use Prim.Native.Nat.{◌≤◌}
use mathlib.Core.Path.{◌≡◌, refl, subst}
use mathlib.Core.Bool.{Bool, true, false}
use mathlib.Core.List.{List, [], ◌∷◌}
use mathlib.Core.Logic.{inl, inr}
use mathlib.Core.Option.{none, some}
use native.Mathlib.Omega.{arith}
use pingcast.Prelude.Tests.{Bool-cases}
use pingcast.Prelude.Lists.{count, find, any, update_where, All}

module _ {ℓ} {A : Type ℓ} (p : A → Bool) where
  pub count-of_not_any : (xs : List A) → any p xs ≡ false → count p xs ≡ 0
  count-of_not_any [] h = refl
  count-of_not_any (x ∷ xs) h = ground (arith, count-of_not_any xs)

  pub count-update_where-le :
      (q : A → Bool) (f : A → A) (xs : List A)
      → ((x : A) → p (f x) ≡ true → p x ≡ true)
      → count p (update_where q f xs) ≤ count p xs
  count-update_where-le q f [] h = omega arith
  count-update_where-le q f (x ∷ xs) h = ground (arith, count-update_where-le q f xs h, h x)

  pub find-none-count : (xs : List A) → find p xs ≡ none → count p xs ≡ 0
  find-none-count [] h = refl
  find-none-count (x ∷ xs) h = ground (arith, find-none-count xs)

  pub find_passes : (xs : List A) (x : A) → find p xs ≡ some x → p x ≡ true
  find_passes [] x h = cc
  find_passes (y ∷ xs) x h = ground (arith, find_passes xs x)

-- Where no element passes the test, an update changes nothing.
pub untouched {ℓ} :
    {A : Type ℓ} (q : A → Bool) (f : A → A) (xs : List A)
    → count q xs ≡ 0
    → update_where q f xs ≡ xs
untouched q f [] h = refl
untouched q f (x ∷ xs) h = ground (arith, untouched q f xs)

module _ {ℓ κ} {A : Type ℓ} (P : A → Type κ) where
  pub All-update_where :
      (q : A → Bool) (f : A → A) (xs : List A)
      → ((x : A) → P x → P (f x))
      → All P xs
      → All P (update_where q f xs)
  All-update_where q f [] k h = h
  All-update_where q f (x ∷ xs) k h = (
    elim (Bool-cases (q x)) [ inl e ↦ rw e (k x h.0) | inr e ↦ rw e h.0 ],
    All-update_where q f xs k h.1,
  )

  pub All-find : (p : A → Bool) (xs : List A) (x : A) → All P xs → find p xs ≡ some x → P x
  All-find p [] x h e = absurd (cc)
  All-find p (y ∷ xs) x h e = elim (Bool-cases (p y)) [
    | inl t ↦ subst P (ground arith) h.0
    | inr t ↦ All-find p xs x h.1 (ground arith)
  ]

  -- An update that keeps `P` at the rows where the test passes only once.
  pub All-update_where-found :
      (q : A → Bool) (f : A → A) (xs : List A) (x : A)
      → find q xs ≡ some x
      → count q xs ≤ 1
      → P (f x)
      → All P xs
      → All P (update_where q f xs)
  All-update_where-found q f [] x e c k h = h
  All-update_where-found q f (y ∷ xs) x e c k h = elim (Bool-cases (q y)) [
    | inl t ↦
        (rw t (subst (λ z. P (f z)) (ground arith) k), rw (untouched q f xs (ground arith)) h.1)
    | inr t ↦ (rw t h.0, All-update_where-found q f xs x (ground arith) (ground arith) k h.1)
  ]
