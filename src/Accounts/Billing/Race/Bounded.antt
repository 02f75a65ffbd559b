-- ===== src/Accounts/Billing/Race/Bounded.antt =====
-- The cap on founders holds however the transactions interleave.
use pingcast.Prelude.{
  ℕ, ◌+◌, ◌≤◌, ltb, Bool, true, false, not, ◌&&◌, ◌||◌, some, List, [], ◌∷◌, all, count, map,
  update_where, Text, codes, text_eq, ◌≡◌, refl, sym, subst, arith, Bool-cases, Option-cases, inl,
  inr,
}
use pingcast.Store.World.{UserRow}
use pingcast.Store.Users.{is_live, is_founder, with_variant}
use pingcast.Accounts.Billing.Cap.{has_id, founders-tagged, founders-other}
use pingcast.Accounts.Billing.Race
use pingcast.Accounts.Billing.Race.{
  Phase, acquiring, counting, writing, ended, Transaction, begin, System, advance, rolled_back, nth,
  set_nth, is_held, moved, interleave,
}
use pingcast.Accounts.Billing.Race.Lock.{
  safe_at, is_safe, held, all-fewer, nth-safe, set-safe, one_if, count-set, set-holder, unheld,
  ids-kept, founders,
}

pub record IsBounded (cap : ℕ) (s : System) : Type 0 where
  pub capped : founders s.users ≤ cap
  pub single : (id : ℕ) → count (has_id id) s.users ≤ 1
  pub one : count held s.transactions ≤ 1
  pub safe : all (is_safe cap (founders s.users)) s.transactions ≡ true

module _ (cap i : ℕ) (s : System) (t : Transaction) (e : nth i s.transactions ≡ some t)
    (h : IsBounded cap s) where
  replaced :
      (t' : Transaction)
      → count held s.transactions + one_if t' ≤ 1 + one_if t
      → is_safe cap (founders s.users) t' ≡ true
      → IsBounded cap (record s { transactions = set_nth i t' s.transactions })
  replaced t' u k = record {
    capped = h.capped;
    single = h.single;
    one = ground (arith, u, count-set i t' t s.transactions e);
    safe = set-safe cap (founders s.users) i t' s.transactions h.safe k;
  }

  abbrev written_users : List UserRow
  written_users = update_where (is_live t.user_id) (with_variant t.chosen) s.users

  finished :
      founders written_users ≤ cap
      → all (is_safe cap (founders written_users)) (set_nth i (rolled_back t) s.transactions) ≡ true
      → IsBounded cap (record {
        users = written_users;
        transactions = set_nth i (rolled_back t) s.transactions;
      })
  finished le k = record {
    capped = le;
    single = λ id. subst (λ n. n ≤ 1) (sym (ids-kept id t.user_id t.chosen s.users)) (h.single id);
    one = ground (arith, h.one, count-set i (rolled_back t) t s.transactions e);
    safe = k;
  }

  written :
      (not (text_eq t.chosen (codes "founder")) || (t.holds && ltb (founders s.users) cap)) ≡ true
      → IsBounded cap (record {
        users = written_users;
        transactions = set_nth i (rolled_back t) s.transactions;
      })
  written ok = elim (Bool-cases (text_eq t.chosen (codes "founder"))) [
    | inl f ↦
        finished
          (ground (arith, f, ok, founders-tagged t.user_id t.chosen s.users, h.single t.user_id))
          (set-holder cap (founders s.users) (founders written_users) i (rolled_back t) t
            s.transactions e (ground (arith, f, ok)) h.one h.safe refl)
    | inr f ↦
        let fewer = founders-other t.user_id t.chosen s.users f in
        finished (ground (arith, fewer, h.capped)) (
          set-safe cap (founders written_users) i (rolled_back t) s.transactions
            (all-fewer cap (founders s.users) (founders written_users) s.transactions fewer h.safe)
            refl)
  ]

  is : is_safe cap (founders s.users) t ≡ true
  is = nth-safe cap (founders s.users) i t s.transactions e h.safe

  abbrev stepped : Phase → Bool → System
  stepped p locked =
      let (t', users) = Race.advance_at p cap locked s.users t in
      record { users = users; transactions = set_nth i t' s.transactions }

  by_phase :
      (p : Phase) (locked : Bool)
      → t.phase ≡ p
      → is_held s.transactions ≡ locked
      → IsBounded cap (stepped p locked)
  by_phase acquiring true q l = replaced t (omega (arith, h.one)) is
  by_phase acquiring false q l =
      replaced (record t { phase = counting; holds = true })
        (ground (arith, unheld s.transactions l)) refl
  by_phase counting locked q l =
      replaced _ (omega (arith, h.one))
        (ground (arith, subst (λ p. safe_at p cap (founders s.users) t ≡ true) q is))
  by_phase writing locked q l =
      written (subst (λ p. safe_at p cap (founders s.users) t ≡ true) q is)
  by_phase ended locked q l = replaced t (omega (arith, h.one)) is

moved-IsBounded :
    (cap i : ℕ) (fails : Bool) (s : System)
    → IsBounded cap s
    → IsBounded cap (moved cap i fails (nth i s.transactions) s)
unfolding advance
moved-IsBounded cap i fails s h = elim (Option-cases (nth i s.transactions)) [
  | inl e ↦ rw e h
  | inr (t, e) ↦ rw e (by_fault fails t e)
]
  where
    by_fault :
        (fails : Bool) (t : Transaction)
        → nth i s.transactions ≡ some t
        → IsBounded cap (moved cap i fails (some t) s)
    by_fault true t e = replaced cap i s t e h (rolled_back t) (omega (arith, h.one)) refl
    by_fault false t e = by_phase cap i s t e h t.phase (is_held s.transactions) refl refl

interleave-IsBounded :
    (cap : ℕ) (ps : List (ℕ × Bool)) (s : System)
    → IsBounded cap s
    → IsBounded cap (interleave cap ps s)
unfolding interleave
interleave-IsBounded cap [] s h = h
interleave-IsBounded cap (p ∷ ps) s h =
    interleave-IsBounded cap ps (moved cap p.0 p.1 (nth p.0 s.transactions) s)
      (moved-IsBounded cap p.0 p.1 s h)

-- The transactions of calls, with their users and the variants that they ask for, at their start.
abbrev pub begun : List (ℕ × Text) → List Transaction
begun calls = map (λ c. begin c.0 c.1) calls

begin-safe :
    (cap n id : ℕ) (requested : Text)
    → ((begin id requested).holds ≡ false) × (is_safe cap n (begin id requested) ≡ true)
unfolding begin
begin-safe cap n id requested = elim (Bool-cases (text_eq requested (codes "founder"))) [
  | inl e ↦ (refl, rw e refl)
  | inr e ↦ (refl, rw e (ground (arith, e)))
]

begun-safe :
    (cap n : ℕ) (calls : List (ℕ × Text))
    → (count held (begun calls) ≡ 0) × (all (is_safe cap n) (begun calls) ≡ true)
begun-safe cap n [] = (refl, refl)
begun-safe cap n (c ∷ cs) = ground (arith, begin-safe cap n c.0 c.1, begun-safe cap n cs)

-- Calls of TagFromWebhook whose transactions interleave statement by statement, in whatever order and
-- with whatever statements that fail: if at most `cap` founders are counted before and identifiers of
-- users are unique, at most `cap` are counted after any number of steps.
pub interleave-Capped :
    (cap : ℕ) (calls : List (ℕ × Text)) (schedule : List (ℕ × Bool)) (users : List UserRow)
    → ((id : ℕ) → count (has_id id) users ≤ 1)
    → count is_founder users ≤ cap
    → count is_founder
        (interleave cap schedule (record { users = users; transactions = begun calls })).users
      ≤ cap
interleave-Capped cap calls schedule users single h =
    let (none_holds, all_safe) = begun-safe cap (count is_founder users) calls in
    (interleave-IsBounded cap schedule (record { users = users; transactions = begun calls })
      (record {
        capped = h;
        single = single;
        one = ground (arith, none_holds);
        safe = all_safe;
      })).capped
