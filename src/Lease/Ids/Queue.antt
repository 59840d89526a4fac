-- ===== src/Lease/Ids/Queue.antt =====
-- The queue's order holds the machine's requests, each as often as it waits:
-- crates/bellows-lease/src/scheduler.rs, `order` and `grant`.
use bellows.Prelude.{
  ℕ, zero, suc, ◌+◌, ◌≤◌, ◌<◌, ◌≡◌, refl, Bool, true, false, ◌&&◌, Option, none, some, List, [],
  ◌∷◌, bit, count, find, ◌==◌, arith, min, length, Bool-cases, Option-cases, ==_iff, inl, inr,
  option_map, subst,
}
use bellows.Prelude.Sort.{sort_by, count-sort_by}
use bellows.Prelude.Text.{Text, text_eq}
use bellows.Lease.State.{Scheduler, Waiting}
use bellows.Lease.Scheduler.Order.{
  order, place, insert_at, automatic_for, manual_for, rank_le, manual_le, or_zero,
}
use bellows.Lease.Scheduler.Grant.{take_waiting}
use bellows.Lease.Ids.Uses.{has_id}

pub count-insert_at {ℓ} :
    {A : Type ℓ} (p : A → Bool) (n : ℕ) (x : A) (xs : List A)
    → count p (insert_at n x xs) ≡ bit (p x) + count p xs
unfolding insert_at
count-insert_at p zero x xs = refl
count-insert_at p (suc n) x [] = refl
count-insert_at p (suc n) x (y ∷ ys) = omega (arith, count-insert_at p n x ys)

count-place :
    (p : Waiting → Bool) (ms ws : List Waiting) → count p (place ms ws) ≡ count p ms + count p ws
unfolding place
count-place p [] ws = omega arith
count-place p (m ∷ ms) ws =
    let at = min (or_zero m.manual_position) (length ws) in
    omega (arith, count-place p ms (insert_at at m ws), count-insert_at p at m ws)

abbrev pub asks_for : Text → Waiting → Bool
asks_for machine w = text_eq w.request.machine machine

pub count_parts :
    (p : Waiting → Bool) (machine : Text) (ws : List Waiting)
    → count p (manual_for machine ws) + count p (automatic_for machine ws)
      ≡ count (λ w. asks_for machine w && p w) ws
unfolding manual_for automatic_for
count_parts p machine [] = refl
count_parts p machine (w ∷ ws) = ground (arith, count_parts p machine ws)

-- The order for a machine holds exactly the requests that ask for it.
pub count-order :
    (p : Waiting → Bool) (s : Scheduler) (machine : Text)
    → count p (order s machine) ≡ count (λ w. asks_for machine w && p w) s.waiting
unfolding order
count-order p s machine =
    let ms = manual_for machine s.waiting in
    let ws = automatic_for machine s.waiting in
    omega (
      arith,
      count-place p (sort_by manual_le ms) (sort_by (rank_le s.merge_queue) ws),
      count-sort_by manual_le p ms,
      count-sort_by (rank_le s.merge_queue) p ws,
      count_parts p machine s.waiting,
    )

pub count-and-le :
    {A : Type 0} (p q : A → Bool) (xs : List A) → count (λ x. p x && q x) xs ≤ count q xs
count-and-le p q [] = omega arith
count-and-le p q (x ∷ xs) = ground (arith, count-and-le p q xs)

pub count_of_find :
    {A : Type 0} (p q : A → Bool) (xs : List A) {x : A}
    → find p xs ≡ some x
    → q x ≡ true
    → 0 < count q xs
count_of_find p q [] h e = cc
count_of_find p q (y ∷ ys) {x} h e = ground (arith, count_of_find p q ys {x = x})

-- What `take_waiting` returns: a request with the id and the rest, or there is none.
abbrev pub Takes : (Waiting → Bool) → ℕ → List Waiting → Option (Waiting × List Waiting) → Type 0
Takes p id ws none = count (has_id id) ws ≡ 0
Takes p id ws (some (w, rest)) = (w.id ≡ id) × (count p ws ≡ bit (p w) + count p rest)

Takes-later :
    (p : Waiting → Bool) (id : ℕ) (v : Waiting) (vs : List Waiting)
    (r : Option (Waiting × List Waiting))
    → (v.id == id) ≡ false
    → Takes p id vs r
    → Takes p id (v ∷ vs) (option_map (λ r. (r.0, v ∷ r.1)) r)
Takes-later p id v vs none e h = ground arith
Takes-later p id v vs (some (w, rest)) e h = (h.0, omega arith)

-- The request that is taken and those that stay are the requests there were.
pub take_waiting-Takes :
    (p : Waiting → Bool) (id : ℕ) (ws : List Waiting) → Takes p id ws (take_waiting id ws)
unfolding take_waiting
take_waiting-Takes p id [] = refl
take_waiting-Takes p id (v ∷ vs) = elim (Bool-cases (v.id == id)) [
  | inl e ↦ rw (e, take_waiting) ((==_iff v.id id).0 e, refl)
  | inr e ↦
      rw (e, take_waiting)
        (Takes-later p id v vs (take_waiting id vs) e (take_waiting-Takes p id vs))
]

-- A request that waits can be taken.
pub take_waiting_total :
    (id : ℕ) (ws : List Waiting)
    → 0 < count (has_id id) ws
    → (r : Waiting × List Waiting) × (take_waiting id ws ≡ some r)
take_waiting_total id ws h = elim (Option-cases (take_waiting id ws)) [
  | inl e ↦
      absurd
        (omega (arith, subst (Takes (has_id id) id ws) e (take_waiting-Takes (has_id id) id ws)))
  | inr found ↦ found
]
