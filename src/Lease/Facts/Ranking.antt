-- ===== src/Lease/Facts/Ranking.antt =====
-- The grant order: crates/bellows-lease/src/scheduler.rs, `order`.
use bellows.Prelude.{
  ℕ, ◌+◌, ◌≤◌, ◌<◌, ◌≡◌, refl, Bool, true, false, List, [], ◌∷◌, All, arith, ◌⊎◌, not, is_some,
  retain, zero, suc, ◌∙◌, min, length,
}
use bellows.Prelude.Int.{ℤ, pos_part, neg_part}
use bellows.Prelude.Map.{Map}
use bellows.Prelude.Sort.{sort_by, IsSorted, IsTotalOrder, sort_by-IsSorted, All-sort_by}
use bellows.Prelude.Text.{Text}
use bellows.Lease.State.{Scheduler, Waiting}
use bellows.Lease.Scheduler.Order.{
  order, rank_le, rank_cmp, merge_position, or_last, place, automatic_for, manual_for, manual_le,
  insert_at, or_zero,
}

abbrev pub LessInt : ℤ → ℤ → Type 0
LessInt a b = pos_part a + neg_part b < pos_part b + neg_part a

abbrev pub SameInt : ℤ → ℤ → Type 0
SameInt a b = pos_part a + neg_part b ≡ pos_part b + neg_part a

-- `v` comes before `w`: by a higher priority, then an earlier place in the merge queue, then an
-- earlier arrival, then the smaller id.
abbrev pub ComesBefore : Map ℕ ℕ → Waiting → Waiting → Type 0
ComesBefore queue v w =
    LessInt w.request.priority v.request.priority
    ⊎ (SameInt v.request.priority w.request.priority
        × (or_last (merge_position queue v) < or_last (merge_position queue w)
            ⊎ ((or_last (merge_position queue v) ≡ or_last (merge_position queue w))
                × (v.since_ms < w.since_ms ⊎ ((v.since_ms ≡ w.since_ms) × (v.id ≤ w.id))))))

rank_le-ComesBefore :
    (queue : Map ℕ ℕ) (v w : Waiting) → rank_le queue v w ≡ true → ComesBefore queue v w
unfolding rank_le rank_cmp
rank_le-ComesBefore queue v w h = ground arith

rank_total :
    (queue : Map ℕ ℕ) (v w : Waiting) → rank_le queue v w ≡ false → rank_le queue w v ≡ true
unfolding rank_le rank_cmp
rank_total queue v w h = ground arith

rank_trans :
    (queue : Map ℕ ℕ) (u v w : Waiting)
    → rank_le queue u v ≡ true
    → rank_le queue v w ≡ true
    → rank_le queue u w ≡ true
unfolding rank_le rank_cmp
rank_trans queue u v w h k = ground arith

pub rank_le-IsTotalOrder : (queue : Map ℕ ℕ) → IsTotalOrder (rank_le queue)
rank_le-IsTotalOrder queue = record { total = rank_total queue; le_trans = rank_trans queue }

-- Each request comes before all later ones.
abbrev pub IsRanked : Map ℕ ℕ → List Waiting → Type 0
IsRanked queue [] = Unit
IsRanked queue (v ∷ ws) = All (ComesBefore queue v) ws × IsRanked queue ws

All-ComesBefore :
    (queue : Map ℕ ℕ) (v : Waiting) (ws : List Waiting)
    → All (λ w. rank_le queue v w ≡ true) ws
    → All (ComesBefore queue v) ws
All-ComesBefore queue v [] a = tt
All-ComesBefore queue v (w ∷ ws) a =
    (rank_le-ComesBefore queue v w a.0, All-ComesBefore queue v ws a.1)

IsSorted-IsRanked :
    (queue : Map ℕ ℕ) (ws : List Waiting) → IsSorted (rank_le queue) ws → IsRanked queue ws
IsSorted-IsRanked queue [] s = tt
IsSorted-IsRanked queue (w ∷ ws) s =
    (All-ComesBefore queue w ws s.0, IsSorted-IsRanked queue ws s.1)

abbrev pub is_automatic : Waiting → Bool
is_automatic w = not (is_some w.manual_position)

retain-insert_at :
    (q : Waiting → Bool) (n : ℕ) (w : Waiting) (ws : List Waiting)
    → q w ≡ false
    → retain q (insert_at n w ws) ≡ retain q ws
unfolding insert_at
retain-insert_at q zero w ws h = rw h
retain-insert_at q (suc n) w [] h = rw h
retain-insert_at q (suc n) w (v ∷ vs) h = ground (arith, retain-insert_at q n w vs h)

retain-place :
    (q : Waiting → Bool) (ms ws : List Waiting)
    → All (λ w. q w ≡ false) ms
    → retain q (place ms ws) ≡ retain q ws
unfolding place
retain-place q [] ws h = refl
retain-place q (m ∷ ms) ws h =
    retain-place q ms _ h.1
    ∙ retain-insert_at q (min (or_zero m.manual_position) (length ws)) m ws h.0

retain-All : (q : Waiting → Bool) (ws : List Waiting) → All (λ w. q w ≡ true) ws → retain q ws ≡ ws
retain-All q [] h = refl
retain-All q (w ∷ ws) h = rw (h.0, retain-All q ws h.1)

All-manual_for :
    (machine : Text) (ws : List Waiting) → All (λ w. is_automatic w ≡ false) (manual_for machine ws)
unfolding manual_for
All-manual_for machine [] = tt
All-manual_for machine (w ∷ ws) = ground (arith, All-manual_for machine ws)

All-automatic_for :
    (machine : Text) (ws : List Waiting)
    → All (λ w. is_automatic w ≡ true) (automatic_for machine ws)
unfolding automatic_for
All-automatic_for machine [] = tt
All-automatic_for machine (w ∷ ws) = ground (arith, All-automatic_for machine ws)

automatic_order :
    (s : Scheduler) (machine : Text)
    → retain is_automatic (order s machine)
      ≡ sort_by (rank_le s.merge_queue) (automatic_for machine s.waiting)
unfolding order
automatic_order s machine =
    let ms = manual_for machine s.waiting in
    let ws = automatic_for machine s.waiting in
    retain-place is_automatic (sort_by manual_le ms) (sort_by (rank_le s.merge_queue) ws)
      (All-sort_by manual_le (λ w. is_automatic w ≡ false) ms (All-manual_for machine s.waiting))
    ∙ retain-All is_automatic (sort_by (rank_le s.merge_queue) ws) (
        All-sort_by (rank_le s.merge_queue) (λ w. is_automatic w ≡ true) ws
          (All-automatic_for machine s.waiting))

-- In a machine's queue the requests that nobody moved by hand stand in rank order.
pub order-IsRanked :
    (s : Scheduler) (machine : Text)
    → IsRanked s.merge_queue (retain is_automatic (order s machine))
order-IsRanked s machine = rw (automatic_order s machine) (
    IsSorted-IsRanked s.merge_queue
      (sort_by (rank_le s.merge_queue) (automatic_for machine s.waiting))
      (sort_by-IsSorted (rank_le-IsTotalOrder s.merge_queue) (automatic_for machine s.waiting)))
