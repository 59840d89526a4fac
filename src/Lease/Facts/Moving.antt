-- ===== src/Lease/Facts/Moving.antt =====
-- A request moved by hand: crates/bellows-lease/src/scheduler.rs, `reorder` and `position`.
use bellows.Prelude.{
  ℕ, zero, suc, ◌+◌, ◌-◌, ◌≤◌, ◌≡◌, refl, true, some, List, [], ◌∷◌, arith, min, length, find,
  count, ap, ◌∙◌,
}
use bellows.Prelude.Key.{text_key, same_refl}
use bellows.Prelude.Sort.{sort_by, count-sort_by}
use bellows.Prelude.Text.{Text}
use bellows.Lease.State.{Scheduler, Waiting}
use bellows.Lease.Scheduler.Order.{
  order, rank_le, place, automatic_for, manual_for, insert_at, index_of, position,
}
use bellows.Lease.Scheduler.Admin.{reorder, reorder_waiting}
use bellows.Lease.Ids.Uses.{uses, has_id}
use bellows.Lease.Ids.Queue.{count_parts, count-and-le, asks_for}
use bellows.Lease.Valid.{IsValid}
use bellows.Lease.Valid.Marks.{count-reorder_waiting}

-- The request with its new position.
abbrev pub moved : ℕ → Waiting → Waiting
moved p w = record w { manual_position = some p }

reorder_found :
    (id p : ℕ) (machine : Text) (ws : List Waiting) {w : Waiting}
    → find (has_id id) ws ≡ some w
    → asks_for machine w ≡ true
    → manual_for machine ws ≡ []
    → (manual_for machine (reorder_waiting id p ws).0 ≡ moved p w ∷ [])
      × (find (has_id id) (reorder_waiting id p ws).0 ≡ some (moved p w))
      × ((reorder_waiting id p ws).1 ≡ true)
      × (w.id ≡ id)
unfolding reorder_waiting manual_for
reorder_found id p machine [] e a m = cc
reorder_found id p machine (v ∷ vs) {w} e a m =
    ground (arith, reorder_found id p machine vs {w = w})

index_of-insert_at :
    (id n : ℕ) (w : Waiting) (ws : List Waiting)
    → w.id ≡ id
    → count (has_id id) ws ≡ 0
    → n ≤ length ws
    → index_of id (insert_at n w ws) ≡ some n
unfolding index_of insert_at
index_of-insert_at id zero w ws e c h = ground arith
index_of-insert_at id (suc n) w [] e c h = absurd (omega arith)
index_of-insert_at id (suc n) w (v ∷ vs) e c h = ground (arith, index_of-insert_at id n w vs e)

length-insert_at :
    (n : ℕ) (w : Waiting) (ws : List Waiting) → length (insert_at n w ws) ≡ length ws + 1
unfolding insert_at
length-insert_at zero w ws = omega arith
length-insert_at (suc n) w [] = omega arith
length-insert_at (suc n) w (v ∷ vs) = omega (arith, length-insert_at n w vs)

order_one_moved :
    (s : Scheduler) (machine : Text) (w : Waiting) (n : ℕ)
    → manual_for machine s.waiting ≡ w ∷ []
    → w.manual_position ≡ some n
    → let rest = sort_by (rank_le s.merge_queue) (automatic_for machine s.waiting) in
      order s machine ≡ insert_at (min n (length rest)) w rest
unfolding order place sort_by
order_one_moved s machine w n m e = rw (m, e)

-- No other request for the machine has the id of the one moved.
alone :
    (s : Scheduler) (id : ℕ) (machine : Text) (w : Waiting)
    → count (has_id id) s.waiting ≤ 1
    → manual_for machine s.waiting ≡ w ∷ []
    → w.id ≡ id
    → count (has_id id) (sort_by (rank_le s.merge_queue) (automatic_for machine s.waiting)) ≡ 0
alone s id machine w u m e = ground (
  arith,
  count-sort_by (rank_le s.merge_queue) (has_id id) (automatic_for machine s.waiting),
  count_parts (has_id id) machine s.waiting,
  count-and-le (asks_for machine) (has_id id) s.waiting,
  ap (count (has_id id)) m,
)

position_of :
    (s : Scheduler) (id : ℕ) {w : Waiting}
    → find (has_id id) s.waiting ≡ some w
    → position s id ≡ index_of id (order s w.request.machine)
unfolding position
position_of s id f = rw (f, position)

position_moved :
    (s : Scheduler) (id p : ℕ) (w : Waiting)
    → count (has_id id) s.waiting ≤ 1
    → find (has_id id) s.waiting ≡ some w
    → manual_for w.request.machine s.waiting ≡ w ∷ []
    → w.manual_position ≡ some p
    → w.id ≡ id
    → position s id ≡ some (min p (length (order s w.request.machine) - 1))
position_moved s id p w u f m e i =
    let machine = w.request.machine in
    let rest = sort_by (rank_le s.merge_queue) (automatic_for machine s.waiting) in
    let o = order_one_moved s machine w p m e in
    rw (position_of s id {w = w} f, o)
      (index_of-insert_at id (min p (length rest)) w rest i (alone s id machine w u m i)
          (omega arith)
        ∙ ap some (omega (arith, length-insert_at (min p (length rest)) w rest)))

waiting_unique : (s : Scheduler) (id : ℕ) → IsValid s → count (has_id id) s.waiting ≤ 1
unfolding uses
waiting_unique s id v = omega (arith, v.unique id)

-- Where no request for the machine was moved before, the one that is moved to `p` stands at `p`, or
-- last if its queue is shorter.
pub position-reorder :
    (s : Scheduler) (id p : ℕ) (w : Waiting)
    → IsValid s
    → find (has_id id) s.waiting ≡ some w
    → manual_for w.request.machine s.waiting ≡ []
    → let (s', found) = reorder s id p in
      (found ≡ true) × (position s' id ≡ some (min p (length (order s' w.request.machine) - 1)))
unfolding reorder
position-reorder s id p w v f m =
    let (m', f', found, i) =
      reorder_found id p w.request.machine s.waiting {w = w} f (same_refl w.request.machine) m in
    (
      found,
      position_moved (reorder s id p).0 id p (moved p w)
          (rw (count-reorder_waiting id id p s.waiting) (waiting_unique s id v)) f' m' refl i,
    )
