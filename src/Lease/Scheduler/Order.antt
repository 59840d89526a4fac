-- ===== src/Lease/Scheduler/Order.antt =====
-- The grant order: crates/bellows-lease/src/scheduler.rs, `order` and `position`.
use bellows.Prelude.{
  ℕ, zero, suc, ◌-◌, ◌^◌, compare, Ordering, min, Bool, true, false, ◌&&◌, not, Option, none, some,
  List, [], ◌∷◌, ◌==◌, if◌then◌else◌, length, retain, find, is_some, option_map,
}
use bellows.Prelude.Int.{compare_ℤ}
use bellows.Prelude.Key.{text_key, nat_key}
use bellows.Prelude.Map.{Map, get}
use bellows.Prelude.Sort.{sort_by}
use bellows.Prelude.Text.{Text, text_eq}
use bellows.Lease.State.{Scheduler, Waiting}

-- `sort_by_key` compares the tuples of keys from the left.
abbrev pub and_then : Ordering → Ordering → Ordering
and_then Ordering.eq second = second
and_then first _ = first

-- `usize::MAX`.
abbrev pub usize_max : ℕ
usize_max = 2 ^ 64 - 1

unfoldable pub merge_position : Map ℕ ℕ → Waiting → Option ℕ
merge_position queue w = elim w.request.pr [ none ↦ none | some pr ↦ get pr queue ]

abbrev pub or_last : Option ℕ → ℕ
or_last none = usize_max
or_last (some n) = n

-- The order of the keys: `Reverse` swaps the priorities.
unfoldable pub rank_cmp : Map ℕ ℕ → Waiting → Waiting → Ordering
rank_cmp queue v w = and_then (compare_ℤ w.request.priority v.request.priority) (
    and_then (compare (or_last (merge_position queue v)) (or_last (merge_position queue w)))
      (and_then (compare v.since_ms w.since_ms) (compare v.id w.id)))

abbrev pub at_most : Ordering → Bool
at_most Ordering.gt = false
at_most _ = true

unfoldable pub rank_le : Map ℕ ℕ → Waiting → Waiting → Bool
rank_le queue v w = at_most (rank_cmp queue v w)

-- `None` orders before every `Some`.
unfoldable pub compare_option : Option ℕ → Option ℕ → Ordering
compare_option none none = Ordering.eq
compare_option none (some b) = Ordering.lt
compare_option (some a) none = Ordering.gt
compare_option (some a) (some b) = compare a b

unfoldable pub manual_le : Waiting → Waiting → Bool
unfolding compare_option
manual_le v w =
    at_most (and_then (compare_option v.manual_position w.manual_position) (compare v.id w.id))

-- `Vec::insert`, at an index that is at most the length.
unfoldable pub insert_at {ℓ} : {A : Type ℓ} → ℕ → A → List A → List A
insert_at zero x ys = x ∷ ys
insert_at (suc n) x [] = x ∷ []
insert_at (suc n) x (y ∷ ys) = y ∷ insert_at n x ys

abbrev pub or_zero : Option ℕ → ℕ
or_zero none = 0
or_zero (some n) = n

-- The loop that puts each manual request at its position.
unfoldable pub place : List Waiting → List Waiting → List Waiting
unfolding insert_at
place [] automatic = automatic
place (w ∷ manual) automatic =
    place manual (insert_at (min (or_zero w.manual_position) (length automatic)) w automatic)

unfoldable pub automatic_for : Text → List Waiting → List Waiting
automatic_for machine =
    retain (λ w. text_eq w.request.machine machine && not (is_some w.manual_position))

unfoldable pub manual_for : Text → List Waiting → List Waiting
manual_for machine = retain (λ w. text_eq w.request.machine machine && is_some w.manual_position)

unfoldable pub order : Scheduler → Text → List Waiting
unfolding rank_le manual_le place automatic_for manual_for
order s machine =
    place (sort_by manual_le (manual_for machine s.waiting))
      (sort_by (rank_le s.merge_queue) (automatic_for machine s.waiting))

-- `Iterator::position`.
unfoldable pub index_of : ℕ → List Waiting → Option ℕ
index_of id [] = none
index_of id (w ∷ ws) = if w.id == id then some 0 else option_map suc (index_of id ws)

unfoldable pub position : Scheduler → ℕ → Option ℕ
unfolding order index_of
position s id = elim (find (λ w. w.id == id) s.waiting) [
  | none ↦ none
  | some w ↦ index_of id (order s w.request.machine)
]
