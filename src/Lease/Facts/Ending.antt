-- ===== src/Lease/Facts/Ending.antt =====
-- The end of a lease: crates/bellows-lease/src/scheduler.rs, `release`, `holds`, `is_waiting`.
use bellows.Prelude.{
  ℕ, ◌<◌, ◌≡◌, ◌-◌, ◌^◌, false, none, some, List, [], ◌∷◌, length, count, any_eq_false, ◌==◌, arith,
}
use bellows.Prelude.Key.{text_key, nat_key, same, same_iff, same_refl}
use bellows.Prelude.Map.{Map, get, values, get-remove}
use bellows.Prelude.Text.{Text}
use bellows.Lease.State.{Scheduler, Config, Holder, new}
use bellows.Lease.Calls.{Call, run}
use bellows.Lease.Scheduler.Grant.{claim}
use bellows.Lease.Scheduler.Release.{release, holds, is_waiting}
use bellows.Lease.Ids.Uses.{uses, has_id, is_held_by}
use bellows.Lease.Ids.Release.{uses-release}
use bellows.Lease.Valid.{IsValid}
use bellows.Lease.Valid.Releasing.{release-unclaimed}
use bellows.Lease.Valid.Step.{run-new-IsValid}

-- An id stands in one place at most.
unused : (id : ℕ) (s : Scheduler) → uses id s ≡ 0 → (is_waiting s id ≡ false) × (holds s id ≡ false)
unfolding uses is_waiting holds
unused id s h = (
  any_eq_false (has_id id) s.waiting (omega arith),
  ground (arith, any_eq_false (is_held_by id) (values s.holders)),
)

-- After any calls on a new scheduler, fewer than there are ids, a released id neither waits nor
-- holds, nor can a grant be claimed for it.
pub release_ends :
    (config : Config) (start : ℕ) (cs : List (ℕ × Call)) (id : ℕ)
    → length cs < 2 ^ 64 - 1
    → let s = (release (run (new config start) cs) id).0 in
      (is_waiting s id ≡ false) × (holds s id ≡ false) × ((claim s id).1 ≡ none)
unfolding claim
release_ends config start cs id h =
    let s = run (new config start) cs in
    let v = run-new-IsValid config start cs h in
    let (w, held) =
      unused id (release s id).0 (ground (arith, uses-release id id s v.sorted (v.unique id))) in
    (w, held, rw (release-unclaimed s id) (ground (arith, get-remove id id s.unclaimed)))

-- The lease of another id outlives it: it waits and holds as before.
pub release_spares :
    (s : Scheduler) (id other : ℕ)
    → IsValid s
    → (other == id) ≡ false
    → uses other (release s id).0 ≡ uses other s
release_spares s id other v n = ground (arith, uses-release other id s v.sorted (v.unique id))

count_of_get :
    (id : ℕ) (k : Text) (m : Map Text Holder) {h : Holder}
    → get k m ≡ some h
    → h.id ≡ id
    → 0 < count (is_held_by id) (values m)
unfolding get
count_of_get id k [] e p = cc
count_of_get id k ((j, i) ∷ m) {h} e p = ground (arith, count_of_get id k m {h = h})

count_of_two :
    (id : ℕ) (k j : Text) (m : Map Text Holder) {h i : Holder}
    → same k j ≡ false
    → get k m ≡ some h
    → get j m ≡ some i
    → h.id ≡ id
    → i.id ≡ id
    → 1 < count (is_held_by id) (values m)
unfolding get
count_of_two id k j [] n e f p q = cc
count_of_two id k j ((l, g) ∷ m) {h} {i} n e f p q = ground (
  arith,
  count_of_two id k j m {h = h} {i = i},
  count_of_get id k m {h = h},
  count_of_get id j m {h = i},
  (same_iff k l).0,
  (same_iff j l).0,
  same_refl k,
)

-- One lease holds one machine: holders of two machines have two ids.
pub holders_distinct :
    (s : Scheduler) (k j : Text) (h i : Holder)
    → IsValid s
    → get k s.holders ≡ some h
    → get j s.holders ≡ some i
    → h.id ≡ i.id
    → k ≡ j
unfolding uses
holders_distinct s k j h i v e f p =
    ground (arith, (same_iff k j).0, count_of_two i.id k j s.holders {h = h} {i = i}, v.unique i.id)
