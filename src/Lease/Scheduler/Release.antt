-- ===== src/Lease/Scheduler/Release.antt =====
-- Releasing, and what is asked of an id: crates/bellows-lease/src/scheduler.rs.
use bellows.Prelude.{
  ℕ, Bool, ◌||◌, not, Option, none, some, [], ◌∷◌, ◌==◌, if◌then◌else◌, retain, find, any,
  option_map,
}
use bellows.Prelude.Key.{text_key, nat_key}
use bellows.Prelude.Map.{Map, get, remove, contains_key, values}
use bellows.Prelude.Text.{Text}
use bellows.Lease.State.{Scheduler, Holder}

unfoldable pub holder_label : Scheduler → Text → Option Text
holder_label s machine = option_map (λ (h : Holder). h.label) (get machine s.holders)

unfoldable pub machine_of : Scheduler → ℕ → Option Text
machine_of s id = elim (find (λ w. w.id == id) s.waiting) [
  | some w ↦ some w.request.machine
  | none ↦ option_map (λ (h : Holder). h.machine) (find (λ h. h.id == id) (values s.holders))
]

-- The first machine whose holder has the id.
unfoldable pub held_machine : ℕ → Map Text Holder → Option Text
held_machine id [] = none
held_machine id ((machine, h) ∷ m) = if h.id == id then some machine else held_machine id m

unfoldable pub release : Scheduler → ℕ → Scheduler × Option Holder
unfolding held_machine
release s id =
    let dropped = record s {
      waiting = retain (λ w. not (w.id == id)) s.waiting;
      unclaimed = remove id s.unclaimed;
    } in
    if contains_key id s.nested
    then (record dropped { nested = remove id s.nested }, none)
    else elim (held_machine id s.holders) [
      | none ↦ (dropped, none)
      | some machine ↦
          (record dropped { holders = remove machine s.holders }, get machine s.holders)
    ]

unfoldable pub is_waiting : Scheduler → ℕ → Bool
is_waiting s id = any (λ w. w.id == id) s.waiting

unfoldable pub holds : Scheduler → ℕ → Bool
holds s id = any (λ h. h.id == id) (values s.holders) || contains_key id s.nested
