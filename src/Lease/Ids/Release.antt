-- ===== src/Lease/Ids/Release.antt =====
-- A released id is gone, and no other moves: crates/bellows-lease/src/scheduler.rs, `release`.
use bellows.Prelude.{
  ℕ, ◌≤◌, ◌≡◌, refl, false, not, Option, none, some, List, [], ◌∷◌, count, if◌then◌else◌, ◌==◌,
  arith, retain, Bool-cases, ==_iff, inl, inr,
}
use bellows.Prelude.Key.{text_key, nat_key, same_iff}
use bellows.Prelude.Map.{
  Map, IsMap, Above-IsMap, get-Above, get, values, contains_key, get-remove, count-remove,
}
use bellows.Prelude.Text.{Text}
use bellows.Lease.State.{Scheduler, Waiting, Holder}
use bellows.Lease.Scheduler.Release.{release, held_machine}
use bellows.Lease.Ids.Uses.{uses, has_id, is_held_by}

count-drop :
    (j id : ℕ) (ws : List Waiting)
    → count (has_id j) (retain (λ w. not (w.id == id)) ws)
      ≡ (if j == id then 0 else count (has_id j) ws)
count-drop j id [] = ground arith
count-drop j id (w ∷ ws) = ground (arith, count-drop j id ws)

-- What `held_machine` returns: a machine whose holder has the id, or no holder has it.
abbrev pub Held : ℕ → Map Text Holder → Option Text → Type 0
Held id m none = count (is_held_by id) (values m) ≡ 0
Held id m (some machine) = (h : Holder) × (get machine m ≡ some h) × (h.id ≡ id)

Held-later :
    (id : ℕ) (k : Text) (v : Holder) (m : Map Text Holder) (r : Option Text)
    → get k m ≡ none
    → (v.id == id) ≡ false
    → Held id m r
    → Held id ((k, v) ∷ m) r
unfolding get
Held-later id k v m none a e h = ground arith
Held-later id k v m (some i) a e (h, g, p) = (h, ground (arith, (same_iff i k).0), p)

pub held_machine-Held : (id : ℕ) (m : Map Text Holder) → IsMap m → Held id m (held_machine id m)
unfolding held_machine get
held_machine-Held id [] s = refl
held_machine-Held id ((k, v) ∷ m) s = elim (Bool-cases (v.id == id)) [
  | inl e ↦ rw (e, held_machine) (v, ground (arith, (same_iff k k).1 refl), (==_iff v.id id).0 e)
  | inr e ↦
      rw (e, held_machine)
        (Held-later id k v m (held_machine id m) (get-Above k m s) e
          (held_machine-Held id m (Above-IsMap k m s)))
]

uses-release-Held :
    (j id : ℕ) (s : Scheduler) (r : Option Text)
    → IsMap s.holders
    → uses id s ≤ 1
    → contains_key id s.nested ≡ false
    → held_machine id s.holders ≡ r
    → Held id s.holders r
    → uses j (release s id).0 ≡ (if j == id then 0 else uses j s)
unfolding uses release
uses-release-Held j id s none m u n e h = ground (arith, count-drop j id s.waiting)
uses-release-Held j id s (some k) m u n e (h, g, p) =
    ground (arith, count-drop j id s.waiting, count-remove (is_held_by j) k h s.holders m g)

-- Releasing takes every use of the id, whatever its state, and leaves all other ids.
pub uses-release :
    (j id : ℕ) (s : Scheduler)
    → IsMap s.holders
    → uses id s ≤ 1
    → uses j (release s id).0 ≡ (if j == id then 0 else uses j s)
unfolding uses release
uses-release j id s m u = elim (Bool-cases (contains_key id s.nested)) [
  | inl n ↦ ground (arith, count-drop j id s.waiting, get-remove id j s.nested)
  | inr n ↦
      uses-release-Held j id s (held_machine id s.holders) m u n refl
        (held_machine-Held id s.holders m)
]
