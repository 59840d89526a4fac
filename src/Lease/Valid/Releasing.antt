-- ===== src/Lease/Valid/Releasing.antt =====
-- Releasing and claiming keep the invariant: crates/bellows-lease/src/scheduler.rs.
use bellows.Prelude.{
  ℕ, ◌≡◌, refl, ap, false, some, arith, Bool-cases, Option-cases, inl, inr, subst, ◌⊎◌,
}
use bellows.Prelude.Key.{text_key, nat_key, same, same_iff}
use bellows.Prelude.Map.{Map, IsMap, get, remove, contains_key, get-remove, remove-IsMap}
use bellows.Prelude.Text.{Text}
use bellows.Lease.State.{Scheduler, Holder, Grant}
use bellows.Lease.Ids.Uses.{uses}
use bellows.Lease.Valid.{IsValid, Backs}
use bellows.Lease.Scheduler.Grant.{claim}
use bellows.Lease.Scheduler.Release.{release, held_machine}
use bellows.Lease.Ids.Release.{uses-release, Held, held_machine-Held}

-- What a release leaves of the machines: all of them, or all but the one that the id held.
abbrev Leaves : ℕ → Map Text Holder → Map Text Holder → Type 0
Leaves id m m' =
    (m' ≡ m) ⊎ ((k : Text) × (h : Holder) × (get k m ≡ some h) × (h.id ≡ id) × (m' ≡ remove k m))

release-Leaves :
    (s : Scheduler) (id : ℕ) → IsMap s.holders → Leaves id s.holders (release s id).0.holders
unfolding release
release-Leaves s id m = elim (Bool-cases (contains_key id s.nested)) [
  | inl n ↦ rw (n, release) (inl refl)
  | inr n ↦ elim (Option-cases (held_machine id s.holders)) [
    | inl e ↦ rw (n, e, release) (inl refl)
    | inr (k, e) ↦
        let (h, g, p) = subst (Held id s.holders) e (held_machine-Held id s.holders m) in
        rw (n, e, release) (inr (k, h, g, p, refl))
  ]
]

pub release-unclaimed :
    (s : Scheduler) (id : ℕ) → (release s id).0.unclaimed ≡ remove id s.unclaimed
unfolding release
release-unclaimed s id = ground arith

pub release-next_id : (s : Scheduler) (id : ℕ) → (release s id).0.next_id ≡ s.next_id
unfolding release
release-next_id s id = ground arith

keyed-Leaves :
    (id : ℕ) (m m' : Map Text Holder)
    → Leaves id m m'
    → ((k : Text) (h : Holder) → get k m ≡ some h → h.machine ≡ k)
    → (k : Text) (h : Holder) → get k m' ≡ some h
    → h.machine ≡ k
keyed-Leaves id m m' (inl e) v k h g = v k h (rw (← e) g)
keyed-Leaves id m m' (inr (j, i, _, _, e)) v k h g =
    v k h (ground (arith, get-remove j k m, ap (get k) e))

sorted-Leaves : (id : ℕ) (m m' : Map Text Holder) → Leaves id m m' → IsMap m → IsMap m'
sorted-Leaves id m m' (inl e) v = rw e v
sorted-Leaves id m m' (inr (j, i, _, _, e)) v = rw e (remove-IsMap j m v)

Backs-Leaves :
    (id j : ℕ) (g : Grant) (m m' : Map Text Holder)
    → Leaves id m m'
    → (same j id ≡ false)
    → Backs j g m
    → Backs j g m'
Backs-Leaves id j g m m' (inl e) n b = rw e b
Backs-Leaves id j g m m' (inr (k, i, at, p, e)) n (h, b, c, d, t) = (
  h,
  ground (arith, get-remove k g.machine m, ap (get g.machine) e, (same_iff g.machine k).0),
  c,
  d,
  t,
)

pub release-IsValid : (s : Scheduler) (id : ℕ) → IsValid s → IsValid (release s id).0
release-IsValid s id v = record {
  fresh = λ j h.
      rw (uses-release j id s v.sorted (v.unique id))
        (ground (arith, v.fresh j (rw (← release-next_id s id) h)));
  unique = λ j. rw (uses-release j id s v.sorted (v.unique id)) (ground (arith, v.unique j));
  sorted = sorted-Leaves id s.holders _ (release-Leaves s id v.sorted) v.sorted;
  keyed = keyed-Leaves id s.holders _ (release-Leaves s id v.sorted) v.keyed;
  backed = λ j g e.
      let e' : get j (remove id s.unclaimed) ≡ some g = rw (release-unclaimed s id) at e in
      Backs-Leaves id j g s.holders _ (release-Leaves s id v.sorted)
        (ground (arith, get-remove id j s.unclaimed))
        (v.backed j g (ground (arith, get-remove id j s.unclaimed)));
}

pub claim-IsValid : (s : Scheduler) (id : ℕ) → IsValid s → IsValid (claim s id).0
unfolding claim uses
claim-IsValid s id v = record {
  fresh = v.fresh;
  unique = v.unique;
  sorted = v.sorted;
  keyed = v.keyed;
  backed = λ j g e. v.backed j g (ground (arith, get-remove id j s.unclaimed));
}
