-- ===== src/Lease/Valid/Marks.antt =====
-- The operations that mark requests and holders keep the invariant:
-- crates/bellows-lease/src/scheduler.rs, `reorder`, `preempt`, `overruns`.
use bellows.Prelude.{
  ℕ, ◌≡◌, refl, sym, some, List, [], ◌∷◌, count, ◌==◌, arith, Bool-cases, inl, inr,
}
use bellows.Prelude.Key.{text_key, nat_key, same}
use bellows.Prelude.Map.{Map, IsMap, Above, get, values}
use bellows.Prelude.Text.{Text}
use bellows.Lease.State.{Scheduler, Waiting, Holder}
use bellows.Lease.Ids.Uses.{uses, has_id, is_held_by}
use bellows.Lease.Valid.{IsValid}
use bellows.Lease.Scheduler.Admin.{reorder_waiting, preempt_holder, overrun_holders, is_over}

pub count-reorder_waiting :
    (j id position : ℕ) (ws : List Waiting)
    → count (has_id j) (reorder_waiting id position ws).0 ≡ count (has_id j) ws
unfolding reorder_waiting
count-reorder_waiting j id position [] = refl
count-reorder_waiting j id position (w ∷ ws) =
    ground (arith, count-reorder_waiting j id position ws)

-- Two holders of the same lease: the marks may differ.
pub record SameLease (h k : Holder) : Type 0 where
  pub id : h.id ≡ k.id
  pub machine : h.machine ≡ k.machine
  pub label : h.label ≡ k.label
  pub token : h.token ≡ k.token

-- The same machines are held, by the same leases.
pub data SameLeases : Map Text Holder → Map Text Holder → Type 0 where
  nil : SameLeases [] []
  cons :
      {k : Text} {h h' : Holder} {m m' : Map Text Holder}
      → SameLease h h'
      → SameLeases m m'
      → SameLeases ((k, h) ∷ m) ((k, h') ∷ m')

SameLease-refl : (h : Holder) → SameLease h h
SameLease-refl h = record { id = refl; machine = refl; label = refl; token = refl }

pub SameLeases-refl : (m : Map Text Holder) → SameLeases m m
SameLeases-refl [] = nil
SameLeases-refl ((k, h) ∷ m) = cons (SameLease-refl h) (SameLeases-refl m)

pub preempt_holder-SameLeases :
    (id : ℕ) (m : Map Text Holder) → SameLeases m (preempt_holder id m).0
unfolding preempt_holder
preempt_holder-SameLeases id [] = nil
preempt_holder-SameLeases id ((k, h) ∷ m) = elim (Bool-cases (h.id == id)) [
  | inl e ↦
      rw (e, preempt_holder)
        (cons (record { id = refl; machine = refl; label = refl; token = refl })
          (SameLeases-refl m))
  | inr e ↦ rw (e, preempt_holder) (cons (SameLease-refl h) (preempt_holder-SameLeases id m))
]

pub overrun_holders-SameLeases :
    (now : ℕ) (m : Map Text Holder) → SameLeases m (overrun_holders m now).0
unfolding overrun_holders
overrun_holders-SameLeases now [] = nil
overrun_holders-SameLeases now ((k, h) ∷ m) = elim (Bool-cases (is_over h now)) [
  | inl e ↦
      rw (e, overrun_holders)
        (cons (record { id = refl; machine = refl; label = refl; token = refl })
          (overrun_holders-SameLeases now m))
  | inr e ↦ rw (e, overrun_holders) (cons (SameLease-refl h) (overrun_holders-SameLeases now m))
]

pub count-SameLeases :
    {m m' : Map Text Holder}
    → SameLeases m m'
    → (j : ℕ) → count (is_held_by j) (values m') ≡ count (is_held_by j) (values m)
count-SameLeases nil j = refl
count-SameLeases (cons e l) j = ground (arith, count-SameLeases l j)

Above-SameLeases : {m m' : Map Text Holder} → SameLeases m m' → (k : Text) → Above k m → Above k m'
Above-SameLeases nil k a = tt
Above-SameLeases (cons {k = j} e l) k (b, a) = (b, Above-SameLeases l j a)

IsMap-SameLeases : {m m' : Map Text Holder} → SameLeases m m' → IsMap m → IsMap m'
IsMap-SameLeases nil a = tt
IsMap-SameLeases (cons {k = j} e l) a = Above-SameLeases l j a

SameLeases-sym : {m m' : Map Text Holder} → SameLeases m m' → SameLeases m' m
SameLeases-sym nil = nil
SameLeases-sym (cons e l) =
    cons
      (record { id = sym e.id; machine = sym e.machine; label = sym e.label; token = sym e.token })
      (SameLeases-sym l)

-- What is looked up on either side is the same lease.
get-SameLeases :
    {m m' : Map Text Holder}
    → SameLeases m m'
    → (k : Text) {h : Holder} → get k m ≡ some h
    → (h' : Holder) × (get k m' ≡ some h') × SameLease h h'
unfolding get
get-SameLeases nil k e = cc
get-SameLeases (cons {k = j} {h = i} {h' = i'} e l) k {h} g = elim (Bool-cases (same k j)) [
  | inl p ↦ (i', rw (p, get), ground (arith))
  | inr p ↦ let (h', q, r) = get-SameLeases l k {h = h} (rw (p, get) at g) in (h', rw (p, get) q, r)
]

-- Marks on the holders keep the invariant.
pub marked-IsValid :
    (s : Scheduler) (m : Map Text Holder)
    → SameLeases s.holders m
    → IsValid s
    → IsValid (record s { holders = m })
unfolding uses
marked-IsValid s m l v = record {
  fresh = λ j h. ground (arith, v.fresh j h, count-SameLeases l j);
  unique = λ j. ground (arith, v.unique j, count-SameLeases l j);
  sorted = IsMap-SameLeases l v.sorted;
  keyed = λ k h e. keyed_back k h e;
  backed = λ j g e.
      let (h, at, p, q, t) = v.backed j g e in
      let (h', at', same) = get-SameLeases l g.machine {h = h} at in
      (h', at', ground (arith), q, ground (arith));
}
  where
    keyed_back : (k : Text) (h : Holder) → get k m ≡ some h → h.machine ≡ k
    keyed_back k h e =
        let (i, at, same) = get-SameLeases (SameLeases-sym l) k {h = h} e in
        ground (arith, v.keyed k i at)

-- A queue with the same ids keeps the invariant.
pub requeued-IsValid :
    (s : Scheduler) (ws : List Waiting)
    → ((j : ℕ) → count (has_id j) ws ≡ count (has_id j) s.waiting)
    → IsValid s
    → IsValid (record s { waiting = ws })
unfolding uses
requeued-IsValid s ws e v = record {
  fresh = λ j h. ground (arith, v.fresh j h, e j);
  unique = λ j. ground (arith, v.unique j, e j);
  sorted = v.sorted;
  keyed = v.keyed;
  backed = v.backed;
}

-- Pauses, reservations, CI jobs and the merge queue are outside the invariant.
pub settings-IsValid :
    (s : Scheduler) (paused : Map Text (Unit {0})) (reserved : Map Text (Text × ℕ))
    (ci : Map Text (Map Text ℕ)) (merge_queue : Map ℕ ℕ)
    → IsValid s
    → IsValid
        (record s { paused = paused; reserved = reserved; ci = ci; merge_queue = merge_queue })
unfolding uses
settings-IsValid s paused reserved ci merge_queue v = record {
  fresh = v.fresh;
  unique = v.unique;
  sorted = v.sorted;
  keyed = v.keyed;
  backed = v.backed;
}
