-- ===== src/Lease/Ids/Moves.antt =====
-- How admission and granting move the ids: crates/bellows-lease/src/scheduler.rs, `admit`, `grant`.
use bellows.Prelude.{
  ℕ, ◌+◌, ◌<◌, ◌≡◌, refl, ◌∙◌, Bool, true, false, ◌&&◌, none, some, List, [], ◌∷◌, bit, count,
  count-append, ◌==◌, arith, Bool-cases, Option-cases, ==_iff, inl, inr, subst,
}
use bellows.Prelude.Key.{text_key, nat_key}
use bellows.Prelude.Map.{get, get-insert, count-insert_new}
use bellows.Prelude.Text.{Text}
use bellows.Lease.Protocol.{Request}
use bellows.Lease.State.{Scheduler, Waiting, Admission}
use bellows.Lease.Scheduler.Admit.{admit}
use bellows.Lease.Scheduler.Order.{order}
use bellows.Lease.Scheduler.Grant.{
  grant, grant_machines, grant_machine, grant_to, chosen, next_request, is_closed, is_eligible,
  reservation,
}
use bellows.Lease.Ids.Uses.{uses, has_id, is_held_by}
use bellows.Lease.Ids.Queue.{
  Takes, take_waiting-Takes, take_waiting_total, count-order, count-and-le, count_of_find, asks_for,
}

-- The request or the run that an admission starts.
unfoldable pub is_admitted : Admission → Bool
is_admitted (Admission.queued id) = true
is_admitted (Admission.nested g) = true
is_admitted (Admission.refused r) = false

pub nested_of_uses : (j : ℕ) (s : Scheduler) → uses j s ≡ 0 → get j s.nested ≡ none
unfolding uses
nested_of_uses j s h = ground arith

-- An admission adds one use, of the id that it takes.
pub uses-admit :
    (j : ℕ) (s : Scheduler) (r : Request) (now : ℕ)
    → uses s.next_id s ≡ 0
    → uses j (admit s r now).0 ≡ bit (is_admitted (admit s r now).1 && s.next_id == j) + uses j s
unfolding admit uses is_admitted
uses-admit j s r now h =
    let w : Waiting = record {
      id = s.next_id;
      request = r;
      since_ms = now;
      manual_position = none;
    } in
    ground (
      arith,
      nested_of_uses s.next_id s h,
      get-insert s.next_id j r.machine s.nested,
      count-append (has_id j) s.waiting (w ∷ []),
    )

-- The request that the machine goes to is among those that wait.
waits_of_next :
    (s : Scheduler) (machine : Text) (now : ℕ) {w : Waiting}
    → next_request s machine now ≡ some w
    → 0 < count (has_id w.id) s.waiting
unfolding next_request
waits_of_next s machine now {w} e = omega (
  arith,
  count_of_find (is_eligible (reservation s machine now)) (has_id w.id) (order s machine) {x = w} e
      ((==_iff w.id w.id).1 refl),
  count-order (has_id w.id) s machine,
  count-and-le (asks_for machine) (has_id w.id) s.waiting,
)

-- `expect("ordered request is waiting")` holds.
pub chosen_total :
    (s : Scheduler) (machine : Text) (now : ℕ) {w : Waiting}
    → next_request s machine now ≡ some w
    → (r : Waiting × List Waiting) × (chosen s machine now ≡ some r) × (r.0.id ≡ w.id)
unfolding chosen
chosen_total s machine now {w} e =
    let (r, taken) = take_waiting_total w.id s.waiting (waits_of_next s machine now {w = w} e) in
    (
      r,
      rw (e, chosen) taken,
      (subst (Takes (has_id w.id) w.id s.waiting) taken
          (take_waiting-Takes (has_id w.id) w.id s.waiting)).0,
    )

pub chosen-Takes :
    (p : Waiting → Bool) (s : Scheduler) (machine : Text) (now : ℕ) (w : Waiting)
    (rest : List Waiting)
    → chosen s machine now ≡ some (w, rest)
    → count p s.waiting ≡ bit (p w) + count p rest
unfolding chosen
chosen-Takes p s machine now w rest e = elim (Option-cases (next_request s machine now)) [
  | inl n ↦ cc (rw (n, chosen) at e)
  | inr (v, n) ↦
      (subst (Takes p v.id s.waiting) (rw (n, chosen) at e) (take_waiting-Takes p v.id s.waiting)).1
]

pub free_of_open :
    (s : Scheduler) (machine : Text) → is_closed s machine ≡ false → get machine s.holders ≡ none
unfolding is_closed
free_of_open s machine e = ground arith

pub uses-grant_to :
    (j : ℕ) (s : Scheduler) (machine : Text) (now : ℕ) (w : Waiting) (rest : List Waiting)
    → get machine s.holders ≡ none
    → count (has_id j) s.waiting ≡ bit (has_id j w) + count (has_id j) rest
    → uses j (grant_to s machine now w rest).0 ≡ uses j s
unfolding uses grant_to
uses-grant_to j s machine now w rest free taken =
    omega (arith, taken, count-insert_new (is_held_by j) machine _ s.holders free)

pub uses-grant_machine :
    (j : ℕ) (s : Scheduler) (machine : Text) (now : ℕ)
    → uses j (grant_machine s machine now).0 ≡ uses j s
unfolding grant_machine
uses-grant_machine j s machine now = elim (Bool-cases (is_closed s machine)) [
  | inl e ↦ rw (e, grant_machine)
  | inr e ↦ elim (Option-cases (chosen s machine now)) [
    | inl c ↦ rw (e, c, grant_machine)
    | inr ((w, rest), c) ↦
        rw (e, c, grant_machine)
          (uses-grant_to j s machine now w rest (free_of_open s machine e)
            (chosen-Takes (has_id j) s machine now w rest c))
  ]
]

uses-grant_machines :
    (j : ℕ) (s : Scheduler) (ms : List Text) (now : ℕ)
    → uses j (grant_machines s ms now).0 ≡ uses j s
unfolding grant_machines
uses-grant_machines j s [] now = refl
uses-grant_machines j s (m ∷ ms) now =
    uses-grant_machines j (grant_machine s m now).0 ms now ∙ uses-grant_machine j s m now

-- Granting moves ids from the queue to the machines, and neither loses nor doubles one.
pub uses-grant : (j : ℕ) (s : Scheduler) (now : ℕ) → uses j (grant s now).0 ≡ uses j s
unfolding grant
uses-grant j s now = uses-grant_machines j s s.config.machines now
