-- ===== src/Lease/Grants/Turn.antt =====
-- One turn of the loop in `grant`, crates/bellows-lease/src/scheduler.rs: it serves its machine and
-- leaves the others.
use bellows.Prelude.{
  ℕ, ◌+◌, ◌≤◌, ◌≡◌, refl, ap, Bool, true, false, ◌&&◌, not, Option, none, some, List, [], ◌∷◌, bit,
  count, if◌then◌else◌, ◌==◌, arith, retain, Bool-cases, Option-cases, ==_iff, inl, inr, option_map,
  subst,
}
use bellows.Prelude.Key.{text_key, nat_key, same_refl}
use bellows.Prelude.Map.{get-insert}
use bellows.Prelude.Text.{Text}
use bellows.Lease.State.{Scheduler, Waiting, Grant}
use bellows.Lease.Scheduler.Order.{order}
use bellows.Lease.Scheduler.Grant.{
  grant_machine, grant_to, new_holder, new_grant, chosen, next_request, take_waiting, is_closed,
  is_eligible, reservation,
}
use bellows.Lease.Ids.Uses.{uses, has_id}
use bellows.Lease.Ids.Queue.{Takes, take_waiting-Takes, count-order, count_of_find, asks_for}
use bellows.Lease.Ids.Moves.{chosen_total}
use bellows.Lease.Valid.{IsValid}

-- The request that the machine is granted to: an open machine's first eligible one.
unfoldable pub candidate : Scheduler → Text → ℕ → Option Waiting
candidate s machine now = if is_closed s machine then none else next_request s machine now

abbrev pub id_of : Waiting → ℕ
id_of w = w.id

abbrev pub granted_id : Grant → ℕ
granted_id g = g.id

pub chosen-none :
    (s : Scheduler) (machine : Text) (now : ℕ)
    → next_request s machine now ≡ none
    → chosen s machine now ≡ none
unfolding chosen
chosen-none s machine now n = rw (n, chosen)

grant_machine_open :
    (s : Scheduler) (machine : Text) (now : ℕ)
    → is_closed s machine ≡ false
    → option_map granted_id (grant_machine s machine now).1
      ≡ option_map id_of (next_request s machine now)
unfolding grant_machine grant_to new_grant
grant_machine_open s machine now e = elim (Option-cases (next_request s machine now)) [
  | inl n ↦ rw (e, chosen-none s machine now n, n, grant_machine)
  | inr (w, n) ↦
      let (r, c, p) = chosen_total s machine now {w = w} n in
      rw (e, c, n, grant_machine) (ap some p)
]

pub grant_machine_closed :
    (s : Scheduler) (machine : Text) (now : ℕ)
    → is_closed s machine ≡ true
    → grant_machine s machine now ≡ (s, none)
unfolding grant_machine
grant_machine_closed s machine now e = rw e

-- The turn grants to the candidate.
pub grant_machine_id :
    (s : Scheduler) (machine : Text) (now : ℕ)
    → option_map granted_id (grant_machine s machine now).1
      ≡ option_map id_of (candidate s machine now)
unfolding candidate
grant_machine_id s machine now = elim (Bool-cases (is_closed s machine)) [
  | inl e ↦
      rw (e, candidate) (ap (λ r. option_map granted_id r.1) (grant_machine_closed s machine now e))
  | inr e ↦ rw (e, candidate) (grant_machine_open s machine now e)
]

closed_after :
    (s : Scheduler) (machine : Text) (now : ℕ) (w : Waiting) (rest : List Waiting)
    → is_closed (grant_to s machine now w rest).0 machine ≡ true
unfolding grant_to is_closed
closed_after s machine now w rest =
    ground
      (arith, get-insert machine machine (new_holder s machine now w) s.holders, same_refl machine)

-- After the turn the machine has no candidate.
pub candidate-grant_machine_self :
    (s : Scheduler) (machine : Text) (now : ℕ)
    → candidate (grant_machine s machine now).0 machine now ≡ none
unfolding grant_machine candidate
candidate-grant_machine_self s machine now = elim (Bool-cases (is_closed s machine)) [
  | inl e ↦ rw (e, grant_machine) (rw (e, candidate))
  | inr e ↦ elim (Option-cases (next_request s machine now)) [
    | inl n ↦ rw (e, chosen-none s machine now n, grant_machine) (rw (e, candidate) n)
    | inr (w, n) ↦
        let ((v, rest), c, p) = chosen_total s machine now {w = w} n in
        rw (e, c, grant_machine) (rw (closed_after s machine now v rest, candidate))
  ]
]

-- Taking out a request that a filter drops leaves what the filter keeps.
abbrev pub Keeps : (Waiting → Bool) → List Waiting → Option (Waiting × List Waiting) → Type 0
Keeps q ws none = Unit
Keeps q ws (some (w, rest)) = q w ≡ false → retain q rest ≡ retain q ws

Keeps-later :
    (q : Waiting → Bool) (v : Waiting) (vs : List Waiting) (r : Option (Waiting × List Waiting))
    → Keeps q vs r
    → Keeps q (v ∷ vs) (option_map (λ r. (r.0, v ∷ r.1)) r)
Keeps-later q v vs none h = tt
Keeps-later q v vs (some (w, rest)) h = λ f. rw (h f)

pub take_waiting-Keeps :
    (q : Waiting → Bool) (id : ℕ) (ws : List Waiting) → Keeps q ws (take_waiting id ws)
unfolding take_waiting
take_waiting-Keeps q id [] = tt
take_waiting-Keeps q id (v ∷ vs) = elim (Bool-cases (v.id == id)) [
  | inl e ↦ rw (e, take_waiting) (λ f. rw f)
  | inr e ↦
      rw (e, take_waiting) (Keeps-later q v vs (take_waiting id vs) (take_waiting-Keeps q id vs))
]

count_split :
    (p q : Waiting → Bool) (ws : List Waiting)
    → count (λ w. p w && q w) ws + count (λ w. not (p w) && q w) ws ≡ count q ws
count_split p q [] = refl
count_split p q (w ∷ ws) = ground (arith, count_split p q ws)

waiting_le_uses : (id : ℕ) (s : Scheduler) → count (has_id id) s.waiting ≤ uses id s
unfolding uses
waiting_le_uses id s = omega arith

asks_of_none :
    (machine : Text) (id : ℕ) (w : Waiting)
    → w.id ≡ id
    → bit (not (asks_for machine w) && has_id id w) ≡ 0
    → asks_for machine w ≡ true
asks_of_none machine id w e h = ground arith

-- The request that is taken for a machine asks for it: no other has its id.
pub chosen-asks :
    (s : Scheduler) (machine : Text) (now : ℕ) (w : Waiting) (rest : List Waiting)
    → IsValid s
    → chosen s machine now ≡ some (w, rest)
    → asks_for machine w ≡ true
unfolding chosen next_request
chosen-asks s machine now w rest v e = elim (Option-cases (next_request s machine now)) [
  | inl n ↦ cc (rw (n, chosen) at e)
  | inr (u, n) ↦
      let q : Waiting → Bool = λ x. not (asks_for machine x) && has_id u.id x in
      let t =
        subst (Takes q u.id s.waiting) (rw (n, chosen) at e)
          (take_waiting-Takes q u.id s.waiting) in
      let found =
        count_of_find (is_eligible (reservation s machine now)) (has_id u.id) (order s machine)
          {x = u} n ((==_iff u.id u.id).1 refl) in
      asks_of_none machine u.id w t.0 (
        omega (
          arith,
          t.1,
          found,
          count-order (has_id u.id) s machine,
          count_split (asks_for machine) (has_id u.id) s.waiting,
          waiting_le_uses u.id s,
          v.unique u.id,
        ))
]
