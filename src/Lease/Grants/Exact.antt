-- ===== src/Lease/Grants/Exact.antt =====
-- Exactly what `grant` of crates/bellows-lease/src/scheduler.rs grants: to every open machine its
-- first eligible request, and after it there is nothing left to grant.
use bellows.Prelude.{
  ℕ, ◌≡◌, refl, Bool, true, false, ◌&&◌, not, Option, none, some, List, [], ◌∷◌, is_some, any,
  if◌then◌else◌, arith, retain, Bool-cases, Option-cases, inl, inr, option_map, subst,
}
use bellows.Prelude.Key.{text_key, nat_key, same, same_iff, same_comm}
use bellows.Prelude.Map.{get-insert}
use bellows.Prelude.Text.{Text, text_eq}
use bellows.Lease.State.{Scheduler, Waiting, Grant}
use bellows.Lease.Scheduler.Order.{order, automatic_for, manual_for}
use bellows.Lease.Scheduler.Grant.{
  grant_machines, grant_machine, grant_to, new_holder, new_grant, chosen, next_request, is_closed,
  reservation, push_option,
}
use bellows.Lease.Ids.Queue.{asks_for}
use bellows.Lease.Valid.{IsValid}
use bellows.Lease.Valid.Granting.{grant_machine-IsValid}
use bellows.Lease.Grants.Turn.{
  candidate, id_of, granted_id, grant_machine_id, candidate-grant_machine_self, chosen-asks, Keeps,
  take_waiting-Keeps,
}

chosen-Keeps :
    (q : Waiting → Bool) (s : Scheduler) (machine : Text) (now : ℕ) (w : Waiting)
    (rest : List Waiting)
    → chosen s machine now ≡ some (w, rest)
    → q w ≡ false
    → retain q rest ≡ retain q s.waiting
unfolding chosen
chosen-Keeps q s machine now w rest e = elim (Option-cases (next_request s machine now)) [
  | inl n ↦ cc (rw (n, chosen) at e)
  | inr (u, n) ↦
      subst (Keeps q s.waiting) (rw (n, chosen) at e) (take_waiting-Keeps q u.id s.waiting)
]

module _ (s : Scheduler) (machine other : Text) (now : ℕ) (w : Waiting) (rest : List Waiting) where
  order-grant_to :
      chosen s machine now ≡ some (w, rest)
      → asks_for other w ≡ false
      → order (grant_to s machine now w rest).0 other ≡ order s other
  unfolding grant_to order automatic_for manual_for
  order-grant_to c a =
      let m =
        chosen-Keeps (λ x. text_eq x.request.machine other && is_some x.manual_position) s machine
          now w rest c (rw a) in
      let f =
        chosen-Keeps (λ x. text_eq x.request.machine other && not (is_some x.manual_position)) s
          machine now w rest c (rw a) in
      rw (m, f)

  closed-grant_to :
      same other machine ≡ false
      → is_closed (grant_to s machine now w rest).0 other ≡ is_closed s other
  unfolding grant_to is_closed
  closed-grant_to n =
      ground (arith, get-insert machine other (new_holder s machine now w) s.holders)

  reservation-grant_to :
      reservation (grant_to s machine now w rest).0 other now ≡ reservation s other now
  unfolding grant_to reservation
  reservation-grant_to = refl

  candidate-grant_to :
      chosen s machine now ≡ some (w, rest)
      → asks_for other w ≡ false
      → same other machine ≡ false
      → candidate (grant_to s machine now w rest).0 other now ≡ candidate s other now
  unfolding candidate next_request
  candidate-grant_to c a n = rw (closed-grant_to n, order-grant_to c a, reservation-grant_to)

asks_other :
    (w : Waiting) (machine other : Text)
    → asks_for machine w ≡ true
    → same other machine ≡ false
    → asks_for other w ≡ false
asks_other w machine other a n =
    ground (arith, (same_iff w.request.machine machine).0, same_comm other machine)

-- A turn leaves the candidates of the other machines.
candidate-grant_machine_ne :
    (s : Scheduler) (machine other : Text) (now : ℕ)
    → IsValid s
    → same other machine ≡ false
    → candidate (grant_machine s machine now).0 other now ≡ candidate s other now
unfolding grant_machine
candidate-grant_machine_ne s machine other now v n = elim (Bool-cases (is_closed s machine)) [
  | inl e ↦ rw (e, grant_machine)
  | inr e ↦ elim (Option-cases (chosen s machine now)) [
    | inl c ↦ rw (e, c, grant_machine)
    | inr ((w, rest), c) ↦
        rw (e, c, grant_machine)
          (candidate-grant_to s machine other now w rest c
            (asks_other w machine other (chosen-asks s machine now w rest v c) n) n)
  ]
]

abbrev pub listed : Text → List Text → Bool
listed machine ms = any (λ known. text_eq known machine) ms

-- The id granted for a machine: of the first grant that names it.
abbrev pub granted_for : Text → List Grant → Option ℕ
granted_for machine [] = none
granted_for machine (g ∷ gs) =
    if text_eq g.machine machine then some g.id else granted_for machine gs

grant_machine-machine :
    (s : Scheduler) (machine : Text) (now : ℕ) {g : Grant}
    → (grant_machine s machine now).1 ≡ some g
    → g.machine ≡ machine
unfolding grant_machine grant_to new_grant
grant_machine-machine s machine now h = ground arith

granted_for-push :
    (machine turn : Text) (o : Option Grant) (gs : List Grant)
    → ((g : Grant) → o ≡ some g → g.machine ≡ turn)
    → granted_for machine (push_option o gs)
      ≡ (if same turn machine && is_some o then option_map granted_id o else granted_for machine gs)
granted_for-push machine turn none gs h = ground arith
granted_for-push machine turn (some g) gs h = rw (h g refl) (ground arith)

-- The turns grant to a listed machine its candidate, and leave it none.
pub granted_for-grant_machines :
    (machine : Text) (s : Scheduler) (ms : List Text) (now : ℕ)
    → IsValid s
    → (granted_for machine (grant_machines s ms now).1
        ≡ (if listed machine ms then option_map id_of (candidate s machine now) else none))
      × (candidate (grant_machines s ms now).0 machine now
          ≡ (if listed machine ms then none else candidate s machine now))
unfolding grant_machines
granted_for-grant_machines machine s [] now v = (refl, refl)
granted_for-grant_machines machine s (turn ∷ ms) now v =
    let s₁ = (grant_machine s turn now).0 in
    let o = (grant_machine s turn now).1 in
    ground (
      arith,
      granted_for-grant_machines machine s₁ ms now (grant_machine-IsValid s turn now v),
      granted_for-push machine turn o (grant_machines s₁ ms now).1
          (λ g e. grant_machine-machine s turn now {g = g} e),
      grant_machine_id s turn now,
      candidate-grant_machine_self s turn now,
      candidate-grant_machine_ne s turn machine now v,
      same_comm machine turn,
      (same_iff turn machine).0,
    )
