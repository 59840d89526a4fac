-- ===== src/Lease/Valid/Granting.antt =====
-- Granting keeps the invariant: crates/bellows-lease/src/scheduler.rs, `grant`.
use bellows.Prelude.{
  ℕ, ◌≡◌, ◌∙◌, none, some, List, [], ◌∷◌, arith, Bool-cases, Option-cases, inl, inr,
}
use bellows.Prelude.Key.{text_key, nat_key, same, same_iff, same_refl}
use bellows.Prelude.Map.{get, get-insert, insert-IsMap}
use bellows.Prelude.Text.{Text}
use bellows.Lease.State.{Scheduler, Waiting, Holder, Grant}
use bellows.Lease.Ids.Uses.{has_id}
use bellows.Lease.Valid.{IsValid, Backs}
use bellows.Lease.Scheduler.Grant.{
  grant, grant_machines, grant_machine, grant_to, chosen, is_closed, new_holder, new_grant,
}
use bellows.Lease.Ids.Moves.{uses-grant_to, chosen-Takes, free_of_open}

module _ (s : Scheduler) (machine : Text) (now : ℕ) (w : Waiting) (rest : List Waiting) where
  keyed-grant_to :
      ((k : Text) (h : Holder) → get k s.holders ≡ some h → h.machine ≡ k)
      → (k : Text) (h : Holder) → get k (grant_to s machine now w rest).0.holders ≡ some h
      → h.machine ≡ k
  unfolding grant_to new_holder
  keyed-grant_to v k h e = ground (
    arith,
    get-insert machine k (new_holder s machine now w) s.holders,
    (same_iff k machine).0,
    v k h,
  )

  backed-grant_to :
      get machine s.holders ≡ none
      → ((id : ℕ) (g : Grant) → get id s.unclaimed ≡ some g → Backs id g s.holders)
      → (id : ℕ) (g : Grant) → get id (grant_to s machine now w rest).0.unclaimed ≡ some g
      → Backs id g (grant_to s machine now w rest).0.holders
  unfolding grant_to
  backed-grant_to free v id g e = elim (Bool-cases (same id w.id)) [
    | inl p ↦ (
      new_holder s machine now w,
      ground (
        arith,
        get-insert w.id id (new_grant s machine now w) s.unclaimed,
        get-insert machine machine (new_holder s machine now w) s.holders,
        same_refl machine,
      ),
      ground (arith, (same_iff id w.id).0),
      ground
          (arith, (same_iff id w.id).0, get-insert w.id id (new_grant s machine now w) s.unclaimed),
      ground (arith, get-insert w.id id (new_grant s machine now w) s.unclaimed),
    )
    | inr p ↦
        let old =
          v id g (ground (arith, get-insert w.id id (new_grant s machine now w) s.unclaimed)) in
        (
          old.0,
          ground (
            arith,
            old.1,
            get-insert machine g.machine (new_holder s machine now w) s.holders,
            (same_iff g.machine machine).0,
          ),
          old.2,
          old.3,
          old.4,
        )
  ]

  grant_to-IsValid :
      get machine s.holders ≡ none
      → chosen s machine now ≡ some (w, rest)
      → IsValid s
      → IsValid (grant_to s machine now w rest).0
  unfolding grant_to
  grant_to-IsValid free c v = record {
    fresh = λ id h.
        uses-grant_to id s machine now w rest free (chosen-Takes (has_id id) s machine now w rest c)
        ∙ v.fresh id h;
    unique = λ id.
        rw
          (uses-grant_to id s machine now w rest free
            (chosen-Takes (has_id id) s machine now w rest c))
          (v.unique id);
    sorted = insert-IsMap machine (new_holder s machine now w) s.holders v.sorted;
    keyed = keyed-grant_to v.keyed;
    backed = backed-grant_to free v.backed;
  }

pub grant_machine-IsValid :
    (s : Scheduler) (machine : Text) (now : ℕ) → IsValid s → IsValid (grant_machine s machine now).0
unfolding grant_machine
grant_machine-IsValid s machine now v = elim (Bool-cases (is_closed s machine)) [
  | inl e ↦ rw (e, grant_machine) v
  | inr e ↦ elim (Option-cases (chosen s machine now)) [
    | inl c ↦ rw (e, c, grant_machine) v
    | inr ((w, rest), c) ↦
        rw (e, c, grant_machine)
          (grant_to-IsValid s machine now w rest (free_of_open s machine e) c v)
  ]
]

grant_machines-IsValid :
    (s : Scheduler) (ms : List Text) (now : ℕ) → IsValid s → IsValid (grant_machines s ms now).0
unfolding grant_machines
grant_machines-IsValid s [] now v = v
grant_machines-IsValid s (m ∷ ms) now v =
    grant_machines-IsValid (grant_machine s m now).0 ms now (grant_machine-IsValid s m now v)

pub grant-IsValid : (s : Scheduler) (now : ℕ) → IsValid s → IsValid (grant s now).0
unfolding grant
grant-IsValid s now v = grant_machines-IsValid s s.config.machines now v
