-- ===== src/Lease/Facts/Claiming.antt =====
-- Claiming: crates/bellows-lease/src/scheduler.rs, `grant` and `claim`.
use bellows.Prelude.{
  ℕ, ◌≡◌, refl, Bool, Option, none, some, List, [], ◌∷◌, if◌then◌else◌, ◌==◌, arith, Option-cases,
  Bool-cases, inl, inr, any,
}
use bellows.Prelude.Key.{text_key, nat_key}
use bellows.Prelude.Map.{get, get-insert, get-remove}
use bellows.Prelude.Text.{Text}
use bellows.Lease.State.{Scheduler, Grant}
use bellows.Lease.Scheduler.Grant.{
  grant, grant_machines, grant_machine, grant_to, new_grant, chosen, claim, is_closed,
}

-- A grant of the list has the id.
abbrev pub is_granted : ℕ → List Grant → Bool
is_granted id gs = any (λ (g : Grant). g.id == id) gs

unclaimed-grant_machine :
    (s : Scheduler) (machine : Text) (now id : ℕ)
    → get id (grant_machine s machine now).0.unclaimed ≡ elim (grant_machine s machine now).1 [
      | none ↦ get id s.unclaimed
      | some g ↦ if g.id == id then some g else get id s.unclaimed
    ]
unfolding grant_machine grant_to new_grant
unclaimed-grant_machine s machine now id = elim (Bool-cases (is_closed s machine)) [
  | inl e ↦ rw (e, grant_machine)
  | inr e ↦ elim (Option-cases (chosen s machine now)) [
    | inl c ↦ rw (e, c, grant_machine)
    | inr ((w, rest), c) ↦
        rw (e, c, grant_machine)
          (ground (arith, get-insert w.id id (new_grant s machine now w) s.unclaimed))
  ]
]

-- The grant of the list for an id, the last if there were several.
abbrev pub grant_of : ℕ → List Grant → Option Grant
grant_of id [] = none
grant_of id (g ∷ gs) = elim (grant_of id gs) [
  | some h ↦ some h
  | none ↦ if g.id == id then some g else none
]

abbrev pub or_else {ℓ} : {A : Type ℓ} → Option A → Option A → Option A
or_else (some a) o = some a
or_else none o = o

unclaimed-grant_machines :
    (s : Scheduler) (ms : List Text) (now id : ℕ)
    → get id (grant_machines s ms now).0.unclaimed
      ≡ or_else (grant_of id (grant_machines s ms now).1) (get id s.unclaimed)
unfolding grant_machines
unclaimed-grant_machines s [] now id = refl
unclaimed-grant_machines s (m ∷ ms) now id = ground (
  arith,
  unclaimed-grant_machines (grant_machine s m now).0 ms now id,
  unclaimed-grant_machine s m now id,
)

-- Whichever call made it, a grant is claimed by its id, and once only; other ids claim what was
-- there for them before.
pub claim-grant :
    (s : Scheduler) (now id : ℕ)
    → let (s₁, gs) = grant s now in
      let (s₂, first) = claim s₁ id in
      (first ≡ or_else (grant_of id gs) (claim s id).1) × ((claim s₂ id).1 ≡ none)
unfolding grant claim
claim-grant s now id = (
  unclaimed-grant_machines s s.config.machines now id,
  ground (arith, get-remove id id (grant s now).0.unclaimed),
)
