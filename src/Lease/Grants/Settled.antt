-- ===== src/Lease/Grants/Settled.antt =====
-- After `grant` of crates/bellows-lease/src/scheduler.rs nothing is left to grant.
use bellows.Prelude.{
  ℕ, ◌≡◌, refl, ap, ◌∙◌, true, none, List, [], ◌∷◌, arith, Bool-cases, inl, inr, Bool, not, ◌&&◌,
  is_some,
}
use bellows.Prelude.Key.{text_key, same_refl}
use bellows.Prelude.Map.{get}
use bellows.Prelude.Text.{Text}
use bellows.Lease.State.{Scheduler, Config, knows}
use bellows.Lease.Scheduler.Grant.{grant, grant_machines, grant_machine, grant_to, is_closed}
use bellows.Lease.Valid.{IsValid}
use bellows.Lease.Grants.Turn.{candidate, chosen-none}
use bellows.Lease.Grants.Exact.{listed, granted_for-grant_machines}

-- Whether a grant round may give a machine away, read off the scheduler.
abbrev pub is_free : Scheduler → Text → Bool
is_free s machine =
    knows s machine && not (is_some (get machine s.holders)) && not (is_some (get machine s.paused))

grant_machine-none :
    (s : Scheduler) (machine : Text) (now : ℕ)
    → candidate s machine now ≡ none
    → grant_machine s machine now ≡ (s, none)
unfolding candidate grant_machine
grant_machine-none s machine now h = elim (Bool-cases (is_closed s machine)) [
  | inl e ↦ rw (e, grant_machine)
  | inr e ↦ rw (e, chosen-none s machine now (rw (e, candidate) at h), grant_machine)
]

grant_machines-none :
    (s : Scheduler) (ms : List Text) (now : ℕ)
    → ((machine : Text) → listed machine ms ≡ true → candidate s machine now ≡ none)
    → grant_machines s ms now ≡ (s, [])
unfolding grant_machines
grant_machines-none s [] now h = refl
grant_machines-none s (m ∷ ms) now h =
    rw (grant_machine-none s m now (h m (ground (arith, same_refl m))), grant_machines)
      (rw (grant_machines-none s ms now (λ machine e. h machine (ground arith))))

config-grant_machine :
    (s : Scheduler) (machine : Text) (now : ℕ) → (grant_machine s machine now).0.config ≡ s.config
unfolding grant_machine grant_to
config-grant_machine s machine now = ground arith

config-grant_machines :
    (s : Scheduler) (ms : List Text) (now : ℕ) → (grant_machines s ms now).0.config ≡ s.config
unfolding grant_machines
config-grant_machines s [] now = refl
config-grant_machines s (m ∷ ms) now =
    config-grant_machines (grant_machine s m now).0 ms now ∙ config-grant_machine s m now

-- Granting again at the same time changes nothing and grants nothing.
pub grant-grant :
    (s : Scheduler) (now : ℕ) → IsValid s → grant (grant s now).0 now ≡ ((grant s now).0, [])
unfolding grant
grant-grant s now v =
    grant_machines-none (grant_machines s s.config.machines now).0 (grant s now).0.config.machines
      now
      λ machine e.
        (granted_for-grant_machines machine s s.config.machines now v).1
        ∙ rw (
            rw (ap (λ (c : Config). c.machines) (config-grant_machines s s.config.machines now)) at
              e)
