-- ===== src/Lease/Valid/Step.antt =====
-- Every call keeps the invariant: crates/bellows-lease/src/scheduler.rs.
use bellows.Prelude.{
  ℕ, ◌+◌, ◌≤◌, ◌<◌, ◌≡◌, ◌^◌, ◌-◌, refl, ◌∙◌, true, false, none, some, List, [], ◌∷◌, arith, length,
  Option-cases, inl, inr, ◌⊎◌,
}
use bellows.Prelude.Key.{text_key, nat_key}
use bellows.Prelude.Map.{get}
use bellows.Prelude.Text.{Text}
use bellows.Lease.Protocol.{Request}
use bellows.Lease.State.{Scheduler, new, Config}
use bellows.Lease.Ids.Uses.{uses}
use bellows.Lease.Valid.{IsValid}
use bellows.Lease.Scheduler.Admit.{admit}
use bellows.Lease.Scheduler.Admin.{
  reorder, set_paused, reserve, preempt, ci_start, ci_stop, set_merge_queue, overruns,
}
use bellows.Lease.Scheduler.Grant.{grant, grant_machines, grant_machine, grant_to}
use bellows.Lease.Scheduler.Release.{release}
use bellows.Lease.Scheduler.Grant.{claim}
use bellows.Lease.Calls.{
  Call, admits, grants, claims, releases, reorders, pauses, reserves, preempts, starts_ci, stops_ci,
  ranks, looks_over, step, run,
}
use bellows.Lease.Ids.Moves.{uses-admit, is_admitted}
use bellows.Lease.Valid.Granting.{grant-IsValid}
use bellows.Lease.Valid.Releasing.{release-IsValid, claim-IsValid}
use bellows.Lease.Valid.Marks.{
  marked-IsValid, requeued-IsValid, settings-IsValid, count-reorder_waiting,
  preempt_holder-SameLeases, overrun_holders-SameLeases,
}

-- The ids that are left to a `u64` counter.
abbrev pub HasRoom : ℕ → Scheduler → Type 0
HasRoom calls s = s.next_id + calls < 2 ^ 64

pub admit-next_id :
    (s : Scheduler) (r : Request) (now : ℕ)
    → HasRoom 1 s
    → (((admit s r now).0.next_id ≡ s.next_id) × (is_admitted (admit s r now).1 ≡ false))
      ⊎ ((admit s r now).0.next_id ≡ s.next_id + 1)
unfolding admit is_admitted
admit-next_id s r now h = ground arith

admit_rest :
    (s : Scheduler) (r : Request) (now : ℕ)
    → ((admit s r now).0.holders ≡ s.holders) × ((admit s r now).0.unclaimed ≡ s.unclaimed)
unfolding admit
admit_rest s r now = ground arith

pub admit-IsValid :
    (s : Scheduler) (r : Request) (now : ℕ) → HasRoom 1 s → IsValid s → IsValid (admit s r now).0
admit-IsValid s r now h v =
    let f = v.fresh s.next_id (omega arith) in
    let (holders, unclaimed) = admit_rest s r now in
    record {
      fresh = λ j g. ground (arith, uses-admit j s r now f, admit-next_id s r now h, v.fresh j);
      unique = λ j. ground (arith, uses-admit j s r now f, v.unique j, v.fresh j);
      sorted = rw holders v.sorted;
      keyed = rw holders v.keyed;
      backed = rw (holders, unclaimed) v.backed;
    }

pub ci_stop-IsValid :
    (s : Scheduler) (machine job : Text) → IsValid s → IsValid (ci_stop s machine job)
unfolding ci_stop
ci_stop-IsValid s machine job v = elim (Option-cases (get machine s.ci)) [
  | inl e ↦ rw (e, ci_stop) v
  | inr (jobs, e) ↦ rw (e, ci_stop) (settings-IsValid s s.paused s.reserved _ s.merge_queue v)
]

-- Every call keeps the invariant while an id is left.
pub step-IsValid : (s : Scheduler) (c : ℕ × Call) → HasRoom 1 s → IsValid s → IsValid (step s c)
unfolding step reorder set_paused reserve preempt ci_start set_merge_queue overruns
step-IsValid s (now, admits request) h v = admit-IsValid s request now h v
step-IsValid s (now, grants) h v = grant-IsValid s now v
step-IsValid s (now, claims id) h v = claim-IsValid s id v
step-IsValid s (now, releases id) h v = release-IsValid s id v
step-IsValid s (now, reorders id position) h v =
    requeued-IsValid s _ (λ j. count-reorder_waiting j id position s.waiting) v
step-IsValid s (now, pauses machine true) h v = settings-IsValid s _ s.reserved s.ci s.merge_queue v
step-IsValid s (now, pauses machine false) h v =
    settings-IsValid s _ s.reserved s.ci s.merge_queue v
step-IsValid s (now, reserves machine none) h v = settings-IsValid s s.paused _ s.ci s.merge_queue v
step-IsValid s (now, reserves machine (some r)) h v =
    settings-IsValid s s.paused _ s.ci s.merge_queue v
step-IsValid s (now, preempts id) h v =
    marked-IsValid s _ (preempt_holder-SameLeases id s.holders) v
step-IsValid s (now, starts_ci machine job) h v =
    settings-IsValid s s.paused s.reserved _ s.merge_queue v
step-IsValid s (now, stops_ci machine job) h v = ci_stop-IsValid s machine job v
step-IsValid s (now, ranks positions) h v = settings-IsValid s s.paused s.reserved s.ci _ v
step-IsValid s (now, looks_over) h v =
    marked-IsValid s _ (overrun_holders-SameLeases now s.holders) v

grant_machine-next_id :
    (s : Scheduler) (machine : Text) (now : ℕ) → (grant_machine s machine now).0.next_id ≡ s.next_id
unfolding grant_machine grant_to
grant_machine-next_id s machine now = ground arith

pub grant_machines-next_id :
    (s : Scheduler) (ms : List Text) (now : ℕ) → (grant_machines s ms now).0.next_id ≡ s.next_id
unfolding grant_machines
grant_machines-next_id s [] now = refl
grant_machines-next_id s (m ∷ ms) now =
    grant_machines-next_id (grant_machine s m now).0 ms now ∙ grant_machine-next_id s m now

pub step-next_id : (s : Scheduler) (c : ℕ × Call) → HasRoom 1 s → (step s c).next_id ≤ s.next_id + 1
unfolding step reorder set_paused reserve preempt ci_start set_merge_queue overruns release claim
    grant ci_stop
step-next_id s (now, admits request) h = ground (arith, admit-next_id s request now h)
step-next_id s (now, grants) h = omega (arith, grant_machines-next_id s s.config.machines now)
step-next_id s (now, claims id) h = omega arith
step-next_id s (now, releases id) h = ground arith
step-next_id s (now, reorders id position) h = omega arith
step-next_id s (now, pauses machine true) h = omega arith
step-next_id s (now, pauses machine false) h = omega arith
step-next_id s (now, reserves machine none) h = omega arith
step-next_id s (now, reserves machine (some r)) h = omega arith
step-next_id s (now, preempts id) h = omega arith
step-next_id s (now, starts_ci machine job) h = omega arith
step-next_id s (now, stops_ci machine job) h = ground arith
step-next_id s (now, ranks positions) h = omega arith
step-next_id s (now, looks_over) h = omega arith

pub run-IsValid :
    (s : Scheduler) (cs : List (ℕ × Call)) → HasRoom (length cs) s → IsValid s → IsValid (run s cs)
unfolding run
run-IsValid s [] h v = v
run-IsValid s (c ∷ cs) h v =
    run-IsValid (step s c) cs (omega (arith, step-next_id s c (omega arith)))
      (step-IsValid s c (omega arith) v)

pub new-IsValid : (config : Config) (now : ℕ) → IsValid (new config now)
unfolding new uses get
new-IsValid config now = record {
  fresh = λ id h. omega arith;
  unique = λ id. omega arith;
  sorted = tt;
  keyed = λ k h e. cc;
  backed = λ id g e. cc;
}

-- After any calls on a new scheduler, fewer than there are ids, the state is valid: each id waits,
-- holds a machine or runs nested at most once, ids not yet given out are nowhere, and every unclaimed
-- grant is backed by the holder of its machine.
pub run-new-IsValid :
    (config : Config) (now : ℕ) (cs : List (ℕ × Call))
    → length cs < 2 ^ 64 - 1
    → IsValid (run (new config now) cs)
unfolding new
run-new-IsValid config now cs h =
    run-IsValid (new config now) cs (omega arith) (new-IsValid config now)
