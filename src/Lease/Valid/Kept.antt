-- ===== src/Lease/Valid/Kept.antt =====
-- The operations that administrators and CI call leave every id where it stands:
-- crates/bellows-lease/src/scheduler.rs.
use bellows.Prelude.{
  ℕ, ◌≡◌, refl, Bool, true, false, Option, none, some, Option-cases, inl, inr, arith,
}
use bellows.Prelude.Key.{text_key}
use bellows.Prelude.Map.{get}
use bellows.Prelude.Text.{Text}
use bellows.Lease.State.{Scheduler}
use bellows.Lease.Scheduler.Admin.{reorder, set_paused, reserve, preempt, ci_start, ci_stop}
use bellows.Lease.Scheduler.Grant.{claim}
use bellows.Lease.Ids.Uses.{uses}
use bellows.Lease.Valid.Marks.{count-reorder_waiting, count-SameLeases, preempt_holder-SameLeases}

-- The same ids stand in the same places, and the same id comes next.
pub record Keeps (s s' : Scheduler) : Type 0 where
  pub uses_same : (j : ℕ) → uses j s' ≡ uses j s
  pub next_same : s'.next_id ≡ s.next_id

pub reorder-Keeps : (s : Scheduler) (id position : ℕ) → Keeps s (reorder s id position).0
unfolding reorder uses
reorder-Keeps s id position = record {
  uses_same = λ j. ground (arith, count-reorder_waiting j id position s.waiting);
  next_same = refl;
}

pub preempt-Keeps : (s : Scheduler) (id : ℕ) → Keeps s (preempt s id).0
unfolding preempt uses
preempt-Keeps s id = record {
  uses_same = λ j. ground (arith, count-SameLeases (preempt_holder-SameLeases id s.holders) j);
  next_same = refl;
}

pub set_paused-Keeps :
    (s : Scheduler) (machine : Text) (b : Bool) → Keeps s (set_paused s machine b)
unfolding set_paused uses
set_paused-Keeps s machine true = record { uses_same = λ j. refl; next_same = refl }
set_paused-Keeps s machine false = record { uses_same = λ j. refl; next_same = refl }

pub reserve-Keeps :
    (s : Scheduler) (machine : Text) (r : Option (Text × ℕ)) → Keeps s (reserve s machine r)
unfolding reserve uses
reserve-Keeps s machine none = record { uses_same = λ j. refl; next_same = refl }
reserve-Keeps s machine (some r) = record { uses_same = λ j. refl; next_same = refl }

pub ci_start-Keeps :
    (s : Scheduler) (machine job : Text) (now : ℕ) → Keeps s (ci_start s machine job now)
unfolding ci_start uses
ci_start-Keeps s machine job now = record { uses_same = λ j. refl; next_same = refl }

pub ci_stop-Keeps : (s : Scheduler) (machine job : Text) → Keeps s (ci_stop s machine job)
unfolding ci_stop uses
ci_stop-Keeps s machine job = elim (Option-cases (get machine s.ci)) [
  | inl e ↦ rw (e, ci_stop) (record { uses_same = λ j. refl; next_same = refl })
  | inr (jobs, e) ↦ rw (e, ci_stop) (record { uses_same = λ j. refl; next_same = refl })
]

pub claim-Keeps : (s : Scheduler) (id : ℕ) → Keeps s (claim s id).0
unfolding claim uses
claim-Keeps s id = record { uses_same = λ j. refl; next_same = refl }
