-- ===== src/Lease/Tests.antt =====
-- The scheduler of crates/bellows-lease/src/scheduler.rs on concrete calls: its own tests, and an
-- instance of each theorem with a hypothesis.
use bellows.Prelude.{
  ℕ, ◌≡◌, ◌*◌, inl, inr, refl, false, Option, none, some, List, [], ◌∷◌, map, arith, min, ◌++◌, ◌↔◌,
}
use bellows.Prelude.Int.{pos}
use bellows.Prelude.Key.{list_cmp}
use bellows.Prelude.Map.{get, insert}
use bellows.Prelude.Sort.{sort_by}
use bellows.Prelude.Text.{Text, codes}
use bellows.Lease.Protocol.{Request}
use bellows.Lease.State.{
  Scheduler, Config, Waiting, Holder, Grant, Admission, new, knows, jobs, ci_active,
}
use bellows.Lease.Calls.{Call, admits, grants, run}
use bellows.Lease.Scheduler.Admit.{admit}
use bellows.Lease.Scheduler.Order.{order, rank_cmp}
use bellows.Lease.Scheduler.Grant.{
  grant, claim, is_closed, chosen, next_request, is_eligible, reservation, take_waiting, grant_to,
}
use bellows.Lease.Scheduler.Release.{release, holds, is_waiting}
use bellows.Lease.Scheduler.Admin.{set_merge_queue}
use bellows.Lease.Valid.{IsValid}
use bellows.Lease.Valid.Step.{run-new-IsValid}
use bellows.Lease.Facts.Sessions.{admit-nested_iff, InSession}
use bellows.Lease.Facts.Ending.{release_ends}
use bellows.Lease.Duration.{parse_duration_secs, parse_duration_secs-decimal}
use bellows.Prelude.Decimal.{decimal, u64_max}

abbrev laptop : Text
laptop = codes "laptop"

abbrev desktop : Text
desktop = codes "desktop"

-- `Config::default`.
abbrev default : Config
default = record {
  machines = laptop ∷ desktop ∷ [];
  jobs = 24;
  ci_jobs = 12;
  ci_expiry_ms = 10800000;
}

abbrev request : Text → Text → ℕ → Option ℕ → Request
request machine label priority pr = record {
  machine = machine;
  label = label;
  priority = pos priority;
  pr = pr;
  estimate_secs = 600;
  session = false;
  token = none;
  client_pid = 0;
}

abbrev merge_queue_calls : List (ℕ × Call)
merge_queue_calls =
    (1, admits (request laptop (codes "first") 0 none))
    ∷ (2, admits (request laptop (codes "pr 9") 0 (some 9)))
    ∷ (3, admits (request laptop (codes "pr 7") 0 (some 7)))
    ∷ (4, admits (request laptop (codes "urgent") 5 none))
    ∷ (5, admits (request desktop (codes "desktop") 0 none))
    ∷ (6, Call.ranks ((7, 0) ∷ (9, 1) ∷ []))
    ∷ []

queue_state : Scheduler
unfolding run admit new get insert knows jobs ci_active list_cmp
queue_state = run (new default 0) merge_queue_calls

-- `one_holder_per_machine_in_priority_then_merge_queue_then_arrival_order`.
grants_urgent : map (λ (g : Grant). g.id) (grant queue_state 10).1 ≡ 4 ∷ 5 ∷ []
unfolding queue_state grant order set_merge_queue is_closed chosen next_request sort_by rank_cmp
    is_eligible reservation take_waiting grant_to
grants_urgent = refl

run-new-IsValid_example : IsValid (run (new default 0) merge_queue_calls)
run-new-IsValid_example = run-new-IsValid default 0 merge_queue_calls (omega arith)

abbrev first_waiting : Waiting
first_waiting = record {
  id = 1;
  request = request laptop (codes "first") 0 none;
  since_ms = 1;
  manual_position = none;
}

release_ends_example :
    let s = (release (run (new default 0) merge_queue_calls) 1).0 in
    (is_waiting s 1 ≡ false) × (holds s 1 ≡ false) × ((claim s 1).1 ≡ none)
release_ends_example = release_ends default 0 merge_queue_calls 1 (omega arith)

-- The two machines granted.
granted_state : Scheduler
unfolding queue_state grant order set_merge_queue is_closed chosen next_request sort_by rank_cmp
    is_eligible reservation take_waiting grant_to
granted_state = (grant queue_state 10).0

granted_state-IsValid : IsValid granted_state
unfolding granted_state queue_state
granted_state-IsValid =
    run-new-IsValid default 0 (merge_queue_calls ++ (10, grants) ∷ []) (omega arith)

abbrev holding : ℕ → Text → Text → Holder
holding id machine label = record {
  id = id;
  machine = machine;
  label = label;
  since_ms = 10;
  estimate_secs = 600;
  session = false;
  token = none;
  preempting = false;
  overrun_logged = false;
}

admit-nested_iff_example :
    ((g : Grant) × ((admit granted_state (request laptop (codes "step") 0 none) 11).1
        ≡ Admission.nested g))
    ↔ InSession granted_state (request laptop (codes "step") 0 none)
admit-nested_iff_example = admit-nested_iff granted_state (request laptop (codes "step") 0 none) 11

parse_duration_secs-decimal_example :
    parse_duration_secs (decimal 20 ++ b'm' ∷ []) ≡ some (min (20 * 60) u64_max)
parse_duration_secs-decimal_example =
    parse_duration_secs-decimal 20 b'm' 60 (omega arith) (inr (inl (refl, refl)))
