-- ===== src/Lease/Scheduler/Status.antt =====
-- The report: crates/bellows-lease/src/scheduler.rs, `status`.
use bellows.Prelude.{ℕ, ◌-◌, ◌/◌, List, [], ◌∷◌, map, ltb, if◌then◌else◌, option_map}
use bellows.Prelude.Key.{text_key, nat_key}
use bellows.Prelude.Map.{Map, get, contains_key}
use bellows.Prelude.Text.{Text}
use bellows.Lease.Protocol.{HolderView, QueuedView, MachineStatus, StatusReport}
use bellows.Lease.State.{Scheduler, Config, Waiting, Holder, jobs}
use bellows.Lease.Scheduler.Order.{order, merge_position}
use bellows.Lease.Scheduler.Grant.{reservation}
use bellows.Lease.Scheduler.Admin.{or_empty}

unfoldable pub running_jobs : Config → Map Text ℕ → ℕ → List Text
running_jobs config [] now_ms = []
running_jobs config ((job, started) ∷ jobs) now_ms =
    let rest = running_jobs config jobs now_ms in
    if ltb (now_ms - started) config.ci_expiry_ms then job ∷ rest else rest

abbrev pub holder_view : ℕ → Holder → HolderView
holder_view now_ms h = record {
  id = h.id;
  label = h.label;
  held_secs = (now_ms - h.since_ms) / 1000;
  estimate_secs = h.estimate_secs;
  session = h.session;
  preempting = h.preempting;
}

abbrev pub queued_view : Map ℕ ℕ → ℕ → Waiting → QueuedView
queued_view queue now_ms w = record {
  id = w.id;
  label = w.request.label;
  priority = w.request.priority;
  pr = w.request.pr;
  merge_queue_position = merge_position queue w;
  waited_secs = (now_ms - w.since_ms) / 1000;
  estimate_secs = w.request.estimate_secs;
}

unfoldable pub machine_status : Scheduler → ℕ → Text → MachineStatus
unfolding running_jobs
machine_status s now_ms machine = record {
  machine = machine;
  paused = contains_key machine s.paused;
  reserved_for = reservation s machine now_ms;
  ci_jobs = running_jobs s.config (or_empty (get machine s.ci)) now_ms;
  jobs = jobs s machine now_ms;
  holder = option_map (holder_view now_ms) (get machine s.holders);
  queue = map (queued_view s.merge_queue now_ms) (order s machine);
}

unfoldable pub status : Scheduler → ℕ → StatusReport
unfolding machine_status
status s now_ms = record { machines = map (machine_status s now_ms) s.config.machines }
