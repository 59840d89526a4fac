-- ===== src/Lease/Scheduler/Admin.antt =====
-- Administration, CI registrations and overruns: crates/bellows-lease/src/scheduler.rs.
use bellows.Prelude.{
  ℕ, ◌-◌, ◌*◌, ◌^◌, min, Bool, true, false, ◌&&◌, not, Option, none, some, List, [], ◌∷◌, ltb, ◌==◌,
  if◌then◌else◌,
}
use bellows.Prelude.Key.{text_key, nat_key}
use bellows.Prelude.Map.{Map, get, insert, remove}
use bellows.Prelude.Text.{Text}
use bellows.Lease.State.{Scheduler, Waiting, Holder, jobs}

-- The first request with the id is moved.
unfoldable pub reorder_waiting : ℕ → ℕ → List Waiting → List Waiting × Bool
reorder_waiting id position [] = ([], false)
reorder_waiting id position (w ∷ ws) =
    let (rest, found) = reorder_waiting id position ws in
    if w.id == id
    then (record w { manual_position = some position } ∷ ws, true)
    else (w ∷ rest, found)

unfoldable pub reorder : Scheduler → ℕ → ℕ → Scheduler × Bool
unfolding reorder_waiting
reorder s id position =
    let (waiting, found) = reorder_waiting id position s.waiting in
    (record s { waiting = waiting }, found)

unfoldable pub set_paused : Scheduler → Text → Bool → Scheduler
set_paused s machine true = record s { paused = insert machine tt s.paused }
set_paused s machine false = record s { paused = remove machine s.paused }

unfoldable pub reserve : Scheduler → Text → Option (Text × ℕ) → Scheduler
reserve s machine (some reservation) = record s { reserved = insert machine reservation s.reserved }
reserve s machine none = record s { reserved = remove machine s.reserved }

-- The first holder with the id is marked.
unfoldable pub preempt_holder : ℕ → Map Text Holder → Map Text Holder × Bool
preempt_holder id [] = ([], false)
preempt_holder id ((machine, h) ∷ m) =
    let (rest, found) = preempt_holder id m in
    if h.id == id
    then ((machine, record h { preempting = true }) ∷ m, true)
    else ((machine, h) ∷ rest, found)

unfoldable pub preempt : Scheduler → ℕ → Scheduler × Bool
unfolding preempt_holder
preempt s id =
    let (holders, found) = preempt_holder id s.holders in (record s { holders = holders }, found)

-- `unwrap_or_default` and `or_default` on a map of jobs.
abbrev pub or_empty : Option (Map Text ℕ) → Map Text ℕ
or_empty none = []
or_empty (some jobs) = jobs

unfoldable pub ci_start : Scheduler → Text → Text → ℕ → Scheduler
ci_start s machine job now_ms = record s {
  ci = insert machine (insert job now_ms (or_empty (get machine s.ci))) s.ci;
}

unfoldable pub ci_stop : Scheduler → Text → Text → Scheduler
ci_stop s machine job = elim (get machine s.ci) [
  | none ↦ s
  | some jobs ↦ record s { ci = insert machine (remove job jobs) s.ci }
]

unfoldable pub set_merge_queue : Scheduler → Map ℕ ℕ → Scheduler
set_merge_queue s positions = record s { merge_queue = positions }

-- `u64::saturating_mul`.
unfoldable pub saturating_mul : ℕ → ℕ → ℕ
saturating_mul a b = min (a * b) (2 ^ 64 - 1)

unfoldable pub is_over : Holder → ℕ → Bool
unfolding saturating_mul
is_over h now_ms =
    not h.overrun_logged && ltb (saturating_mul h.estimate_secs 1500) (now_ms - h.since_ms)

unfoldable pub overrun_holders : Map Text Holder → ℕ → Map Text Holder × List Holder
unfolding is_over
overrun_holders [] now_ms = ([], [])
overrun_holders ((machine, h) ∷ m) now_ms =
    let (rest, over) = overrun_holders m now_ms in
    let logged = record h { overrun_logged = true } in
    if is_over h now_ms
    then ((machine, logged) ∷ rest, logged ∷ over)
    else ((machine, h) ∷ rest, over)

unfoldable pub overruns : Scheduler → ℕ → Scheduler × List Holder
unfolding overrun_holders
overruns s now_ms =
    let (holders, over) = overrun_holders s.holders now_ms in (record s { holders = holders }, over)
