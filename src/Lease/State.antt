-- ===== src/Lease/State.antt =====
-- The state of the scheduler and what is read from it directly: crates/bellows-lease/src/scheduler.rs.
-- Times are arguments, as in the code; a reading of a clock is any number.
use bellows.Prelude.{ℕ, ◌-◌, Bool, false, Option, none, some, List, [], ltb, if◌then◌else◌, any}
use bellows.Prelude.Key.{text_key, nat_key}
use bellows.Prelude.Map.{Map, get, values}
use bellows.Prelude.Text.{Text, text_eq}
use bellows.Lease.Protocol.{Request, Reason}

pub record Config : Type 0 where
  pub machines : List Text
  pub jobs : ℕ
  pub ci_jobs : ℕ
  pub ci_expiry_ms : ℕ

pub record Waiting : Type 0 where
  pub id : ℕ
  pub request : Request
  pub since_ms : ℕ
  pub manual_position : Option ℕ

pub record Holder : Type 0 where
  pub id : ℕ
  pub machine : Text
  pub label : Text
  pub since_ms : ℕ
  pub estimate_secs : ℕ
  pub session : Bool
  pub token : Option Text
  pub preempting : Bool
  pub overrun_logged : Bool

pub record Grant : Type 0 where
  pub id : ℕ
  pub machine : Text
  pub jobs : ℕ
  pub token : Option Text
  pub nested : Bool

pub data Admission : Type 0 where
  queued : ℕ → Admission
  nested : Grant → Admission
  refused : Reason → Admission

pub record Scheduler : Type 0 where
  pub config : Config
  pub next_id : ℕ
  pub waiting : List Waiting
  pub holders : Map Text Holder
  pub nested : Map ℕ Text
  pub paused : Map Text (Unit {0})
  pub reserved : Map Text (Text × ℕ)
  pub ci : Map Text (Map Text ℕ)
  pub merge_queue : Map ℕ ℕ
  pub unclaimed : Map ℕ Grant
  pub token_seed : ℕ

-- `now_ms` seeds the tokens.
unfoldable pub new : Config → ℕ → Scheduler
new config now_ms = record {
  config = config;
  next_id = 1;
  waiting = [];
  holders = [];
  nested = [];
  paused = [];
  reserved = [];
  ci = [];
  merge_queue = [];
  unclaimed = [];
  token_seed = now_ms;
}

unfoldable pub knows : Scheduler → Text → Bool
knows s machine = any (λ known. text_eq known machine) s.config.machines

unfoldable pub ci_active : Scheduler → Text → ℕ → Bool
ci_active s machine now_ms = elim (get machine s.ci) [
  | none ↦ false
  | some jobs ↦ any (λ started. ltb (now_ms - started) s.config.ci_expiry_ms) (values jobs)
]

unfoldable pub jobs : Scheduler → Text → ℕ → ℕ
jobs s machine now_ms = if ci_active s machine now_ms then s.config.ci_jobs else s.config.jobs
