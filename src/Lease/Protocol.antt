-- ===== src/Lease/Protocol.antt =====
-- The daemon's messages: crates/bellows-lease/src/protocol.rs. A message is its value; the JSON
-- that carries it is serde's.
use bellows.Prelude.{ℕ, Bool, List, Option}
use bellows.Prelude.Int.{ℤ}
use bellows.Prelude.Text.{Text}

pub record Request : Type 0 where
  pub machine : Text
  pub label : Text
  pub priority : ℤ
  pub pr : Option ℕ
  pub estimate_secs : ℕ
  pub session : Bool
  pub token : Option Text
  pub client_pid : ℕ

pub data AdminAction : Type 0 where
  reorder : ℕ → ℕ → AdminAction
  pause : Text → AdminAction
  resume : Text → AdminAction
  preempt : ℕ → AdminAction
  reserve : Text → Text → ℕ → AdminAction
  unreserve : Text → AdminAction
  cancel : ℕ → AdminAction

pub data Hello : Type 0 where
  request : Request → Hello
  status : Hello
  ci_start : Text → Text → Hello
  ci_stop : Text → Text → Hello
  admin : Text → AdminAction → Hello
  unleased : Text → Text → Option ℕ → Text → Hello

-- `i32` codes and group numbers are kept as they are written.
pub data ClientEvent : Type 0 where
  spawned : ℤ → ClientEvent
  done : ℤ → ClientEvent

pub record HolderView : Type 0 where
  pub id : ℕ
  pub label : Text
  pub held_secs : ℕ
  pub estimate_secs : ℕ
  pub session : Bool
  pub preempting : Bool

pub record QueuedView : Type 0 where
  pub id : ℕ
  pub label : Text
  pub priority : ℤ
  pub pr : Option ℕ
  pub merge_queue_position : Option ℕ
  pub waited_secs : ℕ
  pub estimate_secs : ℕ

pub record MachineStatus : Type 0 where
  pub machine : Text
  pub paused : Bool
  pub reserved_for : Option Text
  pub ci_jobs : List Text
  pub jobs : ℕ
  pub holder : Option HolderView
  pub queue : List QueuedView

pub record StatusReport : Type 0 where
  pub machines : List MachineStatus

-- The reason of a refusal or a revocation, by what its text is formatted from.
pub data Reason : Type 0 where
  unknown_machine : Text → List Text → Reason
  unknown_ci_machine : Text → Reason
  session_preempted : Reason
  bad_request : Reason
  wrong_secret : Reason
  nothing_such : Reason
  cancelled : Reason

pub data Reply : Type 0 where
  queued : ℕ → ℕ → Option Text → Reply
  granted : ℕ → ℕ → Option Text → Bool → Reply
  refused : Reason → Reply
  revoked : Reason → Reply
  preempting : Reply
  status_report : StatusReport → Reply
  ok : Reply
