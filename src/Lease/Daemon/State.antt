-- ===== src/Lease/Daemon/State.antt =====
-- What the daemon's tasks share, and where a lease's connection stands:
-- crates/bellows-lease/src/server.rs, `Shared` and the local state of `lease`. The tasks run
-- between their `await`s one at a time under the scheduler's lock; each such stretch is one move.
use bellows.Prelude.{ℕ, Option, none, some, List, [], ◌∷◌, ◌++◌}
use bellows.Prelude.Int.{ℤ}
use bellows.Prelude.Key.{nat_key}
use bellows.Prelude.Map.{Map, get, insert}
use bellows.Prelude.Text.{Text}
use bellows.Lease.Protocol.{Reply}
use bellows.Lease.State.{Scheduler, Grant}

-- The point that `lease` has reached.
pub data Phase : Type 0 where
  -- In `wait_for_grant`, with the position and holder last reported.
  waiting : ℕ → Option (ℕ × Option Text) → Phase
  -- `wait_for_grant` returned `None`.
  abandoned : ℕ → Phase
  -- The grant is there, the mailbox is not.
  granted : Grant → Phase
  -- In the `select!` loop, with the process group.
  running : Grant → Option ℤ → Phase
  -- Out of the loop, with the exit code if the client reported one.
  ended : Grant → Option ℤ → Option ℤ → Phase
  -- The mailbox is gone and an orphaned group killed.
  unboxed : Grant → Phase
  -- Released, about to grant again.
  released : Phase
  closed : Phase

pub record Connection : Type 0 where
  pub machine : Text
  pub label : Text
  pub phase : Phase

pub record Daemon : Type 0 where
  pub scheduler : Scheduler
  -- The replies that wait in each mailbox.
  pub mailboxes : Map ℕ (List Reply)
  pub secret : Text
  pub connections : Map ℕ Connection

pub data LogEvent : Type 0 where
  request abandon grant grant_nested killed_orphan release release_nested : LogEvent
  admin ci_start ci_stop unleased : LogEvent

-- What a move does outside the daemon: a message to its client, a signal to a process group, a line
-- of the log, and a wake-up of all waiting connections.
pub data Effect : Type 0 where
  say : Reply → Effect
  kill_group : ℤ → Effect
  log : LogEvent → Option ℕ → Option Text → Option Text → Effect
  wake : Effect

-- `mailbox.send`, to an id that has a mailbox.
unfoldable pub mail : Map ℕ (List Reply) → ℕ → Reply → Map ℕ (List Reply)
mail boxes id reply = elim (get id boxes) [
  | none ↦ boxes
  | some box ↦ insert id (box ++ reply ∷ []) boxes
]
