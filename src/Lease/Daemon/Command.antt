-- ===== src/Lease/Daemon/Command.antt =====
-- The commands that end with their reply: crates/bellows-lease/src/server.rs, `admin` and
-- `connection`.
use bellows.Prelude.{ℕ, none, some, List, [], ◌∷◌, Bool, true, false, if◌then◌else◌, not}
use bellows.Prelude.Text.{text_eq}
use bellows.Lease.Protocol.{Hello, AdminAction, Reply, Reason}
use bellows.Lease.State.{Scheduler, knows}
use bellows.Lease.Scheduler.Release.{release, holds, is_waiting}
use bellows.Lease.Scheduler.Admin.{reorder, set_paused, reserve, preempt, ci_start, ci_stop}
use bellows.Lease.Scheduler.Status.{status}
use bellows.Lease.Daemon.State.{Daemon, Effect, LogEvent, mail}

abbrev pub with_scheduler : Daemon → Scheduler → Daemon
with_scheduler d s = record d { scheduler = s }

-- A held lease is revoked by message, a queued request is removed.
unfoldable pub cancel : Daemon → ℕ → Daemon × Bool
cancel d id =
    if holds d.scheduler id
    then (record d { mailboxes = mail d.mailboxes id (Reply.revoked Reason.cancelled) }, true)
    else (with_scheduler d (release d.scheduler id).0, is_waiting d.scheduler id)

unfoldable pub preempt_session : Daemon → ℕ → Daemon × Bool
preempt_session d id =
    let (s, held) = preempt d.scheduler id in
    (
      record d {
        scheduler = s;
        mailboxes = if held then mail d.mailboxes id Reply.preempting else d.mailboxes;
      },
      held,
    )

unfoldable pub act : Daemon → AdminAction → Daemon × Bool
unfolding cancel preempt_session
act d (AdminAction.reorder id position) =
    let (s, found) = reorder d.scheduler id position in (with_scheduler d s, found)
act d (AdminAction.pause machine) =
    (with_scheduler d (set_paused d.scheduler machine true), knows d.scheduler machine)
act d (AdminAction.resume machine) =
    (with_scheduler d (set_paused d.scheduler machine false), knows d.scheduler machine)
act d (AdminAction.preempt id) = preempt_session d id
act d (AdminAction.reserve machine label until_ms) = (
  with_scheduler d (reserve d.scheduler machine (some (label, until_ms))),
  knows d.scheduler machine,
)
act d (AdminAction.unreserve machine) = (with_scheduler d (reserve d.scheduler machine none), true)
act d (AdminAction.cancel id) = cancel d id

abbrev pub log_admin : Effect
log_admin = Effect.log LogEvent.admin none none none

abbrev pub answer : Bool → Reply
answer true = Reply.ok
answer false = Reply.refused Reason.nothing_such

unfoldable pub admin : Daemon → AdminAction → Daemon × Reply
unfolding act
admin d action = let (d', found) = act d action in (d', answer found)

-- Every first message but a request; a request's connection goes on in `lease`.
unfoldable pub command : Daemon → ℕ → Hello → Daemon × List Effect
unfolding admin
command d now (Hello.request r) = (d, [])
command d now Hello.status = (d, Effect.say (Reply.status_report (status d.scheduler now)) ∷ [])
command d now (Hello.ci_start machine job) =
    if knows d.scheduler machine
    then (
      with_scheduler d (ci_start d.scheduler machine job now),
      Effect.log LogEvent.ci_start none (some machine) (some job) ∷ Effect.say Reply.ok ∷ [],
    )
    else (d, Effect.say (Reply.refused (Reason.unknown_ci_machine machine)) ∷ [])
command d now (Hello.ci_stop machine job) = (
  with_scheduler d (ci_stop d.scheduler machine job),
  Effect.log LogEvent.ci_stop none (some machine) (some job) ∷ Effect.say Reply.ok ∷ [],
)
command d now (Hello.admin secret action) =
    if not (text_eq secret d.secret)
    then (d, Effect.say (Reply.refused Reason.wrong_secret) ∷ [])
    else (let (d', reply) = admin d action in (d', log_admin ∷ Effect.wake ∷ Effect.say reply ∷ []))
command d now (Hello.unleased machine label id reason) =
    (d, Effect.log LogEvent.unleased id (some machine) (some label) ∷ Effect.say Reply.ok ∷ [])
