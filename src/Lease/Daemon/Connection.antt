-- ===== src/Lease/Daemon/Connection.antt =====
-- A lease's connection, move by move: crates/bellows-lease/src/server.rs, `lease`,
-- `wait_for_grant` and `regrant`.
use bellows.Prelude.{
  ℕ, Option, none, some, List, [], ◌∷◌, ◌++◌, Bool, true, false, if◌then◌else◌, not, any, ◌&&◌,
  ◌==◌, ltb,
}
use bellows.Prelude.Int.{ℤ, pos_part}
use bellows.Prelude.Key.{nat_key}
use bellows.Prelude.Map.{get, insert, remove}
use bellows.Prelude.Text.{Text, text_eq, is_empty}
use bellows.Lease.Protocol.{Request, ClientEvent, Reply, Reason}
use bellows.Lease.State.{Grant, Admission}
use bellows.Lease.Scheduler.Admit.{admit}
use bellows.Lease.Scheduler.Order.{position, or_zero}
use bellows.Lease.Scheduler.Grant.{grant, claim}
use bellows.Lease.Scheduler.Release.{release, is_waiting, holder_label}
use bellows.Lease.Daemon.State.{Daemon, Connection, Phase, Effect, LogEvent}
use bellows.Lease.Daemon.State.Phase.{
  waiting, abandoned, granted, running, ended, unboxed, released, closed,
}

-- What happens to the connection next. A `Bool` says whether the message that the move sends, if
-- it sends one, is written: a failed write ends `lease` by its `?`.
pub data Move : Type 0 where
  polls : Bool → Move
  hangs_up : Move
  starts : Bool → Move
  hears : ClientEvent → Move
  receives : Move
  unboxes : Move
  frees : Move
  regrants : Move

abbrev pub put : Daemon → ℕ → Connection → Phase → Daemon
put d c k phase = record d { connections = insert c (record k { phase = phase }) d.connections }

unfoldable pub same_option {ℓ} : {A : Type ℓ} → (A → A → Bool) → Option A → Option A → Bool
same_option eq none none = true
same_option eq none (some b) = false
same_option eq (some a) none = false
same_option eq (some a) (some b) = eq a b

abbrev pub same_view : ℕ × Option Text → ℕ × Option Text → Bool
same_view a b = a.0 == b.0 && same_option text_eq a.1 b.1

unfoldable pub wakes : Bool → List Effect
wakes true = Effect.wake ∷ []
wakes false = []

-- Still in the queue: the position is reported when it changes.
unfoldable pub report :
    Daemon → ℕ → Connection → ℕ → Option (ℕ × Option Text) → Bool → Daemon × List Effect
unfolding same_option
report d c k id last sent =
    let at = or_zero (position d.scheduler id) in
    let holder = holder_label d.scheduler k.machine in
    if same_option same_view last (some (at, holder)) then (d, []) else (
      put d c k (if sent then waiting id (some (at, holder)) else closed),
      Effect.say (Reply.queued id at holder) ∷ [],
    )

-- One turn of the loop in `wait_for_grant`, under the lock.
unfoldable pub poll :
    Daemon → ℕ → Connection → ℕ → Option (ℕ × Option Text) → ℕ → Bool → Daemon × List Effect
unfolding report wakes
poll d c k id last now sent =
    let (s, gs) = grant d.scheduler now in
    let woken = wakes (any (λ g. not (g.id == id)) gs) in
    let (s', claimed) = claim s id in
    let d' = record d { scheduler = s' } in
    elim claimed [
      | some g ↦ (put d' c k (granted g), woken)
      | none ↦
          if not (is_waiting s' id)
          then (
            put d' c k (if sent then abandoned id else closed),
            woken ++ Effect.say (Reply.refused Reason.cancelled) ∷ [],
          )
          else (let (d'', said) = report d' c k id last sent in (d'', woken ++ said))
    ]

abbrev pub grant_event : Grant → LogEvent
grant_event g = if g.nested then LogEvent.grant_nested else LogEvent.grant

abbrev pub release_event : Grant → LogEvent
release_event g = if g.nested then LogEvent.release_nested else LogEvent.release

-- The mailbox is registered, then the grant is sent.
unfoldable pub start : Daemon → ℕ → Connection → Grant → Bool → Daemon × List Effect
start d c k g sent = (
  put (record d { mailboxes = insert g.id [] d.mailboxes }) c k
      (if sent then running g none else closed),
  Effect.log (grant_event g) (some g.id) (some k.machine) (some k.label)
      ∷ Effect.say (Reply.granted g.id g.jobs g.token g.nested)
      ∷ [],
)

unfoldable pub hear :
    Daemon → ℕ → Connection → Grant → Option ℤ → ClientEvent → Daemon × List Effect
hear d c k g pgid (ClientEvent.spawned group) = (put d c k (running g (some group)), [])
hear d c k g pgid (ClientEvent.done exit) = (put d c k (ended g pgid (some exit)), [])

-- `inbox.recv`: the oldest reply of the mailbox is sent; a failed write is ignored.
unfoldable pub receive : Daemon → ℕ → Daemon × List Effect
receive d id = elim (get id d.mailboxes) [
  | none ↦ (d, [])
  | some box ↦ elim box [
    | [] ↦ (d, [])
    | reply ∷ rest ↦ (record d { mailboxes = insert id rest d.mailboxes }, Effect.say reply ∷ [])
  ]
]

-- `libc::kill(-pgid, SIGKILL)`, for a group above 1 only.
unfoldable pub kills : ℤ → List Effect
kills group = if ltb 1 (pos_part group) then Effect.kill_group group ∷ [] else []

-- A job whose client went away without reporting its end is killed.
unfoldable pub orphan : Connection → Grant → Option ℤ → Option ℤ → List Effect
unfolding kills
orphan k g pgid (some code) = []
orphan k g none none = []
orphan k g (some group) none =
    kills group
    ++ Effect.log LogEvent.killed_orphan (some g.id) (some k.machine) (some k.label) ∷ []

unfoldable pub unbox : Daemon → ℕ → Connection → Grant → Option ℤ → Option ℤ → Daemon × List Effect
unfolding orphan
unbox d c k g pgid code =
    (put (record d { mailboxes = remove g.id d.mailboxes }) c k (unboxed g), orphan k g pgid code)

unfoldable pub free : Daemon → ℕ → Connection → ℕ → LogEvent → Daemon × List Effect
free d c k id event = (
  put (record d { scheduler = (release d.scheduler id).0 }) c k released,
  Effect.log event (some id) (some k.machine) (some k.label) ∷ [],
)

unfoldable pub regrant : Daemon → ℕ → Connection → ℕ → Daemon × List Effect
unfolding wakes
regrant d c k now =
    let (s, gs) = grant d.scheduler now in
    (put (record d { scheduler = s }) c k closed, wakes (not (is_empty gs)))

-- A move that the phase does not make changes nothing.
unfoldable pub advance_phase : Daemon → ℕ → Connection → ℕ → Phase → Move → Daemon × List Effect
advance_phase d c k now (waiting id last) (polls sent) = poll d c k id last now sent
advance_phase d c k now (waiting id last) hangs_up = (put d c k (abandoned id), [])
advance_phase d c k now (abandoned id) frees = free d c k id LogEvent.abandon
advance_phase d c k now (granted g) (starts sent) = start d c k g sent
advance_phase d c k now (running g pgid) (hears event) = hear d c k g pgid event
advance_phase d c k now (running g pgid) receives = receive d g.id
advance_phase d c k now (running g pgid) hangs_up = (put d c k (ended g pgid none), [])
advance_phase d c k now (ended g pgid code) unboxes = unbox d c k g pgid code
advance_phase d c k now (unboxed g) frees = free d c k g.id (release_event g)
advance_phase d c k now released regrants = regrant d c k now
advance_phase d c k now _ _ = (d, [])

unfoldable pub advance : Daemon → ℕ → ℕ → Move → Daemon × List Effect
advance d c now move = elim (get c d.connections) [
  | none ↦ (d, [])
  | some k ↦ advance_phase d c k now k.phase move
]

unfoldable pub first_phase : Admission → Phase
first_phase (Admission.queued id) = waiting id none
first_phase (Admission.nested g) = granted g
first_phase (Admission.refused reason) = closed

unfoldable pub first_effects : Request → Admission → List Effect
first_effects r (Admission.queued id) =
    Effect.log LogEvent.request (some id) (some r.machine) (some r.label) ∷ []
first_effects r (Admission.nested g) = []
first_effects r (Admission.refused reason) = Effect.say (Reply.refused reason) ∷ []

-- A new connection whose first message is a request.
unfoldable pub lease : Daemon → ℕ → ℕ → Request → Daemon × List Effect
unfolding first_phase first_effects
lease d c now r = elim (get c d.connections) [
  | some k ↦ (d, [])
  | none ↦
      let (s, admission) = admit d.scheduler r now in
      (
        record d {
          scheduler = s;
          connections =
              insert c
                (record { machine = r.machine; label = r.label; phase = first_phase admission })
                d.connections;
        },
        first_effects r admission,
      )
]
