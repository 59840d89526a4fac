-- ===== src/Lease/Scheduler/Admit.antt =====
-- Admission: crates/bellows-lease/src/scheduler.rs, `admit`.
use bellows.Prelude.{
  ℕ, ◌+◌, ◌%◌, ◌^◌, Bool, true, false, not, Option, none, some, [], ◌∷◌, ◌++◌, if◌then◌else◌,
}
use bellows.Prelude.Key.{text_key, nat_key}
use bellows.Prelude.Map.{get, insert}
use bellows.Prelude.Text.{text_eq}
use bellows.Lease.Protocol.{Request}
use bellows.Lease.Protocol.Reason.{unknown_machine, session_preempted}
use bellows.Lease.State.{Scheduler, Holder, Admission, knows, jobs}

-- The request carries the token of the machine's session.
unfoldable pub carries_token : Request → Option Holder → Bool
carries_token request none = false
carries_token request (some holder) = elim request.token [
  | none ↦ false
  | some token ↦ elim holder.token [ none ↦ false | some mine ↦ text_eq mine token ]
]

unfoldable pub is_preempting : Option Holder → Bool
is_preempting none = false
is_preempting (some holder) = holder.preempting

-- `next_id` is a `u64`.
unfoldable pub admit : Scheduler → Request → ℕ → Scheduler × Admission
unfolding carries_token is_preempting
admit s request now_ms =
    let id = s.next_id in
    let numbered = record s { next_id = (id + 1) % 2 ^ 64 } in
    let holder = get request.machine s.holders in
    if not (knows s request.machine)
    then (s, Admission.refused (unknown_machine request.machine s.config.machines))
    else if carries_token request holder
    then (if is_preempting holder then (numbered, Admission.refused session_preempted) else (
      record numbered { nested = insert id request.machine s.nested },
      Admission.nested (record {
        id = id;
        machine = request.machine;
        jobs = jobs s request.machine now_ms;
        token = request.token;
        nested = true;
      }),
    ))
    else (
      record numbered {
        waiting =
            s.waiting
            ++ record { id = id; request = request; since_ms = now_ms; manual_position = none }
              ∷ [];
      },
      Admission.queued id,
    )
