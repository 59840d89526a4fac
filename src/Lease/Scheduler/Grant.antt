-- ===== src/Lease/Scheduler/Grant.antt =====
-- Granting and claiming: crates/bellows-lease/src/scheduler.rs, `grant`, `claim`, `token`.
use bellows.Prelude.{
  ℕ, Bool, true, false, ◌||◌, Option, none, some, List, [], ◌∷◌, ltb, ◌==◌, if◌then◌else◌, find,
  option_map,
}
use bellows.Prelude.Key.{text_key, nat_key}
use bellows.Prelude.Map.{get, insert, remove, contains_key}
use bellows.Prelude.Text.{Text, contains}
use bellows.Lease.Token.{token_text, next_seed}
use bellows.Lease.State.{Scheduler, Waiting, Holder, Grant, jobs}
use bellows.Lease.Scheduler.Order.{order}

-- The label that the machine is reserved for, while the reservation lasts.
unfoldable pub reservation : Scheduler → Text → ℕ → Option Text
reservation s machine now_ms = elim (get machine s.reserved) [
  | none ↦ none
  | some (label, until) ↦ if ltb now_ms until then some label else none
]

unfoldable pub is_eligible : Option Text → Waiting → Bool
is_eligible none w = true
is_eligible (some label) w = contains label w.request.label

-- `position` of the id and `Vec::remove` there. `none` is the `expect` that fails.
unfoldable pub take_waiting : ℕ → List Waiting → Option (Waiting × List Waiting)
take_waiting id [] = none
take_waiting id (w ∷ ws) =
    if w.id == id then some (w, ws) else option_map (λ r. (r.0, w ∷ r.1)) (take_waiting id ws)

-- `token` advances the seed, for sessions only.
unfoldable pub session_seed : Bool → ℕ → ℕ
session_seed session seed = if session then next_seed seed else seed

unfoldable pub session_token : Bool → ℕ → ℕ → Option Text
session_token session id seed = if session then some (token_text id (next_seed seed)) else none

unfoldable pub new_holder : Scheduler → Text → ℕ → Waiting → Holder
unfolding session_token
new_holder s machine now_ms w = record {
  id = w.id;
  machine = machine;
  label = w.request.label;
  since_ms = now_ms;
  estimate_secs = w.request.estimate_secs;
  session = w.request.session;
  token = session_token w.request.session w.id s.token_seed;
  preempting = false;
  overrun_logged = false;
}

unfoldable pub new_grant : Scheduler → Text → ℕ → Waiting → Grant
unfolding session_token
new_grant s machine now_ms w = record {
  id = w.id;
  machine = machine;
  jobs = jobs s machine now_ms;
  token = session_token w.request.session w.id s.token_seed;
  nested = false;
}

unfoldable pub grant_to : Scheduler → Text → ℕ → Waiting → List Waiting → Scheduler × Grant
unfolding session_seed new_holder new_grant
grant_to s machine now_ms w rest =
    let g = new_grant s machine now_ms w in
    (
      record s {
        waiting = rest;
        token_seed = session_seed w.request.session s.token_seed;
        holders = insert machine (new_holder s machine now_ms w) s.holders;
        unclaimed = insert w.id g s.unclaimed;
      },
      g,
    )

-- The request that a free machine goes to.
unfoldable pub next_request : Scheduler → Text → ℕ → Option Waiting
next_request s machine now_ms = find (is_eligible (reservation s machine now_ms)) (order s machine)

-- The requests taken out by the id of the chosen one; a failed `expect` is `none`.
unfoldable pub chosen : Scheduler → Text → ℕ → Option (Waiting × List Waiting)
chosen s machine now_ms = elim (next_request s machine now_ms) [
  | none ↦ none
  | some w ↦ take_waiting w.id s.waiting
]

unfoldable pub is_closed : Scheduler → Text → Bool
is_closed s machine = contains_key machine s.holders || contains_key machine s.paused

-- One turn of the loop over the machines.
unfoldable pub grant_machine : Scheduler → Text → ℕ → Scheduler × Option Grant
grant_machine s machine now_ms =
    if is_closed s machine then (s, none) else elim (chosen s machine now_ms) [
      | none ↦ (s, none)
      | some (w, rest) ↦ let (s', g) = grant_to s machine now_ms w rest in (s', some g)
    ]

abbrev pub push_option {ℓ} : {A : Type ℓ} → Option A → List A → List A
push_option none xs = xs
push_option (some x) xs = x ∷ xs

unfoldable pub grant_machines : Scheduler → List Text → ℕ → Scheduler × List Grant
unfolding grant_machine
grant_machines s [] now_ms = (s, [])
grant_machines s (machine ∷ machines) now_ms =
    let (s₁, g) = grant_machine s machine now_ms in
    let (s₂, gs) = grant_machines s₁ machines now_ms in (s₂, push_option g gs)

unfoldable pub grant : Scheduler → ℕ → Scheduler × List Grant
unfolding grant_machines
grant s now_ms = grant_machines s s.config.machines now_ms

unfoldable pub claim : Scheduler → ℕ → Scheduler × Option Grant
claim s id = (record s { unclaimed = remove id s.unclaimed }, get id s.unclaimed)
