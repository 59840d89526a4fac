-- ===== src/Relay/Causal.antt =====
-- What is sent to the server comes after what it depends on: crates/bellows-cli/src/relay.rs,
-- `defer`.
use bellows.Prelude.{
  ℕ, ◌%◌, ◌<◌, ◌≡◌, ◌≢◌, Bool, true, false, Option, none, some, List, [], ◌∷◌, ◌==◌, arith, inl,
  inr, Option-cases, length,
}
use native.Mathlib.Decide.{ℕ_discrete}
use bellows.Prelude.Key.{text_key, nat_key}
use bellows.Prelude.Map.{get, get-insert, get-remove}
use bellows.Prelude.Text.{Text}
use bellows.Relay.Order.{u64_mod, begin, finish}
use bellows.Relay.State.{Deferred, Task, Shared}
use bellows.Relay.State.Task.{receiving, spooling, uploading, deferring, behind_records, forwarding}
use bellows.Relay.Upload.{Answer}
use bellows.Relay.Tasks.{
  spawn, become, drop, Move, put_blob, enter, accept, land, work, end_upload, defer, proceed,
  end_record, give_back, pass_on, get_on, step, run,
}

-- A task that gets on leaves the others alone.
get_on-other :
    (h : Text → Text) (k j : ℕ) (task : Task) (body : Option Text) (there : Bool)
    (answers : List Answer) (s : Shared)
    → k ≢ j
    → let t = (get_on h k task body there answers s).0 in
      (get j t.tasks ≡ get j s.tasks) × (t.next_task ≡ s.next_task)
unfolding get_on enter pass_on land accept work end_upload proceed end_record give_back begin finish
    become drop
get_on-other h k j (receiving digest) body there answers s n =
    ground (arith, get-insert k j (spooling digest) s.tasks)
get_on-other h k j (spooling digest) none there answers s n = ground (arith, get-remove k j s.tasks)
get_on-other h k j (spooling digest) (some body) there answers s n = ground (
  arith,
  get-remove k j s.tasks,
  get-insert k j (uploading digest (length body % u64_mod) s.blob_order.next) s.tasks,
)
get_on-other h k j (uploading digest size sequence) body there answers s n =
    ground (arith, get-remove k j s.tasks)
get_on-other h k j (deferring Deferred.records b r q) body there answers s n =
    ground (arith, get-remove k j s.tasks)
get_on-other h k j (deferring Deferred.use_mark b r q) body there answers s n =
    ground (arith, get-remove k j s.tasks)
get_on-other h k j (deferring Deferred.release b r q) body there answers s n =
    ground (arith, get-insert k j (behind_records r) s.tasks)
get_on-other h k j (behind_records r) body there answers s n =
    ground (arith, get-remove k j s.tasks)
get_on-other h k j (forwarding b) body there answers s n = ground (arith, get-remove k j s.tasks)

-- Where a deferred request is, from its acceptance with its horizons on.
abbrev pub is_place : Deferred → ℕ → ℕ → Option Task → Bool
is_place kind b r none = true
is_place Deferred.records b r (some (deferring Deferred.records c d q)) = b == c
is_place Deferred.release b r (some (deferring Deferred.release c d q)) = r == d
is_place Deferred.release b r (some (behind_records d)) = r == d
is_place kind b r (some _) = false

pub record Follows (kind : Deferred) (b r j : ℕ) (s : Shared) : Type 0 where
  pub below : j < s.next_task
  pub place : is_place kind b r (get j s.tasks) ≡ true

get_on_self :
    (h : Text → Text) (kind : Deferred) (b r j : ℕ) (task : Task) (body : Option Text)
    (there : Bool) (answers : List Answer) (s : Shared)
    → get j s.tasks ≡ some task
    → is_place kind b r (some task) ≡ true
    → let t = (get_on h j task body there answers s).0 in
      (is_place kind b r (get j t.tasks) ≡ true) × (t.next_task ≡ s.next_task)
unfolding get_on proceed give_back end_record become drop
get_on_self h Deferred.records b r j (deferring Deferred.records c d q) body there answers s e p =
    ground (arith, get-remove j j s.tasks)
get_on_self h Deferred.release b r j (deferring Deferred.release c d q) body there answers s e p =
    ground (arith, get-insert j j (behind_records d) s.tasks)
get_on_self h Deferred.release b r j (behind_records d) body there answers s e p =
    ground (arith, get-remove j j s.tasks)
get_on_self h kind b r j _ body there answers s e p = cc

step-Follows :
    (h : Text → Text) (kind : Deferred) (b r j : ℕ) (m : Move) (s : Shared)
    → Follows kind b r j s
    → Follows kind b r j (step h m s).0
unfolding step put_blob defer begin spawn
step-Follows h kind b r j (Move.puts digest) s f =
    let new = get-insert s.next_task j (receiving digest) s.tasks in
    record { below = ground arith; place = ground (arith, new) }
step-Follows h kind b r j (Move.defers Deferred.records) s f =
    let t =
      deferring Deferred.records s.blob_order.next s.record_order.next (some s.record_order.next) in
    record { below = omega arith; place = ground (arith, get-insert s.next_task j t s.tasks) }
step-Follows h kind b r j (Move.defers Deferred.use_mark) s f =
    let t = deferring Deferred.use_mark s.blob_order.next s.record_order.next none in
    record { below = omega arith; place = ground (arith, get-insert s.next_task j t s.tasks) }
step-Follows h kind b r j (Move.defers Deferred.release) s f =
    let t = deferring Deferred.release s.blob_order.next s.record_order.next none in
    record { below = omega arith; place = ground (arith, get-insert s.next_task j t s.tasks) }
step-Follows h kind b r j Move.waits s f =
    let new = get-insert s.next_task j (forwarding s.blob_order.next) s.tasks in
    record { below = omega arith; place = ground (arith, new) }
step-Follows h kind b r j (Move.gets_on k body there answers) s f =
    elim (Option-cases (get k s.tasks)) [
      | inl gone ↦ rw (gone, step) f
      | inr (task, e) ↦ elim (ℕ_discrete k j) [
        | yes same' ↦
            let e' : get j s.tasks ≡ some task = rw (← same') e in
            let (p, n) =
              get_on_self h kind b r j task body there answers s e' (ground (arith, f.place)) in
            rw (e, step) (rw same' (record { below = omega (arith, n, f.below); place = p }))
        | no other ↦
            let (p, n) = get_on-other h k j task body there answers s other in
            rw (e, step)
              (record { below = omega (arith, n, f.below); place = ground (arith, p, f.place) })
      ]
    ]

pub run-Follows :
    (h : Text → Text) (kind : Deferred) (b r j : ℕ) (moves : List Move) (s : Shared)
    → Follows kind b r j s
    → Follows kind b r j (run h moves s)
unfolding run
run-Follows h kind b r j [] s f = f
run-Follows h kind b r j (m ∷ moves) s f =
    run-Follows h kind b r j moves (step h m s).0 (step-Follows h kind b r j m s f)
