-- ===== src/Relay/Runs.antt =====
-- Histories of the relay, in which wrappers' requests and background tasks interleave in any order:
-- crates/bellows-cli/src/relay.rs.
use bellows.Prelude.{
  ℕ, suc, ◌+◌, ◌≤◌, Bool, Option, none, some, List, [], ◌∷◌, arith, inl, inr, Option-cases, length,
}
use bellows.Prelude.Key.{text_key, nat_key}
use bellows.Prelude.Map.{get}
use bellows.Prelude.Text.{Text}
use bellows.Relay.Order.{begin, finish}
use bellows.Relay.State.{Deferred, Task, Shared}
use bellows.Relay.State.Task.{receiving, spooling, uploading, deferring, behind_records, forwarding}
use bellows.Relay.Upload.{Answer}
use bellows.Relay.Tasks.{
  spawn, become, drop, Move, put_blob, enter, accept, land, work, end_upload, defer, proceed,
  end_record, give_back, pass_on, get_on, step, run,
}
use bellows.Relay.Valid.{IsValid}
use bellows.Relay.Steps.{HasRoom, step-IsValid}

-- What a move may do to the sequence numbers.
abbrev Grows : Shared → Shared → Type 0
Grows s t =
    (t.blob_order.next ≤ s.blob_order.next + 1) × (t.record_order.next ≤ s.record_order.next + 1)

get_on-Grows :
    (h : Text → Text) (k : ℕ) (task : Task) (body : Option Text) (there : Bool)
    (answers : List Answer) (s : Shared)
    → Grows s (get_on h k task body there answers s).0
unfolding get_on enter pass_on land accept work end_upload proceed end_record give_back begin finish
    spawn become drop
get_on-Grows h k (receiving digest) body there answers s = ground arith
get_on-Grows h k (spooling digest) none there answers s = ground arith
get_on-Grows h k (spooling digest) (some body) there answers s = ground arith
get_on-Grows h k (uploading digest size sequence) body there answers s = ground arith
get_on-Grows h k (deferring Deferred.records b r none) body there answers s = ground arith
get_on-Grows h k (deferring Deferred.records b r (some q)) body there answers s = ground arith
get_on-Grows h k (deferring Deferred.use_mark b r q) body there answers s = ground arith
get_on-Grows h k (deferring Deferred.release b r q) body there answers s = ground arith
get_on-Grows h k (behind_records r) body there answers s = ground arith
get_on-Grows h k (forwarding b) body there answers s = ground arith

step-Grows : (h : Text → Text) (m : Move) (s : Shared) → Grows s (step h m s).0
unfolding step put_blob defer begin spawn
step-Grows h (Move.puts digest) s = ground arith
step-Grows h (Move.defers Deferred.records) s = ground arith
step-Grows h (Move.defers Deferred.use_mark) s = ground arith
step-Grows h (Move.defers Deferred.release) s = ground arith
step-Grows h Move.waits s = omega arith
step-Grows h (Move.gets_on k body there answers) s = elim (Option-cases (get k s.tasks)) [
  | inl gone ↦ rw (gone, step) (omega arith)
  | inr (task, e) ↦ rw (e, step) (get_on-Grows h k task body there answers s)
]

pub step-HasRoom :
    (h : Text → Text) (m : Move) (n : ℕ) (s : Shared) → HasRoom (suc n) s → HasRoom n (step h m s).0
step-HasRoom h m n s room =
    let g = step-Grows h m s in record { blobs_left = omega arith; records_left = omega arith }

pub run-IsValid :
    (h : Text → Text) (moves : List Move) (s : Shared)
    → HasRoom (length moves) s
    → IsValid s
    → IsValid (run h moves s)
unfolding run
run-IsValid h [] s room v = v
run-IsValid h (m ∷ moves) s room v =
    run-IsValid h moves (step h m s).0 (step-HasRoom h m (length moves) s (omega arith))
      (step-IsValid s v h m (omega arith))

pub defer-HasRoom :
    (kind : Deferred) (n : ℕ) (s : Shared) → HasRoom (suc n) s → HasRoom n (defer kind s).0
unfolding step
defer-HasRoom kind n s room = step-HasRoom (λ t. t) (Move.defers kind) n s room
