-- ===== src/Relay/Finish.antt =====
-- The relay can always finish what it has accepted: crates/bellows-cli/src/relay.rs, `finish` and the
-- waits of `defer` and `put_blob`.
use bellows.Prelude.{
  ℕ, zero, suc, ◌+◌, ◌^◌, ◌<◌, ◌≤◌, ◌≡◌, refl, false, List, [], ◌∷◌, arith, inl, inr, length,
}
use bellows.Prelude.Key.{text_key, nat_key}
use bellows.Prelude.Map.{get}
use bellows.Prelude.Totals.{total}
use bellows.Prelude.Text.{Text}
use bellows.Relay.Order.{new}
use bellows.Relay.State.{Task, Shared, start}
use bellows.Relay.Tasks.{Move, step, run}
use bellows.Relay.Valid.{Weight, weigh, is_pending, IsValid, start-IsValid}
use bellows.Relay.Steps.{HasRoom, step-IsValid}
use bellows.Relay.Runs.{run-IsValid, step-HasRoom}
use bellows.Relay.Drained.{Nears, effort, served, some_move}

-- Everything that was accepted has been dealt with: no task runs, the spool is empty, and no blob is
-- still to be uploaded.
pub record IsDrained (s : Shared) : Type 0 where
  pub no_task : s.tasks ≡ []
  pub no_bytes : s.spooled ≡ 0
  pub no_files : s.spool_files ≡ 0
  pub no_pending : (d : Text) → is_pending (get d s.blobs) ≡ false

no_task-IsDrained : (s : Shared) → IsValid s → s.tasks ≡ [] → IsDrained s
no_task-IsDrained s v e =
    let part = v.blob_part in
    let nothing = λ (w : Weight). zero_total (weigh w) in
    record {
      no_task = e;
      no_bytes = omega (arith, part.bytes, nothing Weight.bytes_of);
      no_files = omega (arith, part.files, nothing Weight.file_of);
      no_pending = λ d. ground (arith, part.once d, nothing (Weight.digest_of d));
    }
  where
    zero_total : (w : Task → ℕ) → total w s.tasks ≡ 0
    zero_total w = rw e refl

-- One served task, and then the rest.
serve_one :
    (h : Text → Text) (s : Shared) (k : ℕ)
    → (moves : List Move) × IsDrained (run h moves (step h (served k) s).0)
    → (moves : List Move) × IsDrained (run h moves s)
unfolding run
serve_one h s k (moves, d) = (served k ∷ moves, d)

Nears-HasRoom : (s t : Shared) → Nears s t → HasRoom 1 s → HasRoom 1 t
Nears-HasRoom s t n room = record {
  blobs_left = omega (arith, n.blobs_same, room.blobs_left);
  records_left = omega (arith, n.records_same, room.records_left);
}

drains_within :
    (h : Text → Text) (n : ℕ) (s : Shared)
    → total effort s.tasks ≤ n
    → HasRoom 1 s
    → IsValid s
    → (moves : List Move) × IsDrained (run h moves s)
unfolding run
drains_within h zero s few room v = elim (some_move h s v) [
  | inl e ↦ ([], no_task-IsDrained s v e)
  | inr (k, nears) ↦ absurd (omega (arith, few, nears.less))
]
drains_within h (suc n) s few room v = elim (some_move h s v) [
  | inl e ↦ ([], no_task-IsDrained s v e)
  | inr (k, nears) ↦
      let t = (step h (served k) s).0 in
      serve_one h s k (
        drains_within h n t (omega (arith, few, nears.less)) (Nears-HasRoom s t nears room)
          (step-IsValid s v h (served k) room))
]

run-HasRoom :
    (h : Text → Text) (moves : List Move) (n : ℕ) (s : Shared)
    → HasRoom (length moves + n) s
    → HasRoom n (run h moves s)
unfolding run
run-HasRoom h [] n s room = record { blobs_left = omega arith; records_left = omega arith }
run-HasRoom h (m ∷ moves) n s room = run-HasRoom h moves n (step h m s).0 (
    step-HasRoom h m (length moves + n) s
      (record { blobs_left = omega arith; records_left = omega arith }))

start-HasRoom : (token : Text) (limit n : ℕ) → n < 2 ^ 64 → HasRoom n (start token limit)
unfolding start new
start-HasRoom token limit n few = record { blobs_left = omega arith; records_left = omega arith }

-- Whatever a relay has gone through, in fewer moves than there are sequence numbers: the numbers of
-- blobs and records that are begun and not finished are those of its running tasks, no two tasks
-- upload the same blob, and the counters of the spool are the bytes and files of the tasks that upload.
pub run-start-IsValid :
    (h : Text → Text) (token : Text) (limit : ℕ) (moves : List Move)
    → length moves < 2 ^ 64
    → IsValid (run h moves (start token limit))
run-start-IsValid h token limit moves few =
    run-IsValid h moves (start token limit) (start-HasRoom token limit (length moves) few)
      (start-IsValid token limit)

-- No deadlock: whatever a relay has gone through, in fewer moves than there are sequence numbers less
-- one, there are moves after which every task has ended, the spool is empty and no blob is pending.
pub drains :
    (h : Text → Text) (token : Text) (limit : ℕ) (past : List Move)
    → length past + 1 < 2 ^ 64
    → (moves : List Move) × IsDrained (run h moves (run h past (start token limit)))
drains h token limit past few =
    let s = run h past (start token limit) in
    drains_within h (total effort s.tasks) s (omega arith)
      (run-HasRoom h past 1 (start token limit) (start-HasRoom token limit (length past + 1) few))
      (run-start-IsValid h token limit past (omega arith))
