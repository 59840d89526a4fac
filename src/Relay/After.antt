-- ===== src/Relay/After.antt =====
-- What is sent to the server comes after what it depends on: crates/bellows-cli/src/relay.rs,
-- `defer`.
use bellows.Prelude.{
  ℕ, suc, ◌<◌, ◌≡◌, ◌≢◌, refl, Bool, true, Option, none, some, List, arith, inl, inr, Option-cases,
  length,
}
use bellows.Prelude.Key.{text_key, nat_key}
use bellows.Prelude.Map.{get, get-insert}
use bellows.Prelude.Totals.{total}
use bellows.Prelude.Text.{Text}
use bellows.Relay.Order.{passed}
use bellows.Relay.Ordered.{first_from_iff}
use bellows.Relay.State.{Deferred, Task, Shared}
use bellows.Relay.State.Task.{deferring, behind_records}
use bellows.Relay.Upload.{Answer}
use bellows.Relay.Tasks.{spawn, Move, Outcome, defer, proceed, give_back, get_on, step, run}
use bellows.Relay.Valid.{Weight, weigh, is_record, IsValid}
use bellows.Relay.Steps.{HasRoom, defer-IsValid}
use bellows.Relay.Runs.{run-IsValid, defer-HasRoom}
use bellows.Relay.Causal.{is_place, Follows, run-Follows}

-- Once a horizon is passed, no task with an earlier sequence runs.
no_upload_before :
    (s : Shared) (b q : ℕ)
    → IsValid s
    → passed b s.blob_order ≡ true
    → q < b
    → total (weigh (Weight.sequence_of q)) s.tasks ≡ 0
unfolding passed
no_upload_before s b q v p lt =
    let part = v.blob_part in
    ground (arith, part.begun q, (first_from_iff b s.blob_order.begun part.sorted).0 p q lt)

no_record_before :
    (s : Shared) (r q : ℕ)
    → IsValid s
    → passed r s.record_order ≡ true
    → q < r
    → total (is_record q) s.tasks ≡ 0
unfolding passed
no_record_before s r q v p lt =
    let part = v.record_part in
    ground (arith, part.begun q, (first_from_iff r s.record_order.begun part.sorted).0 p q lt)

-- What must have passed when a deferred request is sent.
sent_record :
    (h : Text → Text) (b r j : ℕ) (task : Task) (body : Option Text) (there : Bool)
    (answers : List Answer) (s : Shared)
    → is_place Deferred.records b r (some task) ≡ true
    → (get_on h j task body there answers s).1 ≡ Outcome.sent Deferred.records
    → passed b s.blob_order ≡ true
unfolding get_on proceed
sent_record h b r j (deferring Deferred.records c d q) body there answers s p e = ground arith
sent_record h b r j _ body there answers s p e = cc

sent_release :
    (h : Text → Text) (b r j : ℕ) (task : Task) (body : Option Text) (there : Bool)
    (answers : List Answer) (s : Shared)
    → is_place Deferred.release b r (some task) ≡ true
    → (get_on h j task body there answers s).1 ≡ Outcome.sent Deferred.release
    → passed r s.record_order ≡ true
unfolding get_on proceed give_back
sent_release h b r j (deferring Deferred.release c d q) body there answers s p e = ground arith
sent_release h b r j (behind_records d) body there answers s p e = ground arith
sent_release h b r j _ body there answers s p e = cc

defer-Follows :
    (kind : Deferred) (s : Shared)
    → kind ≢ Deferred.use_mark
    → Follows kind s.blob_order.next s.record_order.next s.next_task (defer kind s).0
unfolding defer spawn
defer-Follows Deferred.records s n = record {
  below = omega arith;
  place = ground (
    arith,
    get-insert s.next_task s.next_task
        (deferring Deferred.records s.blob_order.next s.record_order.next
          (some s.record_order.next))
        s.tasks,
  );
}
defer-Follows Deferred.release s n = record {
  below = omega arith;
  place = ground (
    arith,
    get-insert s.next_task s.next_task
        (deferring Deferred.release s.blob_order.next s.record_order.next none) s.tasks,
  );
}
defer-Follows Deferred.use_mark s n = absurd (n refl)

-- A running upload or record has a sequence below the next one.
upload_below :
    (s : Shared) (q : ℕ)
    → IsValid s
    → 0 < total (weigh (Weight.sequence_of q)) s.tasks
    → q < s.blob_order.next
upload_below s q v running = ground (arith, v.blob_part.begun q, v.blob_part.ahead q)

record_below :
    (s : Shared) (q : ℕ) → IsValid s → 0 < total (is_record q) s.tasks → q < s.record_order.next
record_below s q v running = ground (arith, v.record_part.begun q, v.record_part.ahead q)

record-step :
    (h : Text → Text) (b r j : ℕ) (body : Option Text) (there : Bool) (answers : List Answer)
    (s : Shared)
    → Follows Deferred.records b r j s
    → (step h (Move.gets_on j body there answers) s).1 ≡ Outcome.sent Deferred.records
    → passed b s.blob_order ≡ true
unfolding step
record-step h b r j body there answers s f sent' = elim (Option-cases (get j s.tasks)) [
  | inl gone ↦ let e = rw (gone, step) at sent' in absurd (cc)
  | inr (task, e) ↦
      sent_record h b r j task body there answers s (ground (arith, f.place))
        (rw (e, step) at sent')
]

release-step :
    (h : Text → Text) (b r j : ℕ) (body : Option Text) (there : Bool) (answers : List Answer)
    (s : Shared)
    → Follows Deferred.release b r j s
    → (step h (Move.gets_on j body there answers) s).1 ≡ Outcome.sent Deferred.release
    → passed r s.record_order ≡ true
unfolding step
release-step h b r j body there answers s f sent' = elim (Option-cases (get j s.tasks)) [
  | inl gone ↦ let e = rw (gone, step) at sent' in absurd (cc)
  | inr (task, e) ↦
      sent_release h b r j task body there answers s (ground (arith, f.place))
        (rw (e, step) at sent')
]

module _ (h : Text → Text) (s : Shared) (moves : List Move) (body : Option Text) (there : Bool)
    (answers : List Answer) (q : ℕ) (v : IsValid s) (room : HasRoom (suc (length moves)) s) where
  later-IsValid : (kind : Deferred) → IsValid (run h moves (defer kind s).0)
  later-IsValid kind =
      run-IsValid h moves (defer kind s).0 (defer-HasRoom kind (length moves) s room)
        (defer-IsValid s v kind (record { blobs_left = omega arith; records_left = omega arith }))

  -- In a valid relay with sequence numbers left, a record that is accepted while a blob uploads is sent
  -- only when that upload has ended, whatever else happens in between.
  pub record_after_blobs :
      0 < total (weigh (Weight.sequence_of q)) s.tasks
      → (step h
          (Move.gets_on s.next_task body there answers)
          (run h moves (defer Deferred.records s).0)).1
        ≡ Outcome.sent Deferred.records
      → total (weigh (Weight.sequence_of q)) (run h moves (defer Deferred.records s).0).tasks ≡ 0
  record_after_blobs running sent' =
      let t = run h moves (defer Deferred.records s).0 in
      let b = s.blob_order.next in
      let r = s.record_order.next in
      let f =
        run-Follows h Deferred.records b r s.next_task moves (defer Deferred.records s).0
          (defer-Follows Deferred.records s (cc)) in
      no_upload_before t b q (later-IsValid Deferred.records)
        (record-step h b r s.next_task body there answers t f sent') (upload_below s q v running)

  -- In a valid relay with sequence numbers left, a release that is accepted while a record is under way
  -- is sent only when that record has ended, whatever else happens in between.
  pub release_after_records :
      0 < total (is_record q) s.tasks
      → (step h
          (Move.gets_on s.next_task body there answers)
          (run h moves (defer Deferred.release s).0)).1
        ≡ Outcome.sent Deferred.release
      → total (is_record q) (run h moves (defer Deferred.release s).0).tasks ≡ 0
  release_after_records running sent' =
      let t = run h moves (defer Deferred.release s).0 in
      let b = s.blob_order.next in
      let r = s.record_order.next in
      let f =
        run-Follows h Deferred.release b r s.next_task moves (defer Deferred.release s).0
          (defer-Follows Deferred.release s (cc)) in
      no_record_before t r q (later-IsValid Deferred.release)
        (release-step h b r s.next_task body there answers t f sent') (record_below s q v running)
