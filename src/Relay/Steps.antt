-- ===== src/Relay/Steps.antt =====
-- The relay's invariant over whole histories: crates/bellows-cli/src/relay.rs.
use bellows.Prelude.{
  ℕ, ◌+◌, ◌%◌, ◌<◌, ◌≡◌, Bool, true, false, Option, none, some, List, ◌==◌, leb, ltb, bit, arith,
  inl, inr, Bool-cases, Option-cases, length, ◌&&◌, if◌then◌else◌,
}
use bellows.Prelude.Key.{text_key, nat_key}
use bellows.Prelude.Map.{Map, get, insert-IsMap, remove-IsMap, get-insert, get-remove}
use bellows.Prelude.Totals.{total}
use bellows.Prelude.Text.{Text, text_eq}
use bellows.Relay.Order.{Order, u64_mod, begin, finish, passed}
use bellows.Relay.State.{Deferred, Task, Shared}
use bellows.Relay.State.Task.{receiving, spooling, uploading, deferring, behind_records, forwarding}
use bellows.Relay.Upload.{Answer, upload, send_loop}
use bellows.Relay.Tasks.{
  spawn, drop, Move, Outcome, put_blob, enter, land, work, defer, proceed, end_record, give_back,
  pass_on, get_on, step,
}
use bellows.Relay.Valid.{
  weigh, is_record, RecordPart, IsValid, BlobPart-same, RecordPart-same, spawn-sorted, spawn-fresh,
  drop-sorted, drop-fresh, total-spawn, total-drop,
}
use bellows.Relay.Kept.{
  spawn-IsValid, become-IsValid, drop-IsValid, accept-IsValid, end_upload-IsValid,
  receiving-IsLight, spooling-IsLight, forwarding-IsLight, behind_records-IsLight, use_mark-IsLight,
  release-IsLight,
}

RecordPart-begin :
    {t u : Map ℕ Task} {o : Order}
    → o.next + 1 < u64_mod
    → ((q : ℕ) → total (is_record q) u ≡ bit (q == o.next) + total (is_record q) t)
    → RecordPart t o
    → RecordPart u (begin o).0
unfolding begin
RecordPart-begin {o} room e p = record {
  sorted = insert-IsMap o.next tt o.begun p.sorted;
  begun = λ q. ground (arith, p.begun q, e q, get-insert o.next q tt o.begun, p.ahead o.next);
  ahead = λ q h. ground (arith, p.ahead q, get-insert o.next q tt o.begun);
}

RecordPart-end :
    {t u : Map ℕ Task} {o : Order} (sequence : ℕ)
    → ((q : ℕ) → bit (q == sequence) + total (is_record q) u ≡ total (is_record q) t)
    → RecordPart t o
    → RecordPart u (finish sequence o)
unfolding finish
RecordPart-end {o} sequence e p = record {
  sorted = remove-IsMap sequence o.begun p.sorted;
  begun = λ q. ground (arith, p.begun q, e q, get-remove sequence q o.begun);
  ahead = λ q h. ground (arith, p.ahead q h, get-remove sequence q o.begun);
}

-- How many more blobs and records can be begun before a sequence number wraps.
pub record HasRoom (n : ℕ) (s : Shared) : Type 0 where
  pub blobs_left : s.blob_order.next + n < u64_mod
  pub records_left : s.record_order.next + n < u64_mod

-- A move that waits, or else is made.
kept_if :
    (b : Bool) (x y : Shared × Outcome) → IsValid x.0 → IsValid y.0 → IsValid (if b then x else y).0
kept_if true x y v w = v
kept_if false x y v w = w

-- A deferred request that is sent once there is an outcome.
abbrev once_sent : Option (Option ℕ) → Shared → (Option ℕ → Shared × Outcome) → Shared × Outcome
once_sent answer s f = elim answer [ none ↦ (s, Outcome.idle) | some outcome ↦ f outcome ]

kept_once_sent :
    (answer : Option (Option ℕ)) (s : Shared) (f : Option ℕ → Shared × Outcome)
    → IsValid s
    → ((outcome : Option ℕ) → IsValid (f outcome).0)
    → IsValid (once_sent answer s f).0
kept_once_sent none s f v w = v
kept_once_sent (some outcome) s f v w = w outcome

module _ (s : Shared) (v : IsValid s) where
  pub defer-IsValid : (kind : Deferred) → HasRoom 1 s → IsValid (defer kind s).0
  unfolding defer weigh is_record spawn
  defer-IsValid Deferred.records room =
      let t =
        deferring Deferred.records s.blob_order.next s.record_order.next
          (some s.record_order.next) in
      record {
        tasks_sorted = spawn-sorted s v t;
        fresh = spawn-fresh s v t;
        blob_part = BlobPart-same (λ w. omega (arith, total-spawn s v (weigh w) t)) v.blob_part;
        record_part =
            RecordPart-begin room.records_left (λ q. total-spawn s v (is_record q) t) v.record_part;
      }
  defer-IsValid Deferred.use_mark room =
      spawn-IsValid s v _ (use_mark-IsLight s.blob_order.next s.record_order.next none)
  defer-IsValid Deferred.release room =
      spawn-IsValid s v _ (release-IsLight s.blob_order.next s.record_order.next none)

  end_record-IsValid :
      (k b r : ℕ) (sequence outcome : Option ℕ)
      → get k s.tasks ≡ some (deferring Deferred.records b r sequence)
      → IsValid (end_record k sequence outcome s)
  unfolding end_record weigh is_record drop
  end_record-IsValid k b r none outcome e =
      let t = deferring Deferred.records b r none in
      record {
        tasks_sorted = drop-sorted s v k;
        fresh = drop-fresh s v k;
        blob_part = BlobPart-same (λ w. omega (arith, total-drop s v (weigh w) k t e)) v.blob_part;
        record_part =
            RecordPart-same (λ q. omega (arith, total-drop s v (is_record q) k t e)) v.record_part;
      }
  end_record-IsValid k b r (some sequence) outcome e =
      let t = deferring Deferred.records b r (some sequence) in
      record {
        tasks_sorted = drop-sorted s v k;
        fresh = drop-fresh s v k;
        blob_part = BlobPart-same (λ w. omega (arith, total-drop s v (weigh w) k t e)) v.blob_part;
        record_part =
            RecordPart-end sequence (λ q. total-drop s v (is_record q) k t e) v.record_part;
      }

  put_blob-IsValid : (digest : Text) → IsValid (put_blob digest s).0
  unfolding put_blob
  put_blob-IsValid digest =
      ground (arith, spawn-IsValid s v (receiving digest) (receiving-IsLight digest))

  land-IsValid :
      (digest_bytes : Text → Text) (k : ℕ) (digest : Text) (body : Option Text)
      → HasRoom 1 s
      → get k s.tasks ≡ some (spooling digest)
      → IsValid (land digest_bytes k digest body s).0
  unfolding land
  land-IsValid digest_bytes k digest none room e =
      drop-IsValid s v k (spooling digest) e (spooling-IsLight digest)
  land-IsValid digest_bytes k digest (some body) room e =
      elim (Bool-cases (text_eq (digest_bytes body) digest)) [
        | inl same' ↦
            rw (same', land)
              (accept-IsValid s v k digest (length body % u64_mod) (omega arith) room.blobs_left e)
        | inr differs ↦
            rw (differs, land) (drop-IsValid s v k (spooling digest) e (spooling-IsLight digest))
      ]

  work-IsValid :
      (k : ℕ) (digest : Text) (size sequence : ℕ) (there : Bool) (answers : List Answer)
      → get k s.tasks ≡ some (uploading digest size sequence)
      → IsValid (work k digest size sequence there answers s).0
  unfolding work
  work-IsValid k digest size sequence there answers e =
      elim (Option-cases (upload size there answers)) [
        | inl waiting ↦ rw (waiting, work) v
        | inr (outcome, ended) ↦
            rw (ended, work) (end_upload-IsValid s v k digest size sequence outcome e)
      ]

  proceed-IsValid :
      (k : ℕ) (kind : Deferred) (b r : ℕ) (sequence : Option ℕ) (answers : List Answer)
      → get k s.tasks ≡ some (deferring kind b r sequence)
      → IsValid (proceed k kind b r sequence answers s).0
  unfolding proceed
  proceed-IsValid k Deferred.records b r sequence answers e =
      kept_if (passed b s.blob_order) _ _
        (kept_once_sent (send_loop 0 answers) s
          (λ outcome. (end_record k sequence outcome s, Outcome.sent Deferred.records)) v
          (λ outcome. end_record-IsValid k b r sequence outcome e))
        v
  proceed-IsValid k Deferred.use_mark b r sequence answers e =
      kept_once_sent (send_loop 0 answers) s (λ outcome. (drop k s, Outcome.sent Deferred.use_mark))
        v (λ outcome. drop-IsValid s v k _ e (use_mark-IsLight b r sequence))
  proceed-IsValid k Deferred.release b r sequence answers e =
      kept_if (passed b s.blob_order) _ _
        (become-IsValid s v k (behind_records r) _ e (release-IsLight b r sequence)
          (behind_records-IsLight r))
        v

  give_back-IsValid :
      (k r : ℕ) (answers : List Answer)
      → get k s.tasks ≡ some (behind_records r)
      → IsValid (give_back k r answers s).0
  unfolding give_back
  give_back-IsValid k r answers e =
      kept_if (passed r s.record_order) _ _
        (kept_once_sent (send_loop 0 answers) s
          (λ outcome. (drop k s, Outcome.sent Deferred.release)) v
          (λ outcome. drop-IsValid s v k _ e (behind_records-IsLight r)))
        v

  get_on-IsValid :
      (digest_bytes : Text → Text) (k : ℕ) (task : Task) (body : Option Text) (there : Bool)
      (answers : List Answer)
      → HasRoom 1 s
      → get k s.tasks ≡ some task
      → IsValid (get_on digest_bytes k task body there answers s).0
  unfolding get_on enter pass_on
  get_on-IsValid h k (receiving digest) body there answers room e =
      kept_if (leb s.spool_limit s.spooled && ltb 0 s.spool_files) _ _ v (
        become-IsValid s v k (spooling digest) _ e (receiving-IsLight digest)
          (spooling-IsLight digest))
  get_on-IsValid h k (spooling digest) body there answers room e =
      land-IsValid h k digest body room e
  get_on-IsValid h k (uploading digest size sequence) body there answers room e =
      work-IsValid k digest size sequence there answers e
  get_on-IsValid h k (deferring kind b r sequence) body there answers room e =
      proceed-IsValid k kind b r sequence answers e
  get_on-IsValid h k (behind_records r) body there answers room e = give_back-IsValid k r answers e
  get_on-IsValid h k (forwarding b) body there answers room e =
      kept_if (passed b s.blob_order) _ _ (drop-IsValid s v k _ e (forwarding-IsLight b)) v

  pub step-IsValid :
      (digest_bytes : Text → Text) (m : Move) → HasRoom 1 s → IsValid (step digest_bytes m s).0
  unfolding step
  step-IsValid h (Move.puts digest) room = put_blob-IsValid digest
  step-IsValid h (Move.defers kind) room = defer-IsValid kind room
  step-IsValid h Move.waits room =
      spawn-IsValid s v (forwarding s.blob_order.next) (forwarding-IsLight s.blob_order.next)
  step-IsValid h (Move.gets_on k body there answers) room = elim (Option-cases (get k s.tasks)) [
    | inl gone ↦ rw (gone, step) v
    | inr (task, e) ↦ rw (e, step) (get_on-IsValid h k task body there answers room e)
  ]
