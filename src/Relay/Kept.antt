-- ===== src/Relay/Kept.antt =====
-- Every move of the relay keeps its invariant: crates/bellows-cli/src/relay.rs.
use bellows.Prelude.{
  ℕ, ◌+◌, ◌-◌, ◌%◌, ◌<◌, ◌≡◌, refl, false, Option, some, arith, inl, inr, Bool-cases,
}
use bellows.Prelude.Key.{text_key, nat_key}
use bellows.Prelude.Map.{Map, get, insert, insert-IsMap, remove-IsMap, get-insert, get-remove}
use bellows.Prelude.Totals.{total}
use bellows.Prelude.Text.{Text}
use bellows.Relay.Order.{Order, u64_mod, begin, finish}
use bellows.Relay.State.{BlobState, Deferred, Task, Shared}
use bellows.Relay.State.BlobState.{pending}
use bellows.Relay.State.Task.{receiving, spooling, uploading, deferring, behind_records, forwarding}
use bellows.Relay.Route.{is_known}
use bellows.Relay.Upload.{Uploaded}
use bellows.Relay.Tasks.{spawn, become, drop, accept, end_upload, state_after}
use bellows.Relay.Valid.{
  Weight, weigh, weigh_upload, is_record, is_pending, BlobPart, IsValid, BlobPart-same,
  RecordPart-same, spawn-sorted, spawn-fresh, become-sorted, become-fresh, drop-sorted, drop-fresh,
  total-spawn, total-become, total-drop,
}

-- A task that no sum counts.
pub record IsLight (t : Task) : Type 0 where
  pub no_upload : (w : Weight) → weigh w t ≡ 0
  pub no_record : (q : ℕ) → is_record q t ≡ 0

module _ (s : Shared) (v : IsValid s) where
  pub spawn-IsValid : (t : Task) → IsLight t → IsValid (spawn t s)
  unfolding spawn
  spawn-IsValid t l = record {
    tasks_sorted = spawn-sorted s v t;
    fresh = spawn-fresh s v t;
    blob_part =
        BlobPart-same (λ w. omega (arith, total-spawn s v (weigh w) t, l.no_upload w)) v.blob_part;
    record_part =
        RecordPart-same (λ q. omega (arith, total-spawn s v (is_record q) t, l.no_record q))
          v.record_part;
  }

  pub become-IsValid :
      (k : ℕ) (t old : Task)
      → get k s.tasks ≡ some old
      → IsLight old
      → IsLight t
      → IsValid (become k t s)
  unfolding become
  become-IsValid k t old e l m = record {
    tasks_sorted = become-sorted s v k t;
    fresh = become-fresh s v k t old e;
    blob_part =
        BlobPart-same
          (λ w. omega (arith, total-become s v (weigh w) k t old e, l.no_upload w, m.no_upload w))
          v.blob_part;
    record_part =
        RecordPart-same
          (λ q.
            omega (arith, total-become s v (is_record q) k t old e, l.no_record q, m.no_record q))
          v.record_part;
  }

  pub drop-IsValid :
      (k : ℕ) (old : Task) → get k s.tasks ≡ some old → IsLight old → IsValid (drop k s)
  unfolding drop
  drop-IsValid k old e l = record {
    tasks_sorted = drop-sorted s v k;
    fresh = drop-fresh s v k;
    blob_part =
        BlobPart-same (λ w. omega (arith, total-drop s v (weigh w) k old e, l.no_upload w))
          v.blob_part;
    record_part =
        RecordPart-same (λ q. omega (arith, total-drop s v (is_record q) k old e, l.no_record q))
          v.record_part;
  }

pub receiving-IsLight : (d : Text) → IsLight (receiving d)
unfolding weigh is_record
receiving-IsLight d = record { no_upload = λ w. refl; no_record = λ q. refl }

pub spooling-IsLight : (d : Text) → IsLight (spooling d)
unfolding weigh is_record
spooling-IsLight d = record { no_upload = λ w. refl; no_record = λ q. refl }

pub forwarding-IsLight : (h : ℕ) → IsLight (forwarding h)
unfolding weigh is_record
forwarding-IsLight h = record { no_upload = λ w. refl; no_record = λ q. refl }

pub behind_records-IsLight : (h : ℕ) → IsLight (behind_records h)
unfolding weigh is_record
behind_records-IsLight h = record { no_upload = λ w. refl; no_record = λ q. refl }

pub use_mark-IsLight : (b r : ℕ) (q : Option ℕ) → IsLight (deferring Deferred.use_mark b r q)
unfolding weigh is_record
use_mark-IsLight b r q = record { no_upload = λ w. refl; no_record = λ q. refl }

pub release-IsLight : (b r : ℕ) (q : Option ℕ) → IsLight (deferring Deferred.release b r q)
unfolding weigh is_record
release-IsLight b r q = record { no_upload = λ w. refl; no_record = λ q. refl }

-- A blob that is accepted: it was not pending, and is now, under a new sequence.
BlobPart-accept :
    {t u : Map ℕ Task} {o : Order} {blobs : Map Text BlobState} {n f : ℕ} (digest : Text) (size : ℕ)
    → size < u64_mod
    → o.next + 1 < u64_mod
    → is_known (get digest blobs) ≡ false
    → ((w : Weight) → total (weigh w) u ≡ weigh_upload w digest size o.next + total (weigh w) t)
    → BlobPart t o blobs n f
    → BlobPart u
        (begin o).0
        (insert digest pending blobs)
        ((n + size) % u64_mod)
        ((f + 1) % u64_mod)
unfolding begin weigh_upload
BlobPart-accept {o} {blobs} digest size small room unknown e p = record {
  sorted = insert-IsMap o.next tt o.begun p.sorted;
  begun = λ q.
      ground (
        arith,
        p.begun q,
        e (Weight.sequence_of q),
        get-insert o.next q tt o.begun,
        p.ahead o.next,
      );
  ahead = λ q h. ground (arith, p.ahead q, get-insert o.next q tt o.begun);
  once = λ d. ground (
    arith,
    p.once d,
    e (Weight.digest_of d),
    get-insert digest d pending blobs,
    unknown,
    p.once digest,
    text_key.eq_of_cmp d digest,
  );
  bytes = omega (arith, p.bytes, e Weight.bytes_of);
  files = omega (arith, p.files, e Weight.file_of);
  small = ground (arith, p.small, e Weight.oversize);
}

not_pending_after : (outcome : Uploaded) → is_pending (some (state_after outcome)) ≡ false
not_pending_after Uploaded.sent = refl
not_pending_after Uploaded.present = refl
not_pending_after (Uploaded.broken e) = refl

-- An upload that ends: its sequence is finished, and its digest is no longer pending.
BlobPart-end :
    {t u : Map ℕ Task} {o : Order} {blobs : Map Text BlobState} {n f : ℕ} (digest : Text)
    (size sequence : ℕ) (outcome : Uploaded)
    → ((w : Weight) → weigh_upload w digest size sequence + total (weigh w) u ≡ total (weigh w) t)
    → BlobPart t o blobs n f
    → BlobPart u
        (finish sequence o)
        (insert digest (state_after outcome) blobs)
        ((n + u64_mod - size) % u64_mod)
        ((f + u64_mod - 1) % u64_mod)
unfolding finish weigh_upload
BlobPart-end {o} {blobs} digest size sequence outcome e p = record {
  sorted = remove-IsMap sequence o.begun p.sorted;
  begun = λ q. ground (arith, p.begun q, e (Weight.sequence_of q), get-remove sequence q o.begun);
  ahead = λ q h. ground (arith, p.ahead q h, get-remove sequence q o.begun);
  once = λ d. ground (
    arith,
    p.once d,
    e (Weight.digest_of d),
    get-insert digest d (state_after outcome) blobs,
    not_pending_after outcome,
  );
  bytes = ground (arith, p.bytes, p.small, e Weight.bytes_of, e Weight.oversize);
  files = omega (arith, p.files, e Weight.file_of);
  small = ground (arith, p.small, e Weight.oversize);
}

module _ (s : Shared) (v : IsValid s) where
  pub accept-IsValid :
      (k : ℕ) (digest : Text) (size : ℕ)
      → size < u64_mod
      → s.blob_order.next + 1 < u64_mod
      → get k s.tasks ≡ some (spooling digest)
      → IsValid (accept k digest size s).0
  unfolding accept weigh is_record
  accept-IsValid k digest size small room e = elim (Bool-cases (is_known (get digest s.blobs))) [
    | inl known ↦
        rw (known, accept) (drop-IsValid s v k (spooling digest) e (spooling-IsLight digest))
    | inr unknown ↦
        let t = uploading digest size s.blob_order.next in
        rw (unknown, accept)
          (record {
            tasks_sorted = become-sorted s v k t;
            fresh = become-fresh s v k t (spooling digest) e;
            blob_part =
                BlobPart-accept digest size small room unknown
                  (λ w. omega (arith, total-become s v (weigh w) k t (spooling digest) e))
                  v.blob_part;
            record_part =
                RecordPart-same
                  (λ q. omega (arith, total-become s v (is_record q) k t (spooling digest) e))
                  v.record_part;
          })
  ]

  pub end_upload-IsValid :
      (k : ℕ) (digest : Text) (size sequence : ℕ) (outcome : Uploaded)
      → get k s.tasks ≡ some (uploading digest size sequence)
      → IsValid (end_upload k digest size sequence outcome s)
  unfolding end_upload drop weigh is_record
  end_upload-IsValid k digest size sequence outcome e = record {
    tasks_sorted = drop-sorted s v k;
    fresh = drop-fresh s v k;
    blob_part =
        BlobPart-end digest size sequence outcome
          (λ w. total-drop s v (weigh w) k (uploading digest size sequence) e) v.blob_part;
    record_part =
        RecordPart-same
          (λ q. omega (arith, total-drop s v (is_record q) k (uploading digest size sequence) e))
          v.record_part;
  }
