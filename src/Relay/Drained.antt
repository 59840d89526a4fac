-- ===== src/Relay/Drained.antt =====
-- The relay can always finish: crates/bellows-cli/src/relay.rs, `finish` and the waits of `defer` and
-- `put_blob`.
use bellows.Prelude.{
  ℕ, ◌<◌, ◌≡◌, refl, Bool, true, false, Option, none, some, [], ◌∷◌, arith, inl, inr, ◌⊎◌,
  Bool-cases,
}
use bellows.Prelude.Key.{text_key, nat_key, same_refl}
use bellows.Prelude.Map.{Map, IsMap, Above-IsMap, get, get-Above}
use bellows.Prelude.Totals.{total}
use bellows.Prelude.Text.{Text}
use bellows.Relay.Order.{passed, finish}
use bellows.Relay.Ordered.{first_from_iff}
use bellows.Relay.State.{Deferred, Task, Shared}
use bellows.Relay.State.Task.{receiving, spooling, uploading, deferring, behind_records, forwarding}
use bellows.Relay.Upload.{Answer, upload, upload_loop, send_loop}
use bellows.Relay.Tasks.{
  become, drop, Move, enter, land, work, end_upload, proceed, end_record, give_back, pass_on,
  get_on, step,
}
use bellows.Relay.Valid.{Weight, weigh, is_record, IsValid, total-drop, total-become}

-- A first task that passes a test, or a sum of zero for every weight that only such tasks have.
pick :
    (p : Task → Bool) (m : Map ℕ Task)
    → IsMap m
    → ((k : ℕ) × (t : Task) × (get k m ≡ some t) × (p t ≡ true))
      ⊎ ((w : Task → ℕ) → ((t : Task) → p t ≡ false → w t ≡ 0) → total w m ≡ 0)
unfolding get
pick p [] s = inr (λ w z. refl)
pick p ((k, t) ∷ m) s = elim (Bool-cases (p t)) [
  | inl h ↦ inl (k, t, rw (same_refl k), h)
  | inr h ↦ elim (pick p m (Above-IsMap k m s)) [
    | inl (j, u, e, q) ↦ inl (j, u, ground (arith, e, get-Above k m s), q)
    | inr z ↦ inr (λ w g. omega (arith, g t h, z w g))
  ]
]

-- How many moves a task needs once nothing is before it.
pub effort : Task → ℕ
effort (receiving d) = 2
effort (spooling d) = 1
effort (uploading d size q) = 1
effort (deferring Deferred.release b r q) = 2
effort (deferring _ b r q) = 1
effort (behind_records r) = 1
effort (forwarding b) = 1

abbrev is_uploading : Task → Bool
is_uploading (uploading d size q) = true
is_uploading _ = false

abbrev is_recording : Task → Bool
is_recording (deferring Deferred.records b r q) = true
is_recording _ = false

-- The server takes everything; a body that was to be spooled breaks off.
abbrev pub served : ℕ → Move
served k = Move.gets_on k none false (Answer.status 200 ∷ [])

no_weight : (w : Weight) (t : Task) → is_uploading t ≡ false → weigh w t ≡ 0
unfolding weigh
no_weight w t h = ground arith

all_passed_blobs :
    (s : Shared)
    → IsValid s
    → ((w : Task → ℕ) → ((t : Task) → is_uploading t ≡ false → w t ≡ 0) → total w s.tasks ≡ 0)
    → (b : ℕ) → passed b s.blob_order ≡ true
unfolding passed
all_passed_blobs s v z b =
    let part = v.blob_part in
    (first_from_iff b s.blob_order.begun part.sorted).1 (λ q lt.
      ground
        (arith, part.begun q, z (weigh (Weight.sequence_of q)) (no_weight (Weight.sequence_of q))))

all_passed_records :
    (s : Shared)
    → IsValid s
    → ((w : Task → ℕ) → ((t : Task) → is_recording t ≡ false → w t ≡ 0) → total w s.tasks ≡ 0)
    → (r : ℕ) → passed r s.record_order ≡ true
unfolding passed is_record
all_passed_records s v z r =
    let part = v.record_part in
    (first_from_iff r s.record_order.begun part.sorted).1
      (λ q lt. ground (arith, part.begun q, z (is_record q) (weightless q)))
  where
    weightless : (q : ℕ) (t : Task) → is_recording t ≡ false → is_record q t ≡ 0
    weightless q t h = ground arith

-- A move that brings the end nearer and begins nothing.
pub record Nears (s t : Shared) : Type 0 where
  pub less : total effort t.tasks < total effort s.tasks
  pub blobs_same : t.blob_order.next ≡ s.blob_order.next
  pub records_same : t.record_order.next ≡ s.record_order.next

module _ (h : Text → Text) (s : Shared) (v : IsValid s) (k : ℕ) where
  Nears-upload :
      (d : Text) (size q : ℕ)
      → get k s.tasks ≡ some (uploading d size q)
      → Nears s (work k d size q false (Answer.status 200 ∷ []) s).0
  unfolding work upload upload_loop end_upload drop finish effort
  Nears-upload d size q e =
      let t = total-drop s v effort k (uploading d size q) e in
      record { less = ground (arith, t); blobs_same = ground arith; records_same = ground arith }

  Nears-record :
      (b r : ℕ) (q : Option ℕ)
      → passed b s.blob_order ≡ true
      → get k s.tasks ≡ some (deferring Deferred.records b r q)
      → Nears s (proceed k Deferred.records b r q (Answer.status 200 ∷ []) s).0
  unfolding proceed send_loop end_record drop finish effort
  Nears-record b r none p e =
      let t = total-drop s v effort k (deferring Deferred.records b r none) e in
      rw (p, proceed) (record { less = omega (arith, t); blobs_same = refl; records_same = refl })
  Nears-record b r (some q) p e =
      let t = total-drop s v effort k (deferring Deferred.records b r (some q)) e in
      rw (p, proceed) (record { less = omega (arith, t); blobs_same = refl; records_same = refl })

  Nears-other :
      (task : Task)
      → get k s.tasks ≡ some task
      → is_uploading task ≡ false
      → is_recording task ≡ false
      → s.spool_files ≡ 0
      → ((b : ℕ) → passed b s.blob_order ≡ true)
      → ((r : ℕ) → passed r s.record_order ≡ true)
      → Nears s (get_on h k task none false (Answer.status 200 ∷ []) s).0
  unfolding get_on enter land proceed give_back pass_on send_loop drop become effort
  Nears-other (receiving d) e nu nr empty pb pr = record {
    less = ground (arith, total-become s v effort k (spooling d) (receiving d) e);
    blobs_same = ground arith;
    records_same = ground arith;
  }
  Nears-other (spooling d) e nu nr empty pb pr = record {
    less = omega (arith, total-drop s v effort k (spooling d) e);
    blobs_same = refl;
    records_same = refl;
  }
  Nears-other (uploading d size q) e nu nr empty pb pr = cc
  Nears-other (deferring Deferred.records b r q) e nu nr empty pb pr = cc
  Nears-other (deferring Deferred.use_mark b r q) e nu nr empty pb pr = record {
    less = omega (arith, total-drop s v effort k (deferring Deferred.use_mark b r q) e);
    blobs_same = refl;
    records_same = refl;
  }
  Nears-other (deferring Deferred.release b r q) e nu nr empty pb pr = record {
    less = ground (
      arith,
      pb b,
      total-become s v effort k (behind_records r) (deferring Deferred.release b r q) e,
    );
    blobs_same = ground (arith, pb b);
    records_same = ground (arith, pb b);
  }
  Nears-other (behind_records r) e nu nr empty pb pr = record {
    less = ground (arith, pr r, total-drop s v effort k (behind_records r) e);
    blobs_same = ground (arith, pr r);
    records_same = ground (arith, pr r);
  }
  Nears-other (forwarding b) e nu nr empty pb pr = record {
    less = ground (arith, pb b, total-drop s v effort k (forwarding b) e);
    blobs_same = ground (arith, pb b);
    records_same = ground (arith, pb b);
  }

empty_of_total : (m : Map ℕ Task) → total (λ t. 1) m ≡ 0 → m ≡ []
empty_of_total [] e = refl
empty_of_total ((k, t) ∷ m) e = absurd (omega (arith, e))

module _ (h : Text → Text) (s : Shared) (v : IsValid s) where
  move_upload :
      (k : ℕ) (task : Task)
      → get k s.tasks ≡ some task
      → is_uploading task ≡ true
      → Nears s (get_on h k task none false (Answer.status 200 ∷ []) s).0
  unfolding get_on
  move_upload k (uploading d size q) e u = Nears-upload h s v k d size q e
  move_upload k _ e u = cc

  move_record :
      (k : ℕ) (task : Task)
      → ((b : ℕ) → passed b s.blob_order ≡ true)
      → get k s.tasks ≡ some task
      → is_recording task ≡ true
      → Nears s (get_on h k task none false (Answer.status 200 ∷ []) s).0
  unfolding get_on
  move_record k (deferring Deferred.records b r q) p e u = Nears-record h s v k b r q (p b) e
  move_record k _ p e u = cc

  move_any :
      (k : ℕ) (task : Task)
      → get k s.tasks ≡ some task
      → s.spool_files ≡ 0
      → ((b : ℕ) → passed b s.blob_order ≡ true)
      → ((r : ℕ) → passed r s.record_order ≡ true)
      → Nears s (get_on h k task none false (Answer.status 200 ∷ []) s).0
  move_any k task e empty pb pr = elim (Bool-cases (is_uploading task)) [
    | inl u ↦ move_upload k task e u
    | inr nu ↦ elim (Bool-cases (is_recording task)) [
      | inl r ↦ move_record k task pb e r
      | inr nr ↦ Nears-other h s v k task e nu nr empty pb pr
    ]
  ]

  taken :
      (k : ℕ) (task : Task)
      → get k s.tasks ≡ some task
      → Nears s (get_on h k task none false (Answer.status 200 ∷ []) s).0
      → Nears s (step h (served k) s).0
  unfolding step
  taken k task e n = rw (e, step) n

  -- Uploads first, then records, then the rest: one of them can always be served.
  pub some_move : (s.tasks ≡ []) ⊎ ((k : ℕ) × Nears s (step h (served k) s).0)
  some_move = elim (pick is_uploading s.tasks v.tasks_sorted) [
    | inl (k, task, e, u) ↦ inr (k, taken k task e (move_upload k task e u))
    | inr no_upload ↦
        let pb = all_passed_blobs s v no_upload in
        elim (pick is_recording s.tasks v.tasks_sorted) [
          | inl (k, task, e, u) ↦ inr (k, taken k task e (move_record k task pb e u))
          | inr no_record ↦
              let pr = all_passed_records s v no_record in
              elim (pick (λ t. true) s.tasks v.tasks_sorted) [
                | inr nothing ↦ inl (empty_of_total s.tasks (nothing (λ t. 1) (λ t f. cc)))
                | inl (k, task, e, u) ↦
                    let empty = no_upload (weigh Weight.file_of) (no_weight Weight.file_of) in
                    inr (
                      k,
                      taken k task e
                          (move_any k task e (omega (arith, v.blob_part.files, empty)) pb pr),
                    )
              ]
        ]
  ]
