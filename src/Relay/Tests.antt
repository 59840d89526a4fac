-- ===== src/Relay/Tests.antt =====
-- The relay of crates/bellows-cli/src/relay.rs on concrete requests: its own tests, and an instance of
-- each theorem with a hypothesis.
use bellows.Prelude.{
  ℕ, ◌≡◌, ◌<◌, ◌↔◌, refl, true, false, none, some, List, [], ◌∷◌, ◌++◌, arith, replicate,
}
use bellows.Prelude.Key.{list_cmp, text_key, nat_key}
use bellows.Prelude.Map.{insert, remove}
use bellows.Prelude.Totals.{total}
use bellows.Prelude.Text.{Text, codes}
use bellows.Relay.Order.{Op, Wait, new, passed, apply_all, wait_before, is_woken}
use bellows.Relay.Ordered.{finished, passed-apply_all, asleep_blocked}
use bellows.Relay.State.{Deferred, Shared, Status, start}
use bellows.Relay.Route.{Method, Route, authorized, handle}
use bellows.Relay.Upload.{Answer, upload, Uploaded}
use bellows.Relay.Tasks.{Move, Outcome, step, run, defer}
use bellows.Relay.Valid.{Weight, weigh, weigh_upload, is_record, IsValid}
use bellows.Relay.Steps.{HasRoom}
use bellows.Relay.After.{record_after_blobs, release_after_records}
use bellows.Relay.Finish.{IsDrained, run-start-IsValid, drains}
use bellows.Relay.Guarded.{upload_ends}
use bellows.Relay.Requests.{receive, receive_guarded}

-- order_waits_only_for_work_begun_before_the_horizon
abbrev two_begun : List Op
two_begun = Op.begins ∷ Op.begins ∷ []

order_waits :
    (passed 1 (apply_all two_begun new) ≡ false)
    × (passed 1 (apply_all (two_begun ++ Op.finishes 1 ∷ []) new) ≡ false)
    × (passed 1 (apply_all (two_begun ++ Op.finishes 1 ∷ Op.finishes 0 ∷ []) new) ≡ true)
unfolding passed apply_all new insert remove
order_waits = (refl, refl, refl)

passed-apply_all_example :
    (passed 1 (apply_all (two_begun ++ Op.finishes 0 ∷ []) new) ≡ true)
    ↔ ((q : ℕ) → q < 1 → q < 2 → finished q (two_begun ++ Op.finishes 0 ∷ []) ≡ true)
passed-apply_all_example =
    passed-apply_all (two_begun ++ Op.finishes 0 ∷ []) 1 (omega arith) (omega arith)

one_begun-blocked : wait_before 1 0 (apply_all (Op.begins ∷ []) new) ≡ Wait.sleeps 0
unfolding wait_before apply_all new insert
one_begun-blocked = refl

one_begun-unwoken : is_woken 0 (apply_all (Op.begins ∷ []) (apply_all (Op.begins ∷ []) new)) ≡ false
unfolding is_woken apply_all new insert
one_begun-unwoken = refl

asleep_blocked_example :
    passed 1 (apply_all (Op.begins ∷ []) (apply_all (Op.begins ∷ []) new)) ≡ false
unfolding new
asleep_blocked_example =
    asleep_blocked (Op.begins ∷ []) (Op.begins ∷ []) new 1 tt (omega arith) (omega arith)
      one_begun-blocked one_begun-unwoken

-- relay_rejects_a_wrong_session_token
wrong_tokens :
    (authorized (codes "abc123") none ≡ false)
    × (authorized (codes "abc123") (some (codes "Bearer abc124")) ≡ false)
    × (authorized (codes "abc123") (some (codes "Bearer abc12")) ≡ false)
    × (authorized (codes "abc123") (some (codes "Bearer abc123")) ≡ true)
unfolding authorized
wrong_tokens = (refl, refl, refl, refl)

receive_guarded_example :
    receive Method.put (codes "/v1/actions/a/b") (some (codes "Bearer u")) (start (codes "t") 100)
    ≡ (start (codes "t") 100, Outcome.answered Status.unauthorized)
unfolding start list_cmp
receive_guarded_example =
    receive_guarded (start (codes "t") 100) Method.put (codes "/v1/actions/a/b") (codes "Bearer u")
      (omega arith) (omega arith) refl

routes :
    (handle [] Method.get_method (codes "/live") none ≡ Route.answers Status.no_content)
    × (handle (codes "t") Method.put (codes "/v1/actions/a/b") (some (codes "Bearer t"))
        ≡ Route.defers Deferred.records)
    × (handle (codes "t") Method.delete (codes "/v1/leases/a/b") (some (codes "Bearer t"))
        ≡ Route.defers Deferred.release)
    × (handle (codes "t") Method.put (codes "/v1/archives/a") (some (codes "Bearer t"))
        ≡ Route.waits_and_forwards)
    × (handle (codes "t") Method.put (codes "/v1/blobs/a") (some (codes "Bearer u"))
        ≡ Route.answers Status.unauthorized)
unfolding handle
routes = (refl, refl, refl, refl, refl)

-- A blob whose name is its digest, under a digest function that says so.
abbrev key : Text
key = replicate 64 b'a'

abbrev digest_bytes : Text → Text
digest_bytes body = key

abbrev received : List Move
received =
    Move.puts key
    ∷ Move.gets_on 0 none false []
    ∷ Move.gets_on 0 (some (codes "blob")) false []
    ∷ []

abbrev uploading_blob : Shared
uploading_blob = run digest_bytes received (start (codes "t") 100)

-- A blob that uploads, a record that waits for it, and the release that waits for the record.
abbrev sent_in_order : Shared → List Outcome
sent_in_order s =
    let blob = Move.gets_on 0 none false (Answer.status 201 ∷ []) in
    let record' = Move.gets_on 1 none false (Answer.status 201 ∷ []) in
    let release = Move.gets_on 2 none false (Answer.status 204 ∷ []) in
    let t = run digest_bytes (Move.defers Deferred.records ∷ Move.defers Deferred.release ∷ []) s in
    (step digest_bytes record' t).1
    ∷ (step digest_bytes record' (run digest_bytes (blob ∷ []) t)).1
    ∷ (step digest_bytes release (run digest_bytes (blob ∷ release ∷ []) t)).1
    ∷ (step digest_bytes release (run digest_bytes (blob ∷ release ∷ record' ∷ []) t)).1
    ∷ []

order_of_sending :
    sent_in_order uploading_blob
    ≡ Outcome.idle
      ∷ Outcome.sent Deferred.records
      ∷ Outcome.idle
      ∷ Outcome.sent Deferred.release
      ∷ []
unfolding run start
order_of_sending = refl

run-start-IsValid_example : IsValid (run digest_bytes received (start (codes "t") 100))
run-start-IsValid_example = run-start-IsValid digest_bytes (codes "t") 100 received (omega arith)

drains_example :
    (moves : List Move) × IsDrained
      (run digest_bytes moves (run digest_bytes received (start (codes "t") 100)))
drains_example = drains digest_bytes (codes "t") 100 received (omega arith)

abbrev served_blob : Move
served_blob = Move.gets_on 0 none false (Answer.status 201 ∷ [])

uploading_runs : total (weigh (Weight.sequence_of 0)) uploading_blob.tasks ≡ 1
unfolding run start weigh weigh_upload
uploading_runs = refl

uploading_room : HasRoom 3 uploading_blob
unfolding run start
uploading_room = record { blobs_left = omega arith; records_left = omega arith }

record_sent :
    (step digest_bytes
      (Move.gets_on uploading_blob.next_task none false (Answer.status 201 ∷ []))
      (run digest_bytes (served_blob ∷ []) (defer Deferred.records uploading_blob).0)).1
    ≡ Outcome.sent Deferred.records
unfolding run start defer
record_sent = refl

record_after_blobs_example :
    total
      (weigh (Weight.sequence_of 0))
      (run digest_bytes (served_blob ∷ []) (defer Deferred.records uploading_blob).0).tasks
    ≡ 0
record_after_blobs_example =
    record_after_blobs digest_bytes uploading_blob (served_blob ∷ []) none false
      (Answer.status 201 ∷ []) 0
      (run-start-IsValid digest_bytes (codes "t") 100 received (omega arith))
      (record {
        blobs_left = omega (arith, uploading_room);
        records_left = omega (arith, uploading_room);
      })
      (omega (arith, uploading_runs)) record_sent

-- A record that is under way, behind no blob.
abbrev recording : Shared
recording = run digest_bytes (Move.defers Deferred.records ∷ []) (start (codes "t") 100)

abbrev served_record : Move
served_record = Move.gets_on 0 none false (Answer.status 201 ∷ [])

recording_runs : total (is_record 0) recording.tasks ≡ 1
unfolding run start is_record
recording_runs = refl

recording_room : HasRoom 4 recording
unfolding run start
recording_room = record { blobs_left = omega arith; records_left = omega arith }

release_sent :
    (step digest_bytes (Move.gets_on recording.next_task none false (Answer.status 204 ∷ [])) (
      run digest_bytes
        (served_record ∷ Move.gets_on 1 none false [] ∷ [])
        (defer Deferred.release recording).0)).1
    ≡ Outcome.sent Deferred.release
unfolding run start defer
release_sent = refl

release_after_records_example :
    total
      (is_record 0)
      (run digest_bytes
        (served_record ∷ Move.gets_on 1 none false [] ∷ [])
        (defer Deferred.release recording).0).tasks
    ≡ 0
release_after_records_example =
    release_after_records digest_bytes recording (served_record ∷ Move.gets_on 1 none false [] ∷ [])
      none false (Answer.status 204 ∷ []) 0
      (run-start-IsValid digest_bytes (codes "t") 100 (Move.defers Deferred.records ∷ [])
        (omega arith))
      (record {
        blobs_left = omega (arith, recording_room);
        records_left = omega (arith, recording_room);
      })
      (omega (arith, recording_runs)) release_sent

-- A large blob that the server has is not sent, and a lost connection is tried again.
upload_answers :
    (upload 300000 true [] ≡ some Uploaded.present)
    × (upload 10 true (Answer.not_connected ∷ Answer.status 201 ∷ []) ≡ some Uploaded.sent)
    × (upload 10 false (Answer.not_connected ∷ []) ≡ none)
unfolding upload
upload_answers = (refl, refl, refl)

upload_ends_example :
    (outcome : Uploaded) × ((later : List Answer)
      → upload 300000 false
          (Answer.not_connected ∷ Answer.not_connected ∷ Answer.status 201 ∷ later)
        ≡ some outcome)
upload_ends_example =
    upload_ends 300000 false Answer.not_connected Answer.not_connected (Answer.status 201)
