-- ===== src/Relay/Upload.antt =====
-- One upload and one deferred request with their retries: crates/bellows-cli/src/relay.rs, `upload`
-- and the loop of `defer`.
use bellows.Prelude.{
  ℕ, suc, ◌*◌, Bool, ◌&&◌, Option, none, some, List, [], ◌∷◌, if◌then◌else◌, ltb, leb, ◌==◌,
}
use bellows.Relay.State.{UploadError}
use bellows.Relay.State.UploadError.{reopen, too_large, answered, unreachable}

-- What an attempt comes to: a status, an error of the connection or the request, another error, or
-- no file to send.
pub data Answer : Type 0 where
  status : ℕ → Answer
  not_connected : Answer
  broken_off : Answer
  no_file : Answer

pub data Uploaded : Type 0 where
  sent : Uploaded
  present : Uploaded
  broken : UploadError → Uploaded

abbrev pub is_success : ℕ → Bool
is_success c = leb 200 c && ltb c 300

abbrev pub upload_without_asking_bytes : ℕ
upload_without_asking_bytes = 256 * 1024

-- What a status means for the blob: it arrived, it is too large, or the server refused it.
abbrev pub answer_status : ℕ → Uploaded
answer_status c =
    if is_success c
    then Uploaded.sent
    else if c == 413
    then Uploaded.broken too_large
    else Uploaded.broken (answered c)

-- The loop after `attempt` attempts, on the answers that come; `none` while it waits for one.
unfoldable pub upload_loop : ℕ → List Answer → Option Uploaded
upload_loop attempt [] = none
upload_loop attempt (Answer.status c ∷ answers) = some (answer_status c)
upload_loop attempt (Answer.not_connected ∷ answers) =
    let rest = upload_loop (suc attempt) answers in
    if ltb (suc attempt) 3 then rest else some (Uploaded.broken unreachable)
upload_loop attempt (Answer.broken_off ∷ answers) = some (Uploaded.broken unreachable)
upload_loop attempt (Answer.no_file ∷ answers) = some (Uploaded.broken reopen)

-- `there` is whether the server, asked for a large blob, has it.
unfoldable pub upload : ℕ → Bool → List Answer → Option Uploaded
unfolding upload_loop
upload length there answers =
    if ltb upload_without_asking_bytes length && there
    then some Uploaded.present
    else upload_loop 0 answers

-- What became of a deferred request: the status that it got, or none.
unfoldable pub send_loop : ℕ → List Answer → Option (Option ℕ)
send_loop attempt [] = none
send_loop attempt (Answer.status c ∷ answers) = some (some c)
send_loop attempt (Answer.not_connected ∷ answers) =
    let rest = send_loop (suc attempt) answers in if ltb (suc attempt) 3 then rest else some none
send_loop attempt (Answer.broken_off ∷ answers) = some none
send_loop attempt (Answer.no_file ∷ answers) = some none
