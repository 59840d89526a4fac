-- ===== src/Server/Received.antt =====
-- Uploads of blobs: crates/bellows-server/src/main.rs, `put_blob`, `receive_blob`.
use bellows.Prelude.{
  ℕ, ◌+◌, ◌%◌, ◌^◌, ◌<◌, ◌≤◌, ◌≡◌, refl, sym, ◌∙◌, Bool, true, Option, none, some, List, [], ◌∷◌,
  ◌++◌, length, ltb, arith, inl, inr, Bool-cases, All, option_map, length-append,
}
use mathlib.Core.List.{append_assoc, append-nil}
use bellows.Prelude.Key.{text_key, same_iff}
use bellows.Prelude.Text.{Text, text_eq}
use bellows.Store.Error.{Error, ok, err}
use bellows.Store.Keys.{validate_content_key}
use bellows.Store.Contents
use bellows.Store.Contents.{Host, Store, read_blob, commit_blob}
use bellows.Store.Published.{Result-cases, read_blob-put_blob}
use bellows.Server.Api.{ApiResult, Refusal, refused, answered, or_refuse}
use bellows.Server.Blobs.{receive_from, receive_blob, put_blob}
use bellows.Server.Complete.{ApiResult-cases}

-- The body that chunks make up, if all of them are read.
abbrev pub body_of : List (Option Text) → Option Text
body_of [] = some []
body_of (none ∷ chunks) = none
body_of (some chunk ∷ chunks) = option_map (λ rest. chunk ++ rest) (body_of chunks)

-- No chunk is so large that the count of bytes wraps before it passes the limit.
abbrev pub IsCounted : ℕ → Option Text → Type 0
IsCounted limit none = Unit
IsCounted limit (some chunk) = limit + length chunk < 2 ^ 64

receive_from-answered :
    (limit size : ℕ) (body : Text) (chunks : List (Option Text)) (out : Text)
    → size ≡ length body
    → size ≤ limit
    → All (IsCounted limit) chunks
    → receive_from limit size body chunks ≡ answered out
    → ((rest : Text) × (body_of chunks ≡ some rest) × (out ≡ body ++ rest)) × (length out ≤ limit)
unfolding receive_from
receive_from-answered limit size body [] out e l c h =
    let same' : body ≡ out = cc in
    (([], refl, sym same' ∙ sym (append-nil body)), rw (← same') (omega (arith, e, l)))
receive_from-answered limit size body (none ∷ chunks) out e l c h = cc
receive_from-answered limit size body (some chunk ∷ chunks) out e l c h =
    elim (Bool-cases (ltb limit ((size + length chunk) % 2 ^ 64))) [
      | inl large ↦ let d = rw (large, receive_from) at h in absurd (cc)
      | inr fits ↦
          let d = rw (fits, receive_from) at h in
          let size' = (size + length chunk) % 2 ^ 64 in
          let ((rest, b, o), s) =
            receive_from-answered limit size' (body ++ chunk) chunks out
              (omega (arith, length-append body chunk, e, l, c.0)) (ground (arith, fits)) c.1 d in
          ((chunk ++ rest, rw (b, body_of) refl, o ∙ append_assoc body chunk rest), s)
    ]

-- What is received is all that was sent, and at most the limit.
pub receive_blob-answered :
    (limit : ℕ) (chunks : List (Option Text)) (body : Text)
    → All (IsCounted limit) chunks
    → receive_blob limit chunks ≡ answered body
    → (body_of chunks ≡ some body) × (length body ≤ limit)
unfolding receive_blob
receive_blob-answered limit chunks body c h =
    let ((rest, b, o), s) = receive_from-answered limit 0 [] chunks body refl (omega arith) c h in
    (rw o b, s)

-- What an answer to an upload says: the whole body has the digest, is within the limit and can be
-- read; or nothing has changed.
abbrev pub Means : Host → ℕ → Text → List (Option Text) → Store → Store → ApiResult Bool → Type 0
Means host limit digest chunks before after (refused why) = after ≡ before
Means host limit digest chunks before after (answered created) =
    ((body : Text) × (body_of chunks ≡ some body)
      × (length body ≤ limit)
      × (host.digest_bytes body ≡ digest))
    × ((x : Text) × (read_blob host digest after ≡ ok x) × (host.digest_bytes x ≡ digest))

commit_blob_refused :
    (host : Host) (digest body : Text) (now : ℕ) (s : Store) (e : Error)
    → (commit_blob host digest body now s).1 ≡ err e
    → (commit_blob host digest body now s).0 ≡ s
unfolding commit_blob
commit_blob_refused host digest body now s e h = elim (Result-cases (validate_content_key digest)) [
  | inl (f, v) ↦ rw (v, commit_blob) refl
  | inr (u, v) ↦ elim (Result-cases (read_blob host digest s)) [
    | inl (f, r) ↦ absurd (ground (arith, h, v, r))
    | inr (old, r) ↦ absurd (ground (arith, h, v, r))
  ]
]

-- The body was received and has the digest.
put_blob-commit :
    (host : Host) (limit : ℕ) (digest body : Text) (chunks : List (Option Text)) (now : ℕ)
    (s : Store)
    → validate_content_key digest ≡ ok tt
    → receive_blob limit chunks ≡ answered body
    → text_eq (host.digest_bytes body) digest ≡ true
    → put_blob host limit digest chunks now s ≡ (
      (commit_blob host digest body now s).0,
      or_refuse Refusal.internal (commit_blob host digest body now s).1,
    )
unfolding put_blob
put_blob-commit host limit digest body chunks now s v r q =
    rw (v, put_blob) (rw (r, put_blob) (rw (q, put_blob) refl))

commit-Means :
    (host : Host) (limit : ℕ) (digest body : Text) (chunks : List (Option Text)) (now : ℕ)
    (s : Store)
    → All (IsCounted limit) chunks
    → receive_blob limit chunks ≡ answered body
    → text_eq (host.digest_bytes body) digest ≡ true
    → Means host limit digest chunks s
        (commit_blob host digest body now s).0
        (or_refuse Refusal.internal (commit_blob host digest body now s).1)
unfolding Contents.put_blob
commit-Means host limit digest body chunks now s c r q =
    elim (Result-cases (commit_blob host digest body now s).1) [
      | inl (e, m) ↦ rw m (commit_blob_refused host digest body now s e m)
      | inr (created, m) ↦
          let (b, l) = receive_blob-answered limit chunks body c r in
          let p : Contents.put_blob host digest body now s ≡ commit_blob host digest body now s =
            rw (q, Contents.put_blob) refl in
          let found = (read_blob-put_blob host digest body now s created (rw p m)).0 in
          rw m ((body, b, l, (same_iff (host.digest_bytes body) digest).0 q), rw p at found)
    ]

-- If no chunk is so long that it wraps the count of bytes, an upload that is answered has stored a blob
-- of its digest, within the limit and read from all of the body, and one that is refused has changed
-- nothing.
pub put_blob-Means :
    (host : Host) (limit : ℕ) (digest : Text) (chunks : List (Option Text)) (now : ℕ) (s : Store)
    → All (IsCounted limit) chunks
    → Means host limit digest chunks s
        (put_blob host limit digest chunks now s).0
        (put_blob host limit digest chunks now s).1
unfolding put_blob
put_blob-Means host limit digest chunks now s c =
    elim (Result-cases (validate_content_key digest)) [
      | inl (e, v) ↦ rw (v, put_blob) refl
      | inr (u, v) ↦ elim (ApiResult-cases (receive_blob limit chunks)) [
        | inl (why, r) ↦ rw (v, put_blob) (rw (r, put_blob) refl)
        | inr (body, r) ↦ elim (Bool-cases (text_eq (host.digest_bytes body) digest)) [
          | inr q ↦ rw (v, put_blob) (rw (r, put_blob) (rw (q, put_blob) refl))
          | inl q ↦
              rw (put_blob-commit host limit digest body chunks now s v r q)
                (commit-Means host limit digest body chunks now s c r q)
        ]
      ]
    ]
