-- ===== src/Server/Blobs.antt =====
-- Blobs over HTTP: crates/bellows-server/src/main.rs, `get_blob`, `head_blob`, `put_blob`,
-- `receive_blob`. A body comes in chunks, one of which may fail to be read.
use bellows.Prelude.{
  ℕ, ◌+◌, ◌%◌, ◌^◌, Bool, not, Option, none, some, List, [], ◌∷◌, ◌++◌, if◌then◌else◌, ltb, length,
}
use bellows.Prelude.Key.{text_key, list_cmp}
use bellows.Prelude.Map.{get, insert}
use bellows.Prelude.Text.{Text, text_eq}
use bellows.Store.Error.{ok, err}
use bellows.Store.Keys.{validate_content_key}
use bellows.Store.Contents.{Host, Store, BlobFile, read_blob, commit_blob}
use bellows.Server.Api.{ApiResult, Refusal, refused, answered, ◌>>◌, or_refuse}

-- The bytes of the file, whatever they hash to: the client checks them.
unfoldable pub get_blob : Text → Store → ApiResult Text
unfolding validate_content_key get list_cmp
get_blob digest s =
    or_refuse Refusal.bad_request (validate_content_key digest) >> elim (get digest s.blobs) [
      | none ↦ refused Refusal.not_found
      | some file ↦ answered file.bytes
    ]

-- `Store::touch_blob`: the time of the file, which a collection looks at.
abbrev pub touched : BlobFile → ℕ → BlobFile
touched file now = record { bytes = file.bytes; modified_ms = now }

-- A blob that does not hash to its name reads as absent; one that is there is touched.
unfoldable pub head_blob : Host → Text → ℕ → Store → Store × ApiResult (Unit {0})
unfolding validate_content_key get insert read_blob list_cmp
head_blob host digest now s = elim (validate_content_key digest) [
  | err e ↦ (s, refused Refusal.bad_request)
  | ok u ↦ elim (get digest s.blobs) [
    | none ↦ (s, refused Refusal.not_found)
    | some file ↦ elim (read_blob host digest s) [
      | err e ↦ (s, refused Refusal.not_found)
      | ok bytes ↦ (record s { blobs = insert digest (touched file now) s.blobs }, answered tt)
    ]
  ]
]

-- The chunks so far are `body`, of `size` bytes.
unfoldable pub receive_from : ℕ → ℕ → Text → List (Option Text) → ApiResult Text
receive_from limit size body [] = answered body
receive_from limit size body (none ∷ chunks) = refused Refusal.bad_request
receive_from limit size body (some chunk ∷ chunks) =
    let size' = (size + length chunk) % 2 ^ 64 in
    let rest = receive_from limit size' (body ++ chunk) chunks in
    if ltb limit size' then refused Refusal.payload_too_large else rest

unfoldable pub receive_blob : ℕ → List (Option Text) → ApiResult Text
unfolding receive_from
receive_blob limit chunks = receive_from limit 0 [] chunks

-- The answer is whether the blob was created.
unfoldable pub put_blob : Host → ℕ → Text → List (Option Text) → ℕ → Store → Store × ApiResult Bool
unfolding validate_content_key receive_blob commit_blob list_cmp
put_blob host limit digest chunks now s = elim (validate_content_key digest) [
  | err e ↦ (s, refused Refusal.bad_request)
  | ok u ↦ elim (receive_blob limit chunks) [
    | refused why ↦ (s, refused why)
    | answered body ↦
        if not (text_eq (host.digest_bytes body) digest)
        then (s, refused Refusal.bad_request)
        else let (s', r) = commit_blob host digest body now s in (s', or_refuse Refusal.internal r)
  ]
]
