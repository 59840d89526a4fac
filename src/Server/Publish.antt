-- ===== src/Server/Publish.antt =====
-- Records over HTTP: crates/bellows-server/src/main.rs, the handlers of candidates, declared records
-- and archives, each under the lock `writes`.
use bellows.Prelude.{
  ℕ, Bool, not, Option, none, some, [], ◌∷◌, ◌++◌, if◌then◌else◌, any, length, ◌==◌, ◌||◌,
}
use bellows.Prelude.Key.{text_key, list_cmp}
use bellows.Prelude.Text.{Text, text_eq}
use bellows.Store.Error.{Error, Result, ok, err}
use bellows.Store.Keys.{validate_content_key}
use bellows.Store.Records.{
  Artifact, StreamArtifact, ActionCandidate, CandidateIndex, DeclaredActionRecord, ArchiveManifest,
}
use bellows.Store.Paths.{validate_relative_path, relative_path_is_within}
use bellows.Store.Declared.{validate_declared_command, validate_declared_record}
use bellows.Store.Manifest.{validate_candidate_manifest, validate_archive_manifest}
use bellows.Store.Contents
use bellows.Store.Contents.{Host, Store, read_blob}
use bellows.Server.Api.{
  ApiResult, Refusal, refused, answered, ◌>>=◌, ◌>>◌, or_refuse, refuse_if, each,
}

-- Bytes that were read, with their number.
abbrev pub has_length : ℕ → Text → ApiResult (Unit {0})
has_length len bytes = refuse_if (not (length bytes == len)) Refusal.bad_request

-- A blob that a record names must be there and whole.
unfoldable pub check_blob : Host → Store → Text → ApiResult (Unit {0})
unfolding read_blob
check_blob host s digest =
    or_refuse Refusal.bad_request (read_blob host digest s) >>= λ bytes. answered tt

unfoldable pub check_stream : Host → Store → StreamArtifact → ApiResult (Unit {0})
unfolding read_blob
check_stream host s stream =
    or_refuse Refusal.bad_request (read_blob host stream.digest s) >>= has_length stream.len

unfoldable pub get_candidates : Host → Text → Store → Store × ApiResult CandidateIndex
get_candidates host key s = elim (Contents.read_candidates host key s).1 [
  | err e ↦ ((Contents.read_candidates host key s).0, refused Refusal.internal)
  | ok index ↦ (
    (Contents.read_candidates host key s).0,
    if length index.candidates == 0 then refused Refusal.not_found else answered index,
  )
]

-- What must hold of the store before a candidate is written.
unfoldable pub check_candidate : Host → ActionCandidate → Store → ApiResult (Unit {0})
unfolding validate_candidate_manifest check_blob check_stream
check_candidate host c s = do
  or_refuse Refusal.bad_request (validate_candidate_manifest host.digests c)
  each (λ (a : Artifact). check_blob host s a.digest) c.artifacts
  each (check_stream host s) (c.stdout ∷ c.stderr ∷ [])

unfoldable pub store_candidate :
    Host → ActionCandidate → ℕ → ℕ → Store → Store × ApiResult (Unit {0})
unfolding check_candidate
store_candidate host c max_candidates now s = elim (check_candidate host c s) [
  | refused why ↦ (s, refused why)
  | answered u ↦
      let (s', r) = Contents.put_candidate host c max_candidates now s in
      (s', or_refuse Refusal.internal r)
]

unfoldable pub put_candidate :
    Host → Text → Text → ActionCandidate → ℕ → ℕ → Store → Store × ApiResult (Unit {0})
unfolding store_candidate list_cmp
put_candidate host static_key action_key c max_candidates now s =
    if not (text_eq c.static_key static_key) || not (text_eq c.action_key action_key)
    then (s, refused Refusal.bad_request)
    else store_candidate host c max_candidates now s

unfoldable pub record_use : Text → Text → ℕ → Store → Store × ApiResult (Unit {0})
unfolding validate_content_key
record_use static_key action_key now s = elim (validate_content_key static_key) [
  | err e ↦ (s, refused Refusal.bad_request)
  | ok u ↦ elim (validate_content_key action_key) [
    | err e ↦ (s, refused Refusal.bad_request)
    | ok v ↦ (record s { journal = s.journal ++ (static_key, action_key, now) ∷ [] }, answered tt)
  ]
]

abbrev pub or_not_found {ℓ} : {A : Type ℓ} → Result (Option A) → ApiResult A
or_not_found (err e) = refused Refusal.internal
or_not_found (ok none) = refused Refusal.not_found
or_not_found (ok (some r)) = answered r

unfoldable pub get_declared : Host → Text → Store → Store × ApiResult DeclaredActionRecord
get_declared host key s = let (s', r) = Contents.read_declared host key s in (s', or_not_found r)

unfoldable pub key_of : Host → DeclaredActionRecord → Text
key_of host r =
    host.digests.declared_action_key r.name r.platform r.command r.environment r.inputs
      r.output_paths

abbrev pub check_path : Text → ApiResult (Unit {0})
check_path path =
    or_refuse Refusal.bad_request (validate_relative_path path) >>= λ (path' : Text). answered tt

abbrev pub check_artifact : Host → Store → Artifact → ApiResult (Unit {0})
check_artifact host s a = do check_path a.file_name; check_blob host s a.digest

abbrev pub check_covered : DeclaredActionRecord → Artifact → ApiResult (Unit {0})
check_covered r a =
    refuse_if (not (any (relative_path_is_within a.file_name) r.output_paths)) Refusal.bad_request

unfoldable pub verify_declared_record : Host → DeclaredActionRecord → Store → ApiResult (Unit {0})
unfolding validate_declared_record validate_declared_command key_of check_blob check_stream
    validate_relative_path relative_path_is_within
verify_declared_record host r s = do
  or_refuse Refusal.bad_request (validate_declared_record host.digests r)
  or_refuse Refusal.bad_request (validate_declared_command r.command)
  refuse_if (not (text_eq (key_of host r) r.key)) Refusal.bad_request
  each (check_artifact host s) (r.inputs ++ r.outputs)
  each (check_covered r) r.outputs
  each (check_stream host s) (r.stdout ∷ r.stderr ∷ [])

unfoldable pub put_declared : Host → Text → DeclaredActionRecord → Store → Store × ApiResult Bool
unfolding verify_declared_record list_cmp
put_declared host key r s =
    if not (text_eq r.key key)
    then (s, refused Refusal.bad_request)
    else elim (verify_declared_record host r s) [
      | refused why ↦ (s, refused why)
      | answered u ↦
          let (s', done) = Contents.put_declared host r s in (s', or_refuse Refusal.internal done)
    ]

unfoldable pub get_archive : Host → Text → Store → Store × ApiResult ArchiveManifest
get_archive host name s = let (s', r) = Contents.read_archive host name s in (s', or_not_found r)

-- A name that is bound to another tree is a conflict, any other error is internal.
abbrev pub archive_answer : Result Bool → ApiResult Bool
archive_answer (ok created) = answered created
archive_answer (err Error.immutable) = refused Refusal.conflict
archive_answer (err e) = refused Refusal.internal

unfoldable pub check_archive : Host → Text → ArchiveManifest → Store → ApiResult (Unit {0})
unfolding validate_archive_manifest validate_relative_path check_blob list_cmp
check_archive host name m s = do
  refuse_if (not (text_eq m.name name)) Refusal.bad_request
  or_refuse Refusal.bad_request (validate_archive_manifest host.digests m)
  each (check_artifact host s) m.files
  refuse_if (not (text_eq (host.digests.tree_digest m.files) m.tree_digest)) Refusal.bad_request

unfoldable pub put_archive : Host → Text → ArchiveManifest → Store → Store × ApiResult Bool
unfolding check_archive
put_archive host name m s = elim (check_archive host name m s) [
  | refused why ↦ (s, refused why)
  | answered u ↦ let (s', done) = Contents.put_archive host m s in (s', archive_answer done)
]
