-- ===== src/Store/Contents.antt =====
-- The content store: crates/bellows-core/src/lib.rs, the methods of `Store` under its mutation lock.
-- Directories are maps; the file system's own failures are left out. BLAKE3 is a parameter.
use bellows.Prelude.{
  ℕ, zero, suc, max, Bool, true, false, not, Option, none, some, List, [], ◌∷◌, ◌++◌, if◌then◌else◌,
  length, retain, ltb, is_some,
}
use bellows.Prelude.Text.{Text, text_eq}
use bellows.Prelude.Key.{text_key, list_cmp}
use bellows.Prelude.Map.{Map, get, insert, remove}
use bellows.Store.Error.{Error, Result, ok, err, ◌>>◌, fail_if, each}
use bellows.Store.Keys.{validate_content_key}
use bellows.Store.Records.{ActionCandidate, CandidateIndex, DeclaredActionRecord, ArchiveManifest}
use bellows.Store.Paths.{validate_archive_name}
use bellows.Store.Declared.{validate_declared_record}
use bellows.Store.Manifest.{Digests, validate_candidate_manifest, validate_archive_manifest}

pub record BlobFile : Type 0 where
  pub bytes : Text
  pub modified_ms : ℕ

-- A record file is `none` if its JSON cannot be decoded.
pub record Store : Type 0 where
  pub blobs : Map Text BlobFile
  pub actions : Map Text (Option CandidateIndex)
  pub declared : Map Text (Option DeclaredActionRecord)
  pub archives : Map Text (Option ArchiveManifest)
  pub quarantine : List Text
  pub journal : List (Text × Text × ℕ)

-- What the source takes from elsewhere: the two digests, and equality of declared records.
pub record Host : Type 0 where
  pub digest_bytes : Text → Text
  pub digests : Digests
  pub same_record : DeclaredActionRecord → DeclaredActionRecord → Bool

-- A blob that is read hashes to its name.
unfoldable pub read_blob : Host → Text → Store → Result Text
unfolding validate_content_key get list_cmp
read_blob host digest s = validate_content_key digest >> elim (get digest s.blobs) [
  | none ↦ err Error.missing
  | some f ↦
      if text_eq (host.digest_bytes f.bytes) digest then ok f.bytes else err Error.corrupt_blob
]

-- A verified copy that is there is only refreshed; a corrupt one is replaced.
unfoldable pub commit_blob : Host → Text → Text → ℕ → Store → Store × Result Bool
unfolding validate_content_key get insert read_blob list_cmp
commit_blob host expected bytes now s = elim (validate_content_key expected) [
  | err e ↦ (s, err e)
  | ok u ↦ elim (read_blob host expected s) [
    | ok old ↦ (
      record s { blobs = insert expected (record { bytes = old; modified_ms = now }) s.blobs },
      ok false,
    )
    | err e ↦ (
      record s { blobs = insert expected (record { bytes = bytes; modified_ms = now }) s.blobs },
      ok true,
    )
  ]
]

unfoldable pub put_blob : Host → Text → Text → ℕ → Store → Store × Result Bool
unfolding commit_blob list_cmp
put_blob host expected bytes now s =
    if text_eq (host.digest_bytes bytes) expected
    then commit_blob host expected bytes now s
    else (s, err Error.blob_digest)

abbrev pub check_indexed : Digests → Text → ActionCandidate → Result (Unit {0})
check_indexed digests static_key c = do
  validate_candidate_manifest digests c
  fail_if (not (text_eq c.static_key static_key)) Error.wrong_path

abbrev pub check_index : Digests → Text → CandidateIndex → Result (Unit {0})
check_index digests static_key index = do
  fail_if (ltb 1024 (length index.candidates)) Error.cardinality
  each (check_indexed digests static_key) index.candidates

-- A record that does not decode or does not pass its check is moved to the quarantine.
unfoldable pub read_record {ℓ} :
    {A : Type ℓ}
    → (A → Result (Unit {0}))
    → Text
    → Map Text (Option A)
    → Map Text (Option A) × Bool × Result (Option A)
unfolding get remove list_cmp
read_record check key files = elim (get key files) [
  | none ↦ (files, false, ok none)
  | some none ↦ (remove key files, true, err Error.malformed)
  | some (some r) ↦ elim (check r) [
    | ok u ↦ (files, false, ok (some r))
    | err e ↦ (remove key files, true, err e)
  ]
]

abbrev pub noted : Bool → Text → List Text → List Text
noted true key q = q ++ key ∷ []
noted false key q = q

abbrev pub or_default : Option CandidateIndex → CandidateIndex
or_default none = record { candidates = [] }
or_default (some i) = i

abbrev pub candidates_read : Result (Option CandidateIndex) → Result CandidateIndex
candidates_read (ok i) = ok (or_default i)
candidates_read (err e) = err e

unfoldable pub read_candidates : Host → Text → Store → Store × Result CandidateIndex
unfolding validate_content_key read_record validate_candidate_manifest list_cmp
read_candidates host key s = elim (validate_content_key key) [
  | err e ↦ (s, err e)
  | ok u ↦
      let (files, bad, r) = read_record (check_index host.digests key) key s.actions in
      (record s { actions = files; quarantine = noted bad key s.quarantine }, candidates_read r)
]

abbrev pub take {ℓ} : {A : Type ℓ} → ℕ → List A → List A
take zero xs = []
take (suc n) [] = []
take (suc n) (x ∷ xs) = x ∷ take n xs

-- The new candidate goes to the front, in place of one with its action key, and the oldest fall off.
unfoldable pub with_candidate : ActionCandidate → ℕ → CandidateIndex → CandidateIndex
unfolding list_cmp
with_candidate c max_candidates index = record {
  candidates =
      take (max max_candidates 1)
        (c ∷ retain (λ d. not (text_eq d.action_key c.action_key)) index.candidates);
}

unfoldable pub put_candidate : Host → ActionCandidate → ℕ → ℕ → Store → Store × Result (Unit {0})
unfolding validate_candidate_manifest read_candidates with_candidate insert list_cmp
put_candidate host c max_candidates now s = elim (validate_candidate_manifest host.digests c) [
  | err e ↦ (s, err e)
  | ok u ↦
      let r = read_candidates host c.static_key s in
      elim r.1 [
        | err e ↦ (r.0, err e)
        | ok index ↦ (
          record (r.0) {
            actions =
                insert c.static_key (some (with_candidate c max_candidates index)) (r.0).actions;
            journal = (r.0).journal ++ (c.static_key, c.action_key, now) ∷ [];
          },
          ok tt,
        )
      ]
]

abbrev pub check_declared : Digests → Text → DeclaredActionRecord → Result (Unit {0})
check_declared digests key r = do
  validate_declared_record digests r
  fail_if (not (text_eq r.key key)) Error.wrong_path

unfoldable pub read_declared : Host → Text → Store → Store × Result (Option DeclaredActionRecord)
unfolding validate_content_key read_record validate_declared_record list_cmp
read_declared host key s = elim (validate_content_key key) [
  | err e ↦ (s, err e)
  | ok u ↦
      let (files, bad, r) = read_record (check_declared host.digests key) key s.declared in
      (record s { declared = files; quarantine = noted bad key s.quarantine }, r)
]

unfoldable pub put_declared : Host → DeclaredActionRecord → Store → Store × Result Bool
unfolding validate_declared_record read_declared insert list_cmp
put_declared host record' s = elim (validate_declared_record host.digests record') [
  | err e ↦ (s, err e)
  | ok u ↦
      let r = read_declared host record'.key s in
      elim r.1 [
        | err e ↦ (r.0, err e)
        | ok (some existing) ↦
            (r.0, if host.same_record existing record' then ok false else err Error.immutable)
        | ok none ↦
            (record (r.0) { declared = insert record'.key (some record') (r.0).declared }, ok true)
      ]
]

unfoldable pub remove_declared : Text → Store → Store × Result Bool
unfolding validate_content_key get remove list_cmp
remove_declared key s = elim (validate_content_key key) [
  | err e ↦ (s, err e)
  | ok u ↦
      if is_some (get key s.declared)
      then (record s { declared = remove key s.declared }, ok true)
      else (s, ok false)
]

abbrev pub check_archive : Digests → Text → ArchiveManifest → Result (Unit {0})
check_archive digests name m = do
  validate_archive_manifest digests m
  fail_if (not (text_eq m.name name)) Error.wrong_path

unfoldable pub read_archive : Host → Text → Store → Store × Result (Option ArchiveManifest)
unfolding validate_archive_name read_record validate_archive_manifest list_cmp
read_archive host name s = elim (validate_archive_name name) [
  | err e ↦ (s, err e)
  | ok u ↦
      let (files, bad, r) = read_record (check_archive host.digests name) name s.archives in
      (record s { archives = files; quarantine = noted bad name s.quarantine }, r)
]

-- A name is bound once: to the same tree again, or not at all.
unfoldable pub put_archive : Host → ArchiveManifest → Store → Store × Result Bool
unfolding validate_archive_manifest read_archive insert list_cmp
put_archive host m s = elim (validate_archive_manifest host.digests m) [
  | err e ↦ (s, err e)
  | ok u ↦
      let r = read_archive host m.name s in
      elim r.1 [
        | err e ↦ (r.0, err e)
        | ok (some existing) ↦ (
          r.0,
          if text_eq existing.tree_digest m.tree_digest then ok false else err Error.immutable,
        )
        | ok none ↦ (record (r.0) { archives = insert m.name (some m) (r.0).archives }, ok true)
      ]
]
