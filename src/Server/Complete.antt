-- ===== src/Server/Complete.antt =====
-- What the server has when it answers that a record is published: crates/bellows-server/src/main.rs,
-- `store_candidate`, `put_archive`, `receive_blob`.
use bellows.Prelude.{ℕ, ◌≤◌, ◌≡◌, ◌⊎◌, refl, ◌∙◌, List, [], ◌∷◌, length, arith, inl, inr, All}
use bellows.Prelude.Key.{text_key}
use bellows.Prelude.Text.{Text}
use bellows.Store.Error.{ok}
use bellows.Store.Records.{Artifact, StreamArtifact, ActionCandidate, CandidateIndex}
use bellows.Store.Keys.{validate_content_key}
use bellows.Store.Manifest.{validate_candidate_manifest}
use bellows.Store.Contents
use bellows.Store.Front.{IsFront}
use bellows.Prelude.{max}
use bellows.Store.Contents.{Host, Store, read_blob, read_candidates, with_candidate}
use bellows.Store.Published.{Result-cases}
use bellows.Store.Indexed.{read_candidates-put_candidate}
use bellows.Server.Api.{ApiResult, Refusal, refused, answered, ◌>>◌, or_refuse, each}
use bellows.Server.Publish.{check_blob, check_stream, check_candidate, store_candidate}

pub ApiResult-cases {ℓ} :
    {A : Type ℓ} (r : ApiResult A)
    → ((e : Refusal) × (r ≡ refused e)) ⊎ ((a : A) × (r ≡ answered a))
ApiResult-cases (answered a) = inr (a, refl)
ApiResult-cases (refused e) = inl (e, refl)

-- A chain that is answered was answered in its first step, and in the rest.
pub >>-answered :
    (first rest : ApiResult (Unit {0}))
    → (first >> rest) ≡ answered tt
    → (first ≡ answered tt) × (rest ≡ answered tt)
>>-answered (refused why) rest h = cc
>>-answered (answered v) rest h = (refl, h)

-- A blob is there and hashes to its name.
abbrev pub IsReadable : Host → Store → Text → Type 0
IsReadable host s digest = (bytes : Text) × (read_blob host digest s ≡ ok bytes)

check_blob-IsReadable :
    (host : Host) (s : Store) (digest : Text)
    → check_blob host s digest ≡ answered tt
    → IsReadable host s digest
unfolding check_blob
check_blob-IsReadable host s digest h = elim (Result-cases (read_blob host digest s)) [
  | inl (e, r) ↦ let d = rw (r, check_blob) at h in absurd (cc)
  | inr (bytes, r) ↦ (bytes, r)
]

-- The stream is there, and as long as the record says.
abbrev pub IsStream : Host → Store → StreamArtifact → Type 0
IsStream host s stream =
    (bytes : Text) × (read_blob host stream.digest s ≡ ok bytes) × (length bytes ≡ stream.len)

check_stream-IsStream :
    (host : Host) (s : Store) (stream : StreamArtifact)
    → check_stream host s stream ≡ answered tt
    → IsStream host s stream
unfolding check_stream
check_stream-IsStream host s stream h = elim (Result-cases (read_blob host stream.digest s)) [
  | inl (e, r) ↦ let d = rw (r, check_stream) at h in absurd (cc)
  | inr (bytes, r) ↦ let d = rw (r, check_stream) at h in (bytes, r, ground (arith, d))
]

each-All {κ} :
    {A : Type 0} (f : A → ApiResult (Unit {0})) (P : A → Type κ)
    → ((a : A) → f a ≡ answered tt → P a)
    → (xs : List A) → each f xs ≡ answered tt
    → All P xs
each-All f P one [] h = tt
each-All f P one (x ∷ xs) h =
    let (first, rest) = >>-answered (f x) (each f xs) h in (one x first, each-All f P one xs rest)

-- Neither a read of candidates nor a publication writes a blob.
read_candidates-blobs :
    (host : Host) (key : Text) (s : Store) → (read_candidates host key s).0.blobs ≡ s.blobs
unfolding read_candidates
read_candidates-blobs host key s = elim (Result-cases (validate_content_key key)) [
  | inl (e, v) ↦ rw (v, read_candidates) refl
  | inr (u, v) ↦ rw (v, read_candidates) refl
]

put_candidate-blobs :
    (host : Host) (c : ActionCandidate) (n now : ℕ) (s : Store)
    → (Contents.put_candidate host c n now s).0.blobs ≡ s.blobs
unfolding Contents.put_candidate
put_candidate-blobs host c n now s =
    elim (Result-cases (validate_candidate_manifest host.digests c)) [
      | inl (e, v) ↦ rw (v, Contents.put_candidate) refl
      | inr (u, v) ↦ elim (Result-cases (read_candidates host c.static_key s).1) [
        | inl (e, r) ↦
            rw (v, Contents.put_candidate)
              (rw (r, Contents.put_candidate) (read_candidates-blobs host c.static_key s))
        | inr (index, r) ↦
            rw (v, Contents.put_candidate)
              (rw (r, Contents.put_candidate) (read_candidates-blobs host c.static_key s))
      ]
    ]

read_blob-blobs :
    (host : Host) (digest : Text) (s t : Store)
    → t.blobs ≡ s.blobs
    → read_blob host digest t ≡ read_blob host digest s
unfolding read_blob
read_blob-blobs host digest s t e = rw e refl

IsReadable-blobs :
    (host : Host) (s t : Store) (digest : Text)
    → t.blobs ≡ s.blobs
    → IsReadable host s digest
    → IsReadable host t digest
IsReadable-blobs host s t digest e (bytes, r) = (bytes, read_blob-blobs host digest s t e ∙ r)

IsStream-blobs :
    (host : Host) (s t : Store) (stream : StreamArtifact)
    → t.blobs ≡ s.blobs
    → IsStream host s stream
    → IsStream host t stream
IsStream-blobs host s t stream e (bytes, r, l) =
    (bytes, read_blob-blobs host stream.digest s t e ∙ r, l)

-- What a published candidate can rely on in a store.
pub record IsComplete (host : Host) (s : Store) (c : ActionCandidate) : Type 0 where
  pub artifacts_there : All (λ (a : Artifact). IsReadable host s a.digest) c.artifacts
  pub stdout_there : IsStream host s c.stdout
  pub stderr_there : IsStream host s c.stderr

check_candidate-IsComplete :
    (host : Host) (c : ActionCandidate) (s t : Store)
    → t.blobs ≡ s.blobs
    → check_candidate host c s ≡ answered tt
    → IsComplete host t c
unfolding check_candidate
check_candidate-IsComplete host c s t e h =
    let (a, h1) = >>-answered (or_refuse Refusal.bad_request _) _ h in
    let (b, h2) = >>-answered (each _ c.artifacts) _ h1 in
    let (d, h3) = >>-answered (check_stream host s c.stdout) _ h2 in
    let (f, h4) = >>-answered (check_stream host s c.stderr) _ h3 in
    record {
      artifacts_there =
          each-All (λ (x : Artifact). check_blob host s x.digest)
            (λ (x : Artifact). IsReadable host t x.digest)
            (λ x y. IsReadable-blobs host s t x.digest e (check_blob-IsReadable host s x.digest y))
            c.artifacts b;
      stdout_there = IsStream-blobs host s t c.stdout e (check_stream-IsStream host s c.stdout d);
      stderr_there = IsStream-blobs host s t c.stderr e (check_stream-IsStream host s c.stderr f);
    }

-- With a limit of at most 1024 candidates: when the server answers that a candidate is published, all
-- its outputs are there and hash to their names, its two streams are there and as long as it says, and
-- the next read of its key finds it first. The candidates that were found before follow in their order,
-- less those of its action key and less the last ones, which are missing only if the index is full.
pub store_candidate-IsComplete :
    (host : Host) (c : ActionCandidate) (max_candidates now : ℕ) (s : Store)
    → max_candidates ≤ 1024
    → (store_candidate host c max_candidates now s).1 ≡ answered tt
    → let after = (store_candidate host c max_candidates now s).0 in
      IsComplete host after c
      × ((index : CandidateIndex) × ((read_candidates host c.static_key s).1 ≡ ok index)
          × (read_candidates host c.static_key after
              ≡ (after, ok (with_candidate c max_candidates index)))
          × IsFront c
              (max max_candidates 1)
              index.candidates
              (with_candidate c max_candidates index).candidates)
unfolding store_candidate
store_candidate-IsComplete host c max_candidates now s few h =
    elim (ApiResult-cases (check_candidate host c s)) [
      | inl (e, k) ↦ let d = rw (k, store_candidate) at h in absurd (cc)
      | inr (u, k) ↦
          let d = rw (k, store_candidate) at h in
          elim (Result-cases (Contents.put_candidate host c max_candidates now s).1) [
            | inl (e, p) ↦ absurd (ground (arith, d, p))
            | inr (v, p) ↦
                rw (k, store_candidate)
                  (
                    check_candidate-IsComplete host c s
                        (Contents.put_candidate host c max_candidates now s).0
                        (put_candidate-blobs host c max_candidates now s) k,
                    read_candidates-put_candidate host c max_candidates now s few p,
                  )
          ]
    ]
