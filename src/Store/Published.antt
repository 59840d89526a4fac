-- ===== src/Store/Published.antt =====
-- What is published is read back: crates/bellows-core/src/lib.rs, `put_blob`, `put_candidate`,
-- `put_archive` and their readers.
use bellows.Prelude.{
  ◌⊎◌, ℕ, ◌≡◌, refl, sym, ap, ◌∙◌, Bool, false, arith, Bool-cases, Option-cases, inl, inr,
}
use bellows.Prelude.Text.{Text, text_eq}
use bellows.Prelude.Key.{text_key, same_iff, same_refl}
use bellows.Prelude.Map.{get, insert, get-insert}
use bellows.Store.Error.{Error, Result, ok, err}
use bellows.Store.Keys.{validate_content_key}
use bellows.Store.Sound.{>>-ok}
use bellows.Store.Contents.{Host, Store, BlobFile, read_blob, commit_blob, put_blob}

pub Result-cases {ℓ} :
    {A : Type ℓ} (r : Result A) → ((e : Error) × (r ≡ err e)) ⊎ ((a : A) × (r ≡ ok a))
Result-cases (ok a) = inr (a, refl)
Result-cases (err e) = inl (e, refl)

read_blob_digest :
    (host : Host) (digest x : Text) (s : Store)
    → read_blob host digest s ≡ ok x
    → host.digest_bytes x ≡ digest
unfolding read_blob
read_blob_digest host digest x s h =
    let (a, b) = >>-ok (validate_content_key digest) _ h in
    elim (Option-cases (get digest s.blobs)) [
      | inl n ↦ absurd (ground (arith, rw n at b))
      | inr (f, n) ↦
          let c = rw n at b in
          elim (Bool-cases (text_eq (host.digest_bytes f.bytes) digest)) [
            | inl q ↦
                let d = rw q at c in
                let same : f.bytes ≡ x = cc in
                ap host.digest_bytes (sym same) ∙ (same_iff (host.digest_bytes f.bytes) digest).0 q
            | inr q ↦ let d = rw q at c in absurd (cc)
          ]
    ]

read_blob_written :
    (host : Host) (digest : Text) (f : BlobFile) (s : Store)
    → validate_content_key digest ≡ ok tt
    → host.digest_bytes f.bytes ≡ digest
    → read_blob host digest (record s { blobs = insert digest f s.blobs }) ≡ ok f.bytes
unfolding read_blob
read_blob_written host digest f s v h =
    rw (v, get-insert digest digest f s.blobs, same_refl digest)
      (rw ((same_iff (host.digest_bytes f.bytes) digest).1 h) refl)

others_written :
    (digest : Text) (f : BlobFile) (s : Store) (d : Text)
    → text_eq d digest ≡ false
    → get d (insert digest f s.blobs) ≡ get d s.blobs
others_written digest f s d h = rw (get-insert digest d f s.blobs, h) refl

put_blob_file :
    (host : Host) (expected bytes : Text) (now : ℕ) (s : Store) (fresh : Bool)
    → (put_blob host expected bytes now s).1 ≡ ok fresh
    → (f : BlobFile) × ((put_blob host expected bytes now s).0
        ≡ record s { blobs = insert expected f s.blobs })
      × (validate_content_key expected ≡ ok tt)
      × (host.digest_bytes f.bytes ≡ expected)
unfolding put_blob commit_blob
put_blob_file host expected bytes now s fresh h =
    elim (Bool-cases (text_eq (host.digest_bytes bytes) expected)) [
      | inr q ↦ absurd (ground (arith, h, q))
      | inl q ↦ elim (Result-cases (validate_content_key expected)) [
        | inl (e, v) ↦ absurd (ground (arith, h, q, v))
        | inr (u, v) ↦ elim (Result-cases (read_blob host expected s)) [
          | inl (e, r) ↦ (
            record { bytes = bytes; modified_ms = now },
            rw (q, put_blob) (rw (v, commit_blob) (rw (r, commit_blob) refl)),
            v,
            (same_iff (host.digest_bytes bytes) expected).0 q,
          )
          | inr (old, r) ↦ (
            record { bytes = old; modified_ms = now },
            rw (q, put_blob) (rw (v, commit_blob) (rw (r, commit_blob) refl)),
            v,
            read_blob_digest host expected old s r,
          )
        ]
      ]
    ]

-- A blob that was put is read back under its digest, and no other blob has changed.
pub read_blob-put_blob :
    (host : Host) (expected bytes : Text) (now : ℕ) (s : Store) (fresh : Bool)
    → (put_blob host expected bytes now s).1 ≡ ok fresh
    → ((x : Text) × (read_blob host expected (put_blob host expected bytes now s).0 ≡ ok x)
        × (host.digest_bytes x ≡ expected))
      × ((d : Text)
          → text_eq d expected ≡ false
          → get d (put_blob host expected bytes now s).0.blobs ≡ get d s.blobs)
read_blob-put_blob host expected bytes now s fresh h =
    let (f, e, v, q) = put_blob_file host expected bytes now s fresh h in
    rw e ((f.bytes, read_blob_written host expected f s v q, q), others_written expected f s)
