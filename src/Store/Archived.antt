-- ===== src/Store/Archived.antt =====
-- Archives that are published: crates/bellows-core/src/lib.rs, `put_archive`, `read_archive`.
use bellows.Prelude.{
  ◌≡◌, refl, ap, ◌∙◌, Bool, false, Option, none, some, if◌then◌else◌, arith, inl, inr,
}
use bellows.Prelude.Text.{Text, text_eq}
use bellows.Prelude.Key.{text_key, same_iff, same_refl}
use bellows.Prelude.Map.{insert}
use bellows.Store.Error.{Error, ok, err}
use bellows.Store.Records.{ArchiveManifest}
use bellows.Store.Paths.{validate_archive_name}
use bellows.Store.Manifest.{validate_archive_manifest}
use bellows.Store.Contents.{Host, Store, read_record, check_archive, read_archive, put_archive}
use bellows.Store.Published.{Result-cases}
use bellows.Store.Indexed.{read_record_ok, read_record_written}

-- An archive name is bound once: a name that is bound to a readable manifest of another tree is
-- refused, and the store stays as it is.
pub put_archive_bound :
    (host : Host) (m existing : ArchiveManifest) (s : Store)
    → validate_archive_manifest host.digests m ≡ ok tt
    → read_archive host m.name s ≡ (s, ok (some existing))
    → text_eq existing.tree_digest m.tree_digest ≡ false
    → put_archive host m s ≡ (s, err Error.immutable)
unfolding put_archive
put_archive_bound host m existing s v r d =
    rw (v, put_archive)
      (rw (ap (λ q. q.1) r, put_archive) (rw d (ap (λ q. (q.0, err Error.immutable)) r)))

read_archive_written :
    (host : Host) (s : Store) (m : ArchiveManifest)
    → validate_archive_name m.name ≡ ok tt
    → check_archive host.digests m.name m ≡ ok tt
    → let after = record s { archives = insert m.name (some m) s.archives } in
      read_archive host m.name after ≡ (after, ok (some m))
unfolding read_archive
read_archive_written host s m v c =
    rw (v, read_archive)
      (rw
        (
          read_record_written (check_archive host.digests m.name) m.name s.archives m c,
          read_archive,
        )
        refl)

same_tree :
    (a b : Text) (fresh : Bool)
    → (if text_eq a b then ok false else err Error.immutable) ≡ ok fresh
    → a ≡ b
same_tree a b fresh h = (same_iff a b).0 (ground (arith, h))

read_archive_ok :
    (host : Host) (name : Text) (s : Store) (o : Option ArchiveManifest)
    → (read_archive host name s).1 ≡ ok o
    → (validate_archive_name name ≡ ok tt) × (read_archive host name s ≡ (s, ok o))
unfolding read_archive
read_archive_ok host name s o h = elim (Result-cases (validate_archive_name name)) [
  | inl (e, v) ↦ let d = rw (v, read_archive) at h in absurd (cc)
  | inr (u, v) ↦
      let d = rw (v, read_archive) at h in
      let w : read_record (check_archive host.digests name) name s.archives
          ≡ (s.archives, false, ok o) =
        elim (read_record_ok (check_archive host.digests name) name s.archives o d) [
          | inl (n, q, w) ↦ w
          | inr (r, n, q, c, w) ↦ w
        ] in
      (v, rw (v, read_archive) (rw (w, read_archive) refl))
]

-- What is published under a name is what every later read of the name gives, up to the files' tree:
-- a successful `put_archive` leaves a manifest of its tree.
pub read_archive-put_archive :
    (host : Host) (m : ArchiveManifest) (s : Store) (fresh : Bool)
    → (put_archive host m s).1 ≡ ok fresh
    → (e : ArchiveManifest) × ((read_archive host m.name (put_archive host m s).0).1 ≡ ok (some e))
      × (e.tree_digest ≡ m.tree_digest)
unfolding put_archive
read_archive-put_archive host m s fresh h =
    elim (Result-cases (validate_archive_manifest host.digests m)) [
      | inl (e, v) ↦ let d = rw (v, put_archive) at h in absurd (cc)
      | inr (u, v) ↦
          let d = rw (v, put_archive) at h in
          elim (Result-cases (read_archive host m.name s).1) [
            | inl (e, r) ↦ let f = rw (r, put_archive) at d in absurd (cc)
            | inr (none, r) ↦
                let (n, q) = read_archive_ok host m.name s none r in
                let own : check_archive host.digests m.name m ≡ ok tt =
                  rw (v, same_refl m.name) refl in
                rw (v, put_archive)
                  (rw (r, put_archive)
                    (
                      m,
                      ap (λ z. z.1)
                          (read_archive_written host (read_archive host m.name s).0 m n own),
                      refl,
                    ))
            | inr (some e, r) ↦
                let (n, q) = read_archive_ok host m.name s (some e) r in
                let f = rw (r, put_archive) at d in
                rw (v, put_archive)
                  (rw (r, put_archive)
                    (
                      e,
                      ap (λ z. (read_archive host m.name z.0).1) q ∙ r,
                      same_tree e.tree_digest m.tree_digest fresh f,
                    ))
          ]
    ]
