-- ===== src/Store/Declarations.antt =====
-- Declared records that are published: crates/bellows-core/src/lib.rs, `put_declared`,
-- `read_declared`.
use bellows.Prelude.{
  ◌≡◌, ◌⊎◌, refl, ap, Bool, true, false, Option, none, some, if◌then◌else◌, inl, inr,
}
use bellows.Prelude.Text.{Text}
use bellows.Prelude.Key.{text_key, same_refl}
use bellows.Prelude.Map.{insert}
use bellows.Store.Error.{Error, ok, err}
use bellows.Store.Keys.{validate_content_key}
use bellows.Store.Records.{DeclaredActionRecord}
use bellows.Store.Declared.{validate_declared_record}
use bellows.Store.Contents.{Host, Store, read_record, check_declared, read_declared, put_declared}
use bellows.Store.Published.{Result-cases}
use bellows.Store.Indexed.{read_record_ok, read_record_written}

read_declared_written :
    (host : Host) (s : Store) (r : DeclaredActionRecord)
    → validate_content_key r.key ≡ ok tt
    → check_declared host.digests r.key r ≡ ok tt
    → let after = record s { declared = insert r.key (some r) s.declared } in
      read_declared host r.key after ≡ (after, ok (some r))
unfolding read_declared
read_declared_written host s r v c =
    rw (v, read_declared)
      (rw
        (
          read_record_written (check_declared host.digests r.key) r.key s.declared r c,
          read_declared,
        )
        refl)

-- A read that succeeds leaves the store alone.
pub read_declared_ok :
    (host : Host) (key : Text) (s : Store) (o : Option DeclaredActionRecord)
    → (read_declared host key s).1 ≡ ok o
    → (validate_content_key key ≡ ok tt) × (read_declared host key s ≡ (s, ok o))
unfolding read_declared
read_declared_ok host key s o h = elim (Result-cases (validate_content_key key)) [
  | inl (e, v) ↦ let d = rw (v, read_declared) at h in absurd (cc)
  | inr (u, v) ↦
      let d = rw (v, read_declared) at h in
      let w : read_record (check_declared host.digests key) key s.declared
          ≡ (s.declared, false, ok o) =
        elim (read_record_ok (check_declared host.digests key) key s.declared o d) [
          | inl (n, q, w) ↦ w
          | inr (r, n, q, c, w) ↦ w
        ] in
      (v, rw (v, read_declared) (rw (w, read_declared) refl))
]

same_contents :
    (b : Bool) (fresh : Bool) → (if b then ok false else err Error.immutable) ≡ ok fresh → b ≡ true
same_contents true fresh h = refl
same_contents false fresh h = cc

-- After a declared record was put successfully a read of its key leaves the store alone and gives a
-- record: this one, or the one that was there and counts as the same.
pub read_declared-put_declared :
    (host : Host) (r : DeclaredActionRecord) (s : Store) (fresh : Bool)
    → (put_declared host r s).1 ≡ ok fresh
    → let after = (put_declared host r s).0 in
      (e : DeclaredActionRecord) × (read_declared host r.key after ≡ (after, ok (some e)))
      × ((e ≡ r)
          ⊎ ((host.same_record e r ≡ true) × (read_declared host r.key s ≡ (s, ok (some e)))))
unfolding put_declared
read_declared-put_declared host r s fresh h =
    elim (Result-cases (validate_declared_record host.digests r)) [
      | inl (e, v) ↦ let d = rw (v, put_declared) at h in absurd (cc)
      | inr (u, v) ↦
          let d = rw (v, put_declared) at h in
          elim (Result-cases (read_declared host r.key s).1) [
            | inl (e, q) ↦ let f = rw (q, put_declared) at d in absurd (cc)
            | inr (none, q) ↦
                let (n, w) = read_declared_ok host r.key s none q in
                let own : check_declared host.digests r.key r ≡ ok tt =
                  rw (v, same_refl r.key) refl in
                rw (v, put_declared)
                  (rw (q, put_declared)
                    (
                      r,
                      read_declared_written host (read_declared host r.key s).0 r n own,
                      inl refl,
                    ))
            | inr (some e, q) ↦
                let (n, w) = read_declared_ok host r.key s (some e) q in
                let f = rw (q, put_declared) at d in
                rw (v, put_declared)
                  (rw (q, put_declared)
                    (
                      e,
                      rw (ap (λ z. z.0) w) w,
                      inr (same_contents (host.same_record e r) fresh f, w),
                    ))
          ]
    ]
