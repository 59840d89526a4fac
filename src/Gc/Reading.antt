-- ===== src/Gc/Reading.antt =====
-- A snapshot that is read is consistent: crates/bellows-core/src/gc.rs, `Snapshot::read`.
use bellows.Prelude.{
  ℕ, zero, suc, ◌+◌, ◌%◌, ◌<◌, ◌≤◌, ◌≡◌, refl, sym, ap, ◌∙◌, subst, Bool, true, false, List, [],
  ◌∷◌, ◌++◌, bit, count, if◌then◌else◌, length, get_or, set, ◌==◌, ==_iff, arith, Bool-cases, inl,
  inr, sum_of, map, replicate, All, length-map, length-append, length-set, length-replicate,
  count-append, get_or-beyond, get_or-set_self, get_or-set_ne, get_or-replicate,
}
use bellows.Prelude.Key.{text_key}
use bellows.Prelude.Map.{Map}
use bellows.Prelude.Text.{Text}
use bellows.Gc.State.{Evictable, no_unit, u32_mod, u64_max, saturating_add}
use bellows.Gc.Index.{
  Indexed, BlobFile, Files, Journal, index_digests, blobs_named, push_referrers, add, add_all, read,
  records, total_of, to_blob,
}
use bellows.Gc.Counts.{is}
use bellows.Gc.Tracks.{IsSnapshot}
use bellows.Gc.Start.{bytes_of}
use bellows.Gc.Naming.{Names, index_digests-Names, blobs_named-Below, count-blobs_named}

abbrev pub only_if : Bool → ℕ → ℕ
only_if true n = n
only_if false n = 0

pushed_at :
    (index u b c : ℕ) (refs : List (List ℕ))
    → c < length refs
    → let after = get_or [] (set refs c (get_or [] refs c ++ index ∷ [])) b in
      (count (is u) after ≡ count (is u) (get_or [] refs b) + only_if (index == u) (bit (is b c)))
      × (length after ≡ length (get_or [] refs b) + bit (is b c))
pushed_at index u b c refs h = elim (Bool-cases (c == b)) [
  | inl q ↦
      let e : get_or [] (set refs c (get_or [] refs c ++ index ∷ [])) b
          ≡ get_or [] refs b ++ index ∷ [] =
        subst
          (λ w.
            get_or [] (set refs c (get_or [] refs c ++ index ∷ [])) w
            ≡ get_or [] refs w ++ index ∷ [])
          ((==_iff c b).0 q) (get_or-set_self [] refs c (get_or [] refs c ++ index ∷ []) h) in
      rw e (
        ground (arith, q, count-append (is u) (get_or [] refs b) (index ∷ [])),
        ground (arith, q, length-append (get_or [] refs b) (index ∷ [])),
      )
  | inr q ↦
      rw (get_or-set_ne [] refs c b (get_or [] refs c ++ index ∷ []) (λ p. ground (arith, p)))
        (ground (arith, q), ground (arith, q))
]

Below_after :
    (c : ℕ) (v : List ℕ) (bs : List ℕ) (refs : List (List ℕ))
    → All (λ b. b < length refs) bs
    → All (λ b. b < length (set refs c v)) bs
Below_after c v bs refs a = rw (length-set refs c v) a

-- Each blob of the unit is told of it.
push_referrers_lem :
    (index u b : ℕ) (bs : List ℕ) (refs : List (List ℕ))
    → All (λ b. b < length refs) bs
    → let after = get_or [] (push_referrers index bs refs) b in
      (count (is u) after
        ≡ count (is u) (get_or [] refs b) + only_if (index == u) (count (is b) bs))
      × (length after ≡ length (get_or [] refs b) + count (is b) bs)
unfolding push_referrers
push_referrers_lem index u b [] refs a = (ground arith, omega arith)
push_referrers_lem index u b (c ∷ bs) refs a =
    let (p, q) = pushed_at index u b c refs a.0 in
    let (r, t) =
      push_referrers_lem index u b bs (set refs c (get_or [] refs c ++ index ∷ []))
        (Below_after c (get_or [] refs c ++ index ∷ []) bs refs a.1) in
    (ground arith, omega arith)

length-push_referrers :
    (index : ℕ) (bs : List ℕ) (refs : List (List ℕ))
    → length (push_referrers index bs refs) ≡ length refs
unfolding push_referrers
length-push_referrers index [] refs = refl
length-push_referrers index (b ∷ bs) refs =
    length-push_referrers index bs (set refs b (get_or [] refs b ++ index ∷ []))
    ∙ length-set refs b (get_or [] refs b ++ index ∷ [])

-- The two views of the references agree.
pub record Agrees (blobs : ℕ) (ix : Indexed) : Type 0 where
  pub sized : length ix.referrers ≡ blobs
  pub paired :
      (u b : ℕ)
      → count (is b) (get_or no_unit ix.units u).blobs ≡ count (is u) (get_or [] ix.referrers b)
  pub single : (u b : ℕ) → count (is u) (get_or [] ix.referrers b) ≤ 1
  pub short : (b : ℕ) → length (get_or [] ix.referrers b) ≤ length ix.units

get_or-push {ℓ} :
    {A : Type ℓ} (d : A) (xs : List A) (x : A) (i : ℕ)
    → get_or d (xs ++ x ∷ []) i ≡ (if length xs == i then x else get_or d xs i)
get_or-push d [] x zero = refl
get_or-push d [] x (suc i) = ground arith
get_or-push d (y ∷ xs) x zero = ground arith
get_or-push d (y ∷ xs) x (suc i) = ground (arith, get_or-push d xs x i)

add-Agrees :
    (n : ℕ) (m : Map Text ℕ) (ix : Indexed) (unit : Evictable) (digests : List Text)
    → Names n m
    → length ix.units < u32_mod
    → Agrees n ix
    → Agrees n (add m ix (unit, digests))
unfolding add
add-Agrees n m ix unit digests k few a =
    let named = blobs_named m [] digests in
    let index = length ix.units in
    let whole : index % u32_mod ≡ index = omega arith in
    let below : All (λ b. b < length ix.referrers) named =
      rw a.sized (blobs_named-Below n m [] digests k) in
    let fresh : (b : ℕ) → count (is index) (get_or [] ix.referrers b) ≡ 0 = λ b.
      sym (a.paired index b)
      ∙ ap (λ (x : Evictable). count (is b) x.blobs)
          (get_or-beyond no_unit ix.units index (omega arith)) in
    let once = λ (b : ℕ). count-blobs_named m [] digests b in
    let told = λ (u b : ℕ). push_referrers_lem index u b named ix.referrers below in
    rw whole (record {
      sized = length-push_referrers index named ix.referrers ∙ a.sized;
      paired = λ u b. elim (Bool-cases (index == u)) [
        | inl q ↦
            let z =
              subst (λ v. count (is v) (get_or [] ix.referrers b) ≡ 0) ((==_iff index u).0 q)
                (fresh b) in
            rw (get_or-push no_unit ix.units (record unit { blobs = named }) u, q)
              (ground (arith, (told u b).0, z, q))
        | inr q ↦
            rw (get_or-push no_unit ix.units (record unit { blobs = named }) u, q)
              (ground (arith, (told u b).0, a.paired u b, q))
      ];
      single = λ u b. elim (Bool-cases (index == u)) [
        | inl q ↦
            let z =
              subst (λ v. count (is v) (get_or [] ix.referrers b) ≡ 0) ((==_iff index u).0 q)
                (fresh b) in
            ground (arith, (told u b).0, z, q, once b)
        | inr q ↦ ground (arith, (told u b).0, a.single u b, q)
      ];
      short = λ b. omega (
        arith,
        (told 0 b).1,
        once b,
        a.short b,
        length-append ix.units ((record unit { blobs = named }) ∷ []),
      );
    })

add_all-Agrees :
    (n : ℕ) (m : Map Text ℕ) (ix : Indexed) (us : List (Evictable × List Text))
    → Names n m
    → length ix.units + length us < u32_mod
    → Agrees n ix
    → Agrees n (add_all m ix us) × (length (add_all m ix us).units ≡ length ix.units + length us)
unfolding add_all add
add_all-Agrees n m ix [] k few a = (a, omega arith)
add_all-Agrees n m ix ((unit, digests) ∷ us) k few a =
    let named = blobs_named m [] digests in
    let grown = length-append ix.units ((record unit { blobs = named }) ∷ []) in
    let (p, q) =
      add_all-Agrees n m (add m ix (unit, digests)) us k (omega (arith, grown))
        (add-Agrees n m ix unit digests k (omega arith) a) in
    (p, omega (arith, grown, q))

total_of_lem :
    (total : ℕ) (fs : List BlobFile)
    → total + sum_of bytes_of (map to_blob fs) ≤ u64_max
    → total_of total fs ≡ total + sum_of bytes_of (map to_blob fs)
unfolding total_of
total_of_lem total [] h = omega arith
total_of_lem total ((name, len, time) ∷ fs) h =
    let e : saturating_add total len ≡ total + len = omega arith in
    rw e (omega (arith, total_of_lem (total + len) fs (omega arith)))

-- A snapshot of fewer records and blobs than there are indexes is consistent.
pub read-IsSnapshot :
    (started_ms : ℕ) (journal : Journal) (files : Files)
    → length files.blobs < u32_mod
    → length (records journal files) < u32_mod
    → IsSnapshot (read started_ms journal files)
unfolding read
read-IsSnapshot started_ms journal files few_blobs few_records =
    let n = length files.blobs in
    let m = index_digests 0 files.blobs [] in
    let known : Names n m = λ d b g.
      omega (arith, index_digests-Names 0 files.blobs [] (omega arith) (λ e c h. cc) d b g) in
    let empty : Agrees n (record { units = []; referrers = replicate n [] }) = record {
      sized = length-replicate n [];
      paired = λ u b. rw (get_or-replicate {A = List ℕ} [] n b) refl;
      single = λ u b. rw (get_or-replicate {A = List ℕ} [] n b) (omega arith);
      short = λ b. rw (get_or-replicate {A = List ℕ} [] n b) (omega arith);
    } in
    let (a, grown) =
      add_all-Agrees n m (record { units = []; referrers = replicate n [] }) (records journal files)
        known (omega arith) empty in
    record {
      sized = a.sized ∙ sym (length-map to_blob files.blobs);
      few = omega arith;
      paired = a.paired;
      single = a.single;
      short = a.short;
    }

-- Its total is that of the blobs, if it fits.
pub read-total :
    (started_ms : ℕ) (journal : Journal) (files : Files)
    → sum_of bytes_of (map to_blob files.blobs) ≤ u64_max
    → (read started_ms journal files).total_bytes
      ≡ sum_of bytes_of (read started_ms journal files).blobs
unfolding read
read-total started_ms journal files h = total_of_lem 0 files.blobs (omega arith) ∙ omega arith
