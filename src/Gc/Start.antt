-- ===== src/Gc/Start.antt =====
-- Where the evictions start: crates/bellows-core/src/gc.rs, the unreferenced blobs and the counters
-- of `Plan::new`.
use bellows.Prelude.{
  ℕ, suc, ◌+◌, ◌-◌, ◌<◌, ◌≡◌, refl, sym, ap, ◌∙◌, Bool, true, false, ◌&&◌, not, List, [], ◌∷◌,
  if◌then◌else◌, length, get_or, ltb, arith, sum_of, map, length-map, get_or-map, get_or-replicate,
  length-replicate, replicate,
}
use bellows.Prelude.Text.{is_empty}
use bellows.Gc.State.{Snapshot, Blob, no_blob, u32_mod}
use bellows.Gc.Plan.{
  Loose, loose, loose_blob, loose_blobs, is_protected, nothing_evicted, referrers_of, blob_bytes,
  count_u32, executable_total,
}
use bellows.Gc.Counts.{kept, live, executable_weight, bytes_if}
use bellows.Gc.Tracks.{IsSnapshot, Tracks}
use bellows.Gc.Executables.{TracksExecutables}

abbrev pub bytes_of : Blob → ℕ
bytes_of b = b.bytes

-- The bytes of the blobs that nothing references, from number `index` on: of those within the grace
-- period, and of the others.
unfoldable pub loose_bytes : Bool → Snapshot → ℕ → ℕ → List Blob → ℕ
loose_bytes protected snap now index [] = 0
loose_bytes protected snap now index (b ∷ bs) =
    bytes_if
      (is_empty (referrers_of snap index)
        && (if protected then is_protected now b else not (is_protected now b)))
      b.bytes
    + loose_bytes protected snap now (index + 1) bs

abbrev pub protected_bytes : Snapshot → ℕ → ℕ
protected_bytes snap now = loose_bytes true snap now 0 snap.blobs

loose_blobs_bytes :
    (snap : Snapshot) (now index : ℕ) (bs : List Blob) (l : Loose)
    → (loose_blobs snap now index bs l).bytes_after
      ≡ l.bytes_after - loose_bytes false snap now index bs
unfolding loose_blobs loose_blob loose_bytes
loose_blobs_bytes snap now index [] l = omega arith
loose_blobs_bytes snap now index (b ∷ bs) l =
    ground (arith, loose_blobs_bytes snap now (index + 1) bs (loose_blob snap now index b l))

counted : (refs : List ℕ) → length refs < u32_mod → ltb 0 (count_u32 refs) ≡ not (is_empty refs)
counted [] h = refl
counted (r ∷ refs) h = ground arith

-- Every byte belongs to a blob that is referenced, or within its grace period, or neither.
split_bytes :
    (snap : Snapshot) (now index : ℕ) (bs : List Blob) (refs : List (List ℕ))
    → length refs ≡ length bs
    → ((i : ℕ) → get_or no_blob bs i ≡ get_or no_blob snap.blobs (index + i))
    → ((i : ℕ) → get_or [] refs i ≡ referrers_of snap (index + i))
    → ((i : ℕ) → length (referrers_of snap i) < u32_mod)
    → sum_of bytes_of bs
      ≡ live (blob_bytes snap) index (map count_u32 refs)
        + loose_bytes false snap now index bs
        + loose_bytes true snap now index bs
unfolding live loose_bytes
split_bytes snap now index [] [] e hb hr short = omega arith
split_bytes snap now index (b ∷ bs) [] e hb hr short = absurd (omega arith)
split_bytes snap now index [] (r ∷ refs) e hb hr short = absurd (omega arith)
split_bytes snap now index (b ∷ bs) (r ∷ refs) e hb hr short =
    let z : index + 0 ≡ index = omega arith in
    let here : b ≡ get_or no_blob snap.blobs index = rw z at (hb 0) in
    let there : r ≡ referrers_of snap index = rw z at (hr 0) in
    let few : length r < u32_mod = rw there (short index) in
    let next =
      split_bytes snap now (index + 1) bs refs (omega arith)
        (λ i. hb (suc i) ∙ ap (get_or no_blob snap.blobs) (omega arith))
        (λ i. hr (suc i) ∙ ap (get_or [] snap.referrers) (omega arith)) short in
    let w : blob_bytes snap index ≡ b.bytes = ap bytes_of (sym here) in
    let n = counted r few in rw (sym there) (ground (arith, next, w, n))

executable_total_lem :
    (snap : Snapshot) (b : ℕ) (refs : List (List ℕ))
    → ((i : ℕ) → get_or [] refs i ≡ referrers_of snap (b + i))
    → ((i : ℕ) → length (referrers_of snap i) < u32_mod)
    → executable_total snap b refs ≡ live (executable_weight snap) b (map count_u32 refs)
unfolding executable_total live
executable_total_lem snap b [] hr short = refl
executable_total_lem snap b (r ∷ refs) hr short =
    let z : b + 0 ≡ b = omega arith in
    let there : r ≡ referrers_of snap b = rw z at (hr 0) in
    let few : length r < u32_mod = rw there (short b) in
    let next =
      executable_total_lem snap (b + 1) refs
        (λ i. hr (suc i) ∙ ap (get_or [] snap.referrers) (omega arith)) short in
    let n = counted r few in rw (sym there) (ground (arith, next, n))

kept_all : (n : ℕ) (refs : List ℕ) → kept (replicate n false) refs ≡ length refs
kept_all n [] = refl
kept_all n (r ∷ refs) = ground (arith, get_or-replicate false n r, kept_all n refs)

module _ (snap : Snapshot) (now : ℕ) (s : IsSnapshot snap)
    (total : snap.total_bytes ≡ sum_of bytes_of snap.blobs) where
  few_referrers : (b : ℕ) → length (referrers_of snap b) < u32_mod
  few_referrers b = omega (arith, s.short b, s.few)

  counter : (b : ℕ) → get_or 0 (map count_u32 snap.referrers) b ≡ length (referrers_of snap b)
  counter b = get_or-map count_u32 [] snap.referrers b ∙ omega (arith, few_referrers b)

  -- Before anything is evicted all counters are right.
  pub nothing_evicted-Tracks : Tracks snap (protected_bytes snap now) (nothing_evicted snap now)
  unfolding nothing_evicted loose
  nothing_evicted-Tracks = record {
    all_units = length-replicate (length snap.units) false;
    all_blobs = length-map count_u32 snap.referrers;
    counters = λ b. counter b ∙ sym (kept_all (length snap.units) (referrers_of snap b));
    frees_once = λ b. ground (arith, counter b);
    accounts = omega (
      arith,
      loose_blobs_bytes snap now 0 snap.blobs (record {
        unreferenced = [];
        protected_unreferenced = 0;
        bytes_after = snap.total_bytes;
      }),
      split_bytes snap now 0 snap.blobs snap.referrers s.sized
          (λ i. ap (get_or no_blob snap.blobs) (omega arith))
          (λ i. ap (get_or [] snap.referrers) (omega arith)) few_referrers,
      total,
    );
  }

  pub nothing_evicted-TracksExecutables : TracksExecutables snap (nothing_evicted snap now)
  unfolding nothing_evicted
  nothing_evicted-TracksExecutables = record {
    exact =
        executable_total_lem snap 0 snap.referrers
          (λ i. ap (get_or [] snap.referrers) (omega arith)) few_referrers;
    only = λ u h. absurd (ground (arith, get_or-replicate false (length snap.units) u, h));
  }
