-- ===== src/Gc/Outcome.antt =====
-- What a plan promises: crates/bellows-core/src/gc.rs, `Plan::new`.
use bellows.Prelude.{
  ℕ, suc, ◌+◌, ◌<◌, ◌≤◌, ◌≡◌, ◌≢◌, refl, sym, ap, ◌∙◌, Bool, true, false, ◌&&◌, some, List, [], ◌∷◌,
  bit, count, length, get_or, ltb, ◌==◌, arith, inl, inr, ◌⊎◌, Option-cases, sum_of, map,
  length-map, get_or-map,
}
use bellows.Gc.State.{Snapshot, GcOptions}
use bellows.Gc.Plan.{
  Evicting, new_plan, after_executables, after_oldest, nothing_evicted, eviction_order,
  referrers_of, obsolete, unit_at, evicts_before,
}
use bellows.Gc.Counts.{is, kept, live, live_bytes, live_executable, executable_weight}
use bellows.Gc.Unreference.{times_freed}
use bellows.Gc.Tracks.{IsSnapshot, Tracks}
use bellows.Gc.Order.{Below, eviction_order-Below, count-eviction_order, eviction_order-IsSorted}
use bellows.Gc.Budget.{Frugal, evict_executables-Frugal}
use bellows.Gc.Empty.{all_executables_evicted, all_evicted}
use bellows.Gc.Oldest.{Bounded, evict_oldest-Bounded, obsolete-IsEvicted}
use bellows.Gc.Recent.{IsSorted-ObsoleteFirst, kept_protects}
use bellows.Gc.Start.{
  bytes_of, protected_bytes, nothing_evicted-Tracks, nothing_evicted-TracksExecutables,
}

list_ext {ℓ} :
    {A : Type ℓ} (d : A) (xs ys : List A)
    → length xs ≡ length ys
    → ((i : ℕ) → get_or d xs i ≡ get_or d ys i)
    → xs ≡ ys
list_ext d [] [] e h = refl
list_ext d [] (y ∷ ys) e h = absurd (omega arith)
list_ext d (x ∷ xs) [] e h = absurd (omega arith)
list_ext d (x ∷ xs) (y ∷ ys) e h = rw (h 0, list_ext d xs ys (omega arith) (λ i. h (suc i))) refl

-- How many referrers of each blob are kept.
abbrev pub kept_counts : Snapshot → List Bool → List ℕ
kept_counts snap evicted = map (kept evicted) snap.referrers

remaining-kept :
    (snap : Snapshot) (rest : ℕ) (e : Evicting)
    → Tracks snap rest e
    → e.remaining ≡ kept_counts snap e.evicted
remaining-kept snap rest e t =
    list_ext 0 e.remaining (kept_counts snap e.evicted)
      (t.all_blobs ∙ sym (length-map (kept e.evicted) snap.referrers))
      (λ i. t.counters i ∙ sym (get_or-map (kept e.evicted) [] snap.referrers i))

live_mono :
    (weight : ℕ → ℕ) (b : ℕ) (xs ys : List ℕ)
    → length xs ≡ length ys
    → ((i : ℕ) → get_or 0 xs i ≤ get_or 0 ys i)
    → live weight b xs ≤ live weight b ys
unfolding live
live_mono weight b [] ys e h = omega arith
live_mono weight b (x ∷ xs) [] e h = absurd (omega arith)
live_mono weight b (x ∷ xs) (y ∷ ys) e h =
    ground (arith, h 0, live_mono weight (b + 1) xs ys (omega arith) (λ i. h (suc i)))

kept_mono :
    (es fs : List Bool) (refs : List ℕ)
    → ((u : ℕ) → get_or false es u ≡ true → get_or false fs u ≡ true)
    → kept fs refs ≤ kept es refs
kept_mono es fs [] h = omega arith
kept_mono es fs (u ∷ refs) h = ground (arith, h u, kept_mono es fs refs h)

module _ (snap : Snapshot) (options : GcOptions) (now : ℕ) (s : IsSnapshot snap)
    (total : snap.total_bytes ≡ sum_of bytes_of snap.blobs) where
  below : Below (length snap.units) (eviction_order snap options)
  below = eviction_order-Below snap options s.few

  listed : (u : ℕ) → u < length snap.units → 0 < count (is u) (eviction_order snap options)
  listed u h = ground (arith, count-eviction_order snap options s.few u)

  start : Tracks snap (protected_bytes snap now) (nothing_evicted snap now)
  start = nothing_evicted-Tracks snap now s total

  frugal :
      (budget : ℕ)
      → options.max_executable_bytes ≡ some budget
      → Frugal snap
          (protected_bytes snap now)
          budget
          (eviction_order snap options)
          (nothing_evicted snap now)
          (after_executables snap options now)
  unfolding after_executables
  frugal budget e =
      rw (e, after_executables)
        (evict_executables-Frugal snap (protected_bytes snap now) budget
          (eviction_order snap options) (nothing_evicted snap now) s below start
          (nothing_evicted-TracksExecutables snap now s total))

  middle : Tracks snap (protected_bytes snap now) (after_executables snap options now)
  unfolding after_executables
  middle = elim (Option-cases options.max_executable_bytes) [
    | inl e ↦ rw (e, after_executables) start
    | inr (budget, e) ↦ (frugal budget e).tracks
  ]

  bounded :
      Bounded snap options
        (protected_bytes snap now)
        (eviction_order snap options)
        (after_executables snap options now)
        (after_oldest snap options now)
  unfolding after_oldest
  bounded =
      evict_oldest-Bounded snap options (protected_bytes snap now) (eviction_order snap options)
        (after_executables snap options now) s below middle

  -- The plan frees a blob, once, exactly if it had a referrer and the plan evicts all of them.
  pub freed_exact :
      (b : ℕ)
      → times_freed b (new_plan snap options now).freed
        ≡ bit (
            ltb 0 (length (referrers_of snap b))
            && (kept (new_plan snap options now).evicted (referrers_of snap b) == 0))
  unfolding new_plan
  freed_exact b = ground (arith, bounded.tracks.frees_once b, bounded.tracks.counters b)

  -- The bytes it promises are those of the blobs with a referrer that is kept, and of the blobs
  -- that nothing references within their grace period.
  pub bytes_after_exact :
      (new_plan snap options now).bytes_after
      ≡ live_bytes snap (kept_counts snap (new_plan snap options now).evicted)
        + protected_bytes snap now
  unfolding new_plan
  bytes_after_exact =
      rw
        (sym (
          remaining-kept snap (protected_bytes snap now) (after_oldest snap options now)
            bounded.tracks))
        bounded.tracks.accounts

  -- With a budget for executables, the blobs that only executables reference and keep fit in it.
  pub executables_fit :
      (budget : ℕ)
      → options.max_executable_bytes ≡ some budget
      → live_executable snap (kept_counts snap (new_plan snap options now).evicted) ≤ budget
  unfolding new_plan
  executables_fit budget e =
      let f = frugal budget e in
      let mid : (after_executables snap options now).executable_bytes ≤ budget = elim f.met [
        | inl low ↦ low
        | inr done ↦
            let z =
              all_executables_evicted snap (protected_bytes snap now)
                (after_executables snap options now) f.tracks s (λ u h k. done u (listed u h) k)
                f.executables in
            omega arith
      ] in
      let less =
        live_mono (executable_weight snap) 0
          (kept_counts snap (after_oldest snap options now).evicted)
          (kept_counts snap (after_executables snap options now).evicted)
          (length-map (kept (after_oldest snap options now).evicted) snap.referrers
            ∙ sym (length-map (kept (after_executables snap options now).evicted) snap.referrers))
          (λ i. omega (
            arith,
            get_or-map (kept (after_oldest snap options now).evicted) [] snap.referrers i,
            get_or-map (kept (after_executables snap options now).evicted) [] snap.referrers i,
            kept_mono (after_executables snap options now).evicted
                (after_oldest snap options now).evicted (referrers_of snap i) bounded.still_evicted,
          )) in
      let same = ap (live (executable_weight snap) 0) (
        remaining-kept snap (protected_bytes snap now) (after_executables snap options now)
          f.tracks) in
      omega (arith, f.executables.exact)

  -- The overall budget is met, or nothing is left but blobs within their grace period.
  pub budget_met :
      ((new_plan snap options now).bytes_after ≤ options.max_bytes)
      ⊎ (((u : ℕ)
            → u < length snap.units
            → get_or false (new_plan snap options now).evicted u ≡ true)
          × ((new_plan snap options now).bytes_after ≡ protected_bytes snap now))
  unfolding new_plan
  budget_met = elim bounded.met [
    | inl low ↦ inl low
    | inr done ↦ inr (
      λ u h. done u (listed u h),
      all_evicted snap (protected_bytes snap now) (after_oldest snap options now) bounded.tracks s
          (λ u h. done u (listed u h)),
    )
  ]

  -- A candidate of an older protocol than the oldest one that is kept is evicted whatever the budget.
  pub obsolete_evicted :
      (u : ℕ)
      → u < length snap.units
      → obsolete options (unit_at snap u) ≡ true
      → get_or false (new_plan snap options now).evicted u ≡ true
  unfolding new_plan after_oldest
  obsolete_evicted u h o =
      obsolete-IsEvicted snap options (protected_bytes snap now) (eviction_order snap options)
        (after_executables snap options now) u s below middle
        (IsSorted-ObsoleteFirst snap options (eviction_order snap options)
          (eviction_order-IsSorted snap options))
        (listed u h) o

  -- The overall budget never evicts a record while one that goes before it in the order is kept: of
  -- the later ones only those are evicted that the budget of the executables has taken.
  pub least_recent_first :
      (v u : ℕ)
      → v < length snap.units
      → evicts_before snap options v u ≡ true
      → v ≢ u
      → get_or false (new_plan snap options now).evicted v ≡ false
      → get_or false (new_plan snap options now).evicted u
        ≡ get_or false (after_executables snap options now).evicted u
  unfolding new_plan after_oldest
  least_recent_first v u h le ne k =
      kept_protects snap options (protected_bytes snap now) (eviction_order snap options)
        (after_executables snap options now) v u s below middle
        (eviction_order-IsSorted snap options) (listed v h) k le ne
