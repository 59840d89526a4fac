-- ===== src/Gc/Oldest.antt =====
-- The loop over all records: crates/bellows-core/src/gc.rs, the last loop of `Plan::new`.
use bellows.Prelude.{
  ℕ, ◌<◌, ◌≤◌, ◌≡◌, sym, subst, true, false, ◌&&◌, not, List, [], ◌∷◌, count, length, leb, leb→le,
  ◌==◌, ==_iff, arith, Bool-cases, inl, inr, ◌⊎◌,
}
use bellows.Gc.State.{Snapshot, GcOptions}
use bellows.Gc.Plan.{Evicting, evict, unit_at, evict_oldest, obsolete}
use bellows.Gc.Counts.{is}
use bellows.Gc.Tracks.{IsSnapshot, Tracks, evict-Tracks}
use bellows.Gc.Order.{Below}
use bellows.Gc.Budget.{IsEvicted, evict-IsEvicted, evict_self}

-- What the loop reaches: the budget, or the end of its list. It passes every obsolete candidate.
pub record Bounded (snap : Snapshot) (options : GcOptions) (rest : ℕ) (us : List ℕ)
    (e e' : Evicting) : Type 0 where
  pub tracks : Tracks snap rest e'
  pub still_evicted : (u : ℕ) → IsEvicted e u → IsEvicted e' u
  pub met : (e'.bytes_after ≤ options.max_bytes) ⊎ ((u : ℕ) → 0 < count (is u) us → IsEvicted e' u)

pub evict_oldest-Bounded :
    (snap : Snapshot) (options : GcOptions) (rest : ℕ) (us : List ℕ) (e : Evicting)
    → IsSnapshot snap
    → Below (length snap.units) us
    → Tracks snap rest e
    → Bounded snap options rest us e (evict_oldest snap options us e)
unfolding evict_oldest
evict_oldest-Bounded snap options rest [] e s b t = record {
  tracks = t;
  still_evicted = λ u h. h;
  met = inr (λ u h. absurd (omega arith));
}
evict_oldest-Bounded snap options rest (u ∷ us) e s b t =
    elim (Bool-cases
      (leb e.bytes_after options.max_bytes && not (obsolete options (unit_at snap u)))) [
        | inl low ↦
            rw (low, evict_oldest)
              (record {
                tracks = t;
                still_evicted = λ v h. h;
                met = inl (ground (arith, leb→le e.bytes_after options.max_bytes));
              })
        | inr high ↦
            let m =
              evict_oldest-Bounded snap options rest us (evict snap u e) s b.1
                (evict-Tracks snap rest u e s b.0 t) in
            rw (high, evict_oldest)
              (record {
                tracks = m.tracks;
                still_evicted = λ v h. m.still_evicted v (evict-IsEvicted snap u v e h);
                met = elim m.met [
                  | inl low ↦ inl low
                  | inr done ↦ inr (λ v h. elim (Bool-cases (u == v)) [
                    | inl q ↦ m.still_evicted v (
                        subst (IsEvicted (evict snap u e)) ((==_iff u v).0 q)
                          (evict_self snap u e (omega (arith, b.0, t.all_units))))
                    | inr q ↦ done v (ground (arith, q, h))
                  ])
                ];
              })
      ]

-- The units of a list that stands in the order of eviction: after one that is not obsolete, none is.
abbrev pub ObsoleteFirst : Snapshot → GcOptions → List ℕ → Type 0
ObsoleteFirst snap options [] = Unit
ObsoleteFirst snap options (u ∷ us) =
    (obsolete options (unit_at snap u) ≡ false
      → (v : ℕ) → 0 < count (is v) us
      → obsolete options (unit_at snap v) ≡ false)
    × ObsoleteFirst snap options us

-- Every obsolete candidate is evicted.
pub obsolete-IsEvicted :
    (snap : Snapshot) (options : GcOptions) (rest : ℕ) (us : List ℕ) (e : Evicting) (v : ℕ)
    → IsSnapshot snap
    → Below (length snap.units) us
    → Tracks snap rest e
    → ObsoleteFirst snap options us
    → 0 < count (is v) us
    → obsolete options (unit_at snap v) ≡ true
    → IsEvicted (evict_oldest snap options us e) v
unfolding evict_oldest
obsolete-IsEvicted snap options rest [] e v s b t f h o = absurd (omega arith)
obsolete-IsEvicted snap options rest (u ∷ us) e v s b t f h o = elim (Bool-cases (u == v)) [
  | inl q ↦
      let o' = subst (λ w. obsolete options (unit_at snap w) ≡ true) (sym ((==_iff u v).0 q)) o in
      let m =
        evict_oldest-Bounded snap options rest us (evict snap u e) s b.1
          (evict-Tracks snap rest u e s b.0 t) in
      let here = m.still_evicted v (
        subst (IsEvicted (evict snap u e)) ((==_iff u v).0 q)
          (evict_self snap u e (omega (arith, b.0, t.all_units)))) in
      ground (arith, o', here)
  | inr q ↦ elim (Bool-cases (obsolete options (unit_at snap u))) [
    | inl ou ↦
        let rec =
          obsolete-IsEvicted snap options rest us (evict snap u e) v s b.1
            (evict-Tracks snap rest u e s b.0 t) f.1 (ground (arith, q, h)) o in
        ground (arith, ou, rec)
    | inr ou ↦ let no_more = f.0 ou v (ground (arith, q, h)) in cc
  ]
]
