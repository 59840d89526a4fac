-- ===== src/Gc/Budget.antt =====
-- The budget of the executables: crates/bellows-core/src/gc.rs, the first loop of `Plan::new`.
use bellows.Prelude.{
  ℕ, zero, suc, ◌<◌, ◌≤◌, ◌≡◌, ◌∙◌, subst, Bool, true, false, List, [], ◌∷◌, count, length, get_or,
  set, leb, leb→le, ◌==◌, ==_iff, arith, Bool-cases, inl, inr, ◌⊎◌, get_or-set_self, get_or-set_ne,
}
use bellows.Gc.State.{Snapshot, is_executable}
use bellows.Gc.Plan.{Evicting, evict, unit_at, evict_executables}
use bellows.Gc.Counts.{is}
use bellows.Gc.Tracks.{IsSnapshot, Tracks, evict-Tracks, evict-marks}
use bellows.Gc.Executables.{TracksExecutables, evict-TracksExecutables}
use bellows.Gc.Order.{Below}

abbrev pub IsEvicted : Evicting → ℕ → Type 0
IsEvicted e u = get_or false e.evicted u ≡ true

lt_of_marked : (xs : List Bool) (i : ℕ) → get_or false xs i ≡ true → i < length xs
lt_of_marked [] i h = cc
lt_of_marked (x ∷ xs) zero h = omega arith
lt_of_marked (x ∷ xs) (suc i) h = omega (arith, lt_of_marked xs i h)

get_or-set-true :
    (xs : List Bool) (i j : ℕ)
    → i ≡ j
    → get_or false xs j ≡ true
    → get_or false (set xs i true) j ≡ true
get_or-set-true xs i j e h = rw e (get_or-set_self false xs j true (lt_of_marked xs j h))

pub evict-IsEvicted :
    (snap : Snapshot) (u v : ℕ) (e : Evicting) → IsEvicted e v → IsEvicted (evict snap u e) v
evict-IsEvicted snap u v e h = rw (evict-marks snap u e) (elim (Bool-cases (u == v)) [
  | inl q ↦ get_or-set-true e.evicted u v ((==_iff u v).0 q) h
  | inr q ↦ get_or-set_ne false e.evicted u v true (λ p. ground (arith, p)) ∙ h
])

pub evict_self :
    (snap : Snapshot) (u : ℕ) (e : Evicting) → u < length e.evicted → IsEvicted (evict snap u e) u
evict_self snap u e h = rw (evict-marks snap u e) (get_or-set_self false e.evicted u true h)

-- What the loop reaches.
pub record Frugal (snap : Snapshot) (rest budget : ℕ) (us : List ℕ) (e e' : Evicting) : Type 0 where
  pub tracks : Tracks snap rest e'
  pub executables : TracksExecutables snap e'
  pub still_evicted : (u : ℕ) → IsEvicted e u → IsEvicted e' u
  pub met :
      (e'.executable_bytes ≤ budget)
      ⊎ ((u : ℕ)
          → 0 < count (is u) us
          → is_executable (unit_at snap u).kind ≡ true
          → IsEvicted e' u)

pub evict_executables-Frugal :
    (snap : Snapshot) (rest budget : ℕ) (us : List ℕ) (e : Evicting)
    → IsSnapshot snap
    → Below (length snap.units) us
    → Tracks snap rest e
    → TracksExecutables snap e
    → Frugal snap rest budget us e (evict_executables snap budget us e)
unfolding evict_executables
evict_executables-Frugal snap rest budget [] e s b t x = record {
  tracks = t;
  executables = x;
  still_evicted = λ u h. h;
  met = inr (λ u h k. absurd (omega arith));
}
evict_executables-Frugal snap rest budget (u ∷ us) e s b t x =
    elim (Bool-cases (leb e.executable_bytes budget)) [
      | inl low ↦
          rw (low, evict_executables)
            (record {
              tracks = t;
              executables = x;
              still_evicted = λ u h. h;
              met = inl (leb→le e.executable_bytes budget low);
            })
      | inr high ↦ elim (Bool-cases (is_executable (unit_at snap u).kind)) [
        | inl k ↦
            let m =
              evict_executables-Frugal snap rest budget us (evict snap u e) s b.1
                (evict-Tracks snap rest u e s b.0 t)
                (evict-TracksExecutables snap rest u e s b.0 k t x) in
            rw (high, k, evict_executables)
              (record {
                tracks = m.tracks;
                executables = m.executables;
                still_evicted = λ v h. m.still_evicted v (evict-IsEvicted snap u v e h);
                met = elim m.met [
                  | inl low ↦ inl low
                  | inr done ↦ inr (λ v h kv. elim (Bool-cases (u == v)) [
                    | inl q ↦ m.still_evicted v (
                        subst (IsEvicted (evict snap u e)) ((==_iff u v).0 q)
                          (evict_self snap u e (omega (arith, b.0, t.all_units))))
                    | inr q ↦ done v (ground (arith, q, h)) kv
                  ])
                ];
              })
        | inr k ↦
            let m = evict_executables-Frugal snap rest budget us e s b.1 t x in
            rw (high, k, evict_executables)
              (record {
                tracks = m.tracks;
                executables = m.executables;
                still_evicted = m.still_evicted;
                met = elim m.met [
                  | inl low ↦ inl low
                  | inr done ↦ inr (λ v h kv. elim (Bool-cases (u == v)) [
                    | inl q ↦
                        let k' =
                          subst (λ w. is_executable (unit_at snap w).kind ≡ false)
                            ((==_iff u v).0 q) k in
                        cc
                    | inr q ↦ done v (ground (arith, q, h)) kv
                  ])
                ];
              })
      ]
    ]
