-- ===== src/Gc/Tracks.antt =====
-- The counters of an eviction against the references themselves: crates/bellows-core/src/gc.rs,
-- `evict`.
use bellows.Prelude.{
  ℕ, zero, suc, ◌+◌, ◌<◌, ◌≤◌, ◌≡◌, refl, sym, ap, ◌∙◌, Bool, true, false, not, List, [], ◌∷◌, bit,
  count, length, get_or, set, ltb, ==_iff, arith, Bool-cases, inl, inr, length-set, count-le-length,
  get_or-beyond,
}
use bellows.Gc.State.{Snapshot, u32_mod, no_unit}
use bellows.Gc.Plan.{Evicting, unreference, unreference_all, evict, unit_at, referrers_of}
use bellows.Gc.Counts.{is, kept, kept-set, live_bytes}
use bellows.Gc.Unreference.{
  times_freed, evicted-unreference, length-unreference, counter-unreference, freed-unreference,
  bytes-unreference,
}

-- A snapshot whose two views of the references agree: a unit names a blob exactly as often as the
-- blob's list names the unit, at most once.
pub record IsSnapshot (snap : Snapshot) : Type 0 where
  pub sized : length snap.referrers ≡ length snap.blobs
  pub few : length snap.units < u32_mod
  pub paired : (u b : ℕ) → count (is b) (unit_at snap u).blobs ≡ count (is u) (referrers_of snap b)
  pub single : (u b : ℕ) → count (is u) (referrers_of snap b) ≤ 1
  pub short : (b : ℕ) → length (referrers_of snap b) ≤ length snap.units

-- The counters tell which referrers are left, what is freed, and what is left of the bytes.
pub record Tracks (snap : Snapshot) (rest : ℕ) (e : Evicting) : Type 0 where
  pub all_units : length e.evicted ≡ length snap.units
  pub all_blobs : length e.remaining ≡ length snap.referrers
  pub counters : (b : ℕ) → get_or 0 e.remaining b ≡ kept e.evicted (referrers_of snap b)
  pub frees_once :
      (b : ℕ)
      → times_freed b e.freed + bit (ltb 0 (get_or 0 e.remaining b))
        ≡ bit (ltb 0 (length (referrers_of snap b)))
  pub accounts : e.bytes_after ≡ live_bytes snap e.remaining + rest

-- Each reference of a list is taken away once.
pub record Unreferences (snap : Snapshot) (rest : ℕ) (bs : List ℕ) (e e' : Evicting) : Type 0 where
  pub same_evicted : e'.evicted ≡ e.evicted
  pub same_length : length e'.remaining ≡ length e.remaining
  pub counts_down : (b : ℕ) → get_or 0 e'.remaining b + count (is b) bs ≡ get_or 0 e.remaining b
  pub frees_rest :
      (b : ℕ)
      → times_freed b e'.freed + bit (ltb 0 (get_or 0 e'.remaining b))
        ≡ times_freed b e.freed + bit (ltb 0 (get_or 0 e.remaining b))
  pub still_accounts :
      e.bytes_after ≡ live_bytes snap e.remaining + rest
      → e'.bytes_after ≡ live_bytes snap e'.remaining + rest

pub unreference_all-Unreferences :
    (snap : Snapshot) (rest index : ℕ) (bs : List ℕ) (e : Evicting)
    → ((b : ℕ) → count (is b) bs ≤ get_or 0 e.remaining b)
    → ((b : ℕ) → get_or 0 e.remaining b < u32_mod)
    → Unreferences snap rest bs e (unreference_all snap index bs e)
unfolding unreference_all
unreference_all-Unreferences snap rest index [] e enough fits = record {
  same_evicted = refl;
  same_length = refl;
  counts_down = λ b. omega arith;
  frees_rest = λ b. refl;
  still_accounts = λ h. h;
}
unreference_all-Unreferences snap rest index (x ∷ bs) e enough fits =
    let left : 0 < get_or 0 e.remaining x = ground (arith, enough x, (==_iff x x).1 refl) in
    let step = λ (b : ℕ). counter-unreference snap index x e left (fits x) b in
    let more =
      unreference_all-Unreferences snap rest index bs (unreference snap index x e)
        (λ b. ground (arith, step b, enough b)) (λ b. omega (arith, step b, fits b)) in
    record {
      same_evicted = more.same_evicted ∙ evicted-unreference snap index x e;
      same_length = more.same_length ∙ length-unreference snap index x e left (fits x);
      counts_down = λ b. omega (arith, step b, more.counts_down b);
      frees_rest = λ b. more.frees_rest b ∙ freed-unreference snap index x e left (fits x) b;
      still_accounts =
          λ h. more.still_accounts (bytes-unreference snap index x e left (fits x) rest h);
    }

unit_beyond : (snap : Snapshot) (u : ℕ) → length snap.units ≤ u → (unit_at snap u).blobs ≡ []
unit_beyond snap u h = rw (get_or-beyond no_unit snap.units u h)

-- Only units of the snapshot refer to a blob.
pub lt_of_referrer :
    (snap : Snapshot) (u b : ℕ)
    → IsSnapshot snap
    → 0 < count (is u) (referrers_of snap b)
    → u < length snap.units
lt_of_referrer snap u b s h = elim (Bool-cases (ltb u (length snap.units))) [
  | inl q ↦ ground arith
  | inr q ↦
      let e : count (is b) (unit_at snap u).blobs ≡ 0 =
        ap (count (is b)) (unit_beyond snap u (ground arith)) in
      absurd (omega (arith, s.paired u b, e))
]

-- Evicting a unit keeps the counters in step with the references.
pub evict-Tracks :
    (snap : Snapshot) (rest u : ℕ) (e : Evicting)
    → IsSnapshot snap
    → u < length snap.units
    → Tracks snap rest e
    → Tracks snap rest (evict snap u e)
unfolding evict
evict-Tracks snap rest u e s lt t = elim (Bool-cases (get_or false e.evicted u)) [
  | inl gone ↦ rw (gone, evict) t
  | inr there ↦
      let marked : Evicting = record e { evicted = set e.evicted u true } in
      let lose =
        λ (b : ℕ). kept-set e.evicted u (referrers_of snap b) there (omega (arith, t.all_units)) in
      let r =
        unreference_all-Unreferences snap rest u (unit_at snap u).blobs marked
          (λ b. omega (arith, t.counters b, lose b, s.paired u b))
          (λ b. omega (
            arith,
            t.counters b,
            count-le-length (λ v. not (get_or false e.evicted v)) (referrers_of snap b),
            s.short b,
            s.few,
          )) in
      rw (there, evict)
        (record {
          all_units = ap length r.same_evicted ∙ length-set e.evicted u true ∙ t.all_units;
          all_blobs = r.same_length ∙ t.all_blobs;
          counters = λ b.
              rw r.same_evicted
                (omega (arith, r.counts_down b, lose b, t.counters b, s.paired u b));
          frees_once = λ b. r.frees_rest b ∙ t.frees_once b;
          accounts = r.still_accounts t.accounts;
        })
]

evicted-unreference_all :
    (snap : Snapshot) (index : ℕ) (bs : List ℕ) (e : Evicting)
    → (unreference_all snap index bs e).evicted ≡ e.evicted
unfolding unreference_all
evicted-unreference_all snap index [] e = refl
evicted-unreference_all snap index (b ∷ bs) e =
    evicted-unreference_all snap index bs (unreference snap index b e)
    ∙ evicted-unreference snap index b e

set_marked :
    (evicted : List Bool) (u : ℕ) → get_or false evicted u ≡ true → set evicted u true ≡ evicted
set_marked [] u h = refl
set_marked (x ∷ xs) zero h = rw h
set_marked (x ∷ xs) (suc u) h = ap (λ r. x ∷ r) (set_marked xs u h)

-- Only its own mark changes.
pub evict-marks :
    (snap : Snapshot) (u : ℕ) (e : Evicting) → (evict snap u e).evicted ≡ set e.evicted u true
unfolding evict
evict-marks snap u e = elim (Bool-cases (get_or false e.evicted u)) [
  | inl gone ↦ rw (gone, evict) (sym (set_marked e.evicted u gone))
  | inr there ↦
      rw (there, evict)
        (evicted-unreference_all snap u (unit_at snap u).blobs
          (record e { evicted = set e.evicted u true }))
]
