-- ===== src/Gc/Recent.antt =====
-- The least recently used records go first: crates/bellows-core/src/gc.rs, `Plan::new`.
use bellows.Prelude.{
  ℕ, ◌<◌, ◌≡◌, ◌≢◌, refl, ap, ◌∙◌, subst, true, false, ◌&&◌, not, List, [], ◌∷◌, count, length,
  get_or, leb, ◌==◌, ==_iff, arith, Bool-cases, inl, inr, All, get_or-set_ne,
}
use bellows.Prelude.Sort.{IsSorted}
use bellows.Gc.State.{Snapshot, GcOptions}
use bellows.Gc.Plan.{Evicting, evict, unit_at, evict_oldest, obsolete, evicts_before}
use bellows.Gc.Counts.{is}
use bellows.Gc.Tracks.{IsSnapshot, Tracks, evict-Tracks, evict-marks}
use bellows.Gc.Order.{Below}
use bellows.Gc.Oldest.{ObsoleteFirst, evict_oldest-Bounded}
use bellows.Gc.Budget.{IsEvicted, evict_self}

All_at : (P : ℕ → Type 0) (v : ℕ) (us : List ℕ) → All P us → 0 < count (is v) us → P v
All_at P v [] a h = absurd (omega arith)
All_at P v (u ∷ us) a h = elim (Bool-cases (u == v)) [
  | inl q ↦ subst P ((==_iff u v).0 q) a.0
  | inr q ↦ All_at P v us a.1 (ground (arith, q, h))
]

evicts_before_antisym :
    (snap : Snapshot) (options : GcOptions) (a b : ℕ)
    → evicts_before snap options a b ≡ true
    → evicts_before snap options b a ≡ true
    → a ≡ b
unfolding evicts_before
evicts_before_antisym snap options a b h k = ground arith

obsolete_later :
    (snap : Snapshot) (options : GcOptions) (a b : ℕ)
    → evicts_before snap options a b ≡ true
    → obsolete options (unit_at snap a) ≡ false
    → obsolete options (unit_at snap b) ≡ false
unfolding evicts_before
obsolete_later snap options a b h o = ground (arith, o)

pub IsSorted-ObsoleteFirst :
    (snap : Snapshot) (options : GcOptions) (us : List ℕ)
    → IsSorted (evicts_before snap options) us
    → ObsoleteFirst snap options us
IsSorted-ObsoleteFirst snap options [] s = tt
IsSorted-ObsoleteFirst snap options (u ∷ us) s = (
  λ o v h.
      obsolete_later snap options u v
        (All_at (λ w. evicts_before snap options u w ≡ true) v us s.0 h) o,
  IsSorted-ObsoleteFirst snap options us s.1,
)

-- A unit that is kept protects those that come after it.
pub kept_protects :
    (snap : Snapshot) (options : GcOptions) (rest : ℕ) (us : List ℕ) (e : Evicting) (v u : ℕ)
    → IsSnapshot snap
    → Below (length snap.units) us
    → Tracks snap rest e
    → IsSorted (evicts_before snap options) us
    → 0 < count (is v) us
    → get_or false (evict_oldest snap options us e).evicted v ≡ false
    → evicts_before snap options v u ≡ true
    → v ≢ u
    → get_or false (evict_oldest snap options us e).evicted u ≡ get_or false e.evicted u
unfolding evict_oldest
kept_protects snap options rest [] e v u s b t o m k le ne = absurd (omega arith)
kept_protects snap options rest (x ∷ us) e v u s b t o m k le ne =
    elim (Bool-cases
      (leb e.bytes_after options.max_bytes && not (obsolete options (unit_at snap x)))) [
        | inl low ↦ rw (low, evict_oldest) refl
        | inr high ↦
            let t' = evict-Tracks snap rest x e s b.0 t in
            let k' = rw (high, evict_oldest) at k in
            rw (high, evict_oldest)
              (elim (Bool-cases (x == v)) [
                | inl q ↦
                    let w = evict_oldest-Bounded snap options rest us (evict snap x e) s b.1 t' in
                    let gone = w.still_evicted v (
                      subst (IsEvicted (evict snap x e)) ((==_iff x v).0 q)
                        (evict_self snap x e (omega (arith, b.0, t.all_units)))) in
                    absurd (cc)
                | inr q ↦
                    let below =
                      All_at (λ w. evicts_before snap options x w ≡ true) v us o.0
                        (ground (arith, q, m)) in
                    let ne_u : x ≢ u = λ p. ne (
                      evicts_before_antisym snap options v u le
                        (subst (λ w. evicts_before snap options w v ≡ true) p below)) in
                    kept_protects snap options rest us (evict snap x e) v u s b.1 t' o.1
                      (ground (arith, q, m)) k' le ne
                    ∙ ap (λ l. get_or false l u) (evict-marks snap x e)
                    ∙ get_or-set_ne false e.evicted x u true ne_u
              ])
      ]
