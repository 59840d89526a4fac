-- ===== src/Gc/Empty.antt =====
-- What a collection reaches when it has evicted all it may: crates/bellows-core/src/gc.rs.
use bellows.Prelude.{
  ℕ, suc, ◌+◌, ◌<◌, ◌≡◌, refl, ap, ◌∙◌, subst, Bool, true, false, List, [], ◌∷◌, count, length,
  get_or, ◌==◌, ==_iff, arith, Bool-cases, inl, inr, all,
}
use bellows.Gc.State.{Snapshot, is_executable}
use bellows.Gc.Plan.{Evicting, unit_at, referrers_of, is_only_executable, blob_bytes}
use bellows.Gc.Counts.{is, kept, live, executable_weight, bytes_if}
use bellows.Gc.Tracks.{IsSnapshot, Tracks, lt_of_referrer}
use bellows.Gc.Executables.{TracksExecutables}
use bellows.Gc.Budget.{IsEvicted}

pub live_zero :
    (weight : ℕ → ℕ) (b : ℕ) (rs : List ℕ)
    → ((i : ℕ) → 0 < get_or 0 rs i → weight (b + i) ≡ 0)
    → live weight b rs ≡ 0
unfolding live
live_zero weight b [] h = refl
live_zero weight b (r ∷ rs) h =
    let here : 0 < r → weight b ≡ 0 = λ p. subst (λ n. weight n ≡ 0) (omega arith) (h 0 p) in
    ground (
      arith,
      here,
      live_zero weight (b + 1) rs (λ i p. subst (λ n. weight n ≡ 0) (omega arith) (h (suc i) p)),
    )

pub kept_none :
    (evicted : List Bool) (refs : List ℕ)
    → ((u : ℕ) → 0 < count (is u) refs → get_or false evicted u ≡ true)
    → kept evicted refs ≡ 0
kept_none evicted [] h = refl
kept_none evicted (u ∷ refs) h =
    let here : get_or false evicted u ≡ true = h u (ground (arith, (==_iff u u).1 refl)) in
    ground (arith, here, kept_none evicted refs (λ v p. h v (omega arith)))

all_of_count :
    (p : ℕ → Bool) (u : ℕ) (refs : List ℕ) → all p refs ≡ true → 0 < count (is u) refs → p u ≡ true
all_of_count p u [] a h = absurd (omega arith)
all_of_count p u (v ∷ refs) a h = elim (Bool-cases (v == u)) [
  | inl q ↦ subst (λ w. p w ≡ true) ((==_iff v u).0 q) (ground arith)
  | inr q ↦ all_of_count p u refs (ground arith) (ground (arith, q, h))
]

module _ (snap : Snapshot) (rest : ℕ) (e : Evicting) (t : Tracks snap rest e) (s : IsSnapshot snap)
    (all_gone : (u : ℕ)
      → u < length snap.units
      → is_executable (unit_at snap u).kind ≡ true
      → IsEvicted e u) where
  weight_zero : (i : ℕ) → 0 < get_or 0 e.remaining i → executable_weight snap i ≡ 0
  weight_zero i p = elim (Bool-cases (is_only_executable snap (referrers_of snap i))) [
    | inl q ↦ absurd (
        omega (
          arith,
          t.counters i,
          kept_none e.evicted (referrers_of snap i) (λ u c.
              all_gone u (lt_of_referrer snap u i s c) (
                all_of_count (λ w. is_executable (unit_at snap w).kind) u (referrers_of snap i)
                  (ground arith) c)),
        ))
    | inr q ↦ ap (λ c. bytes_if c (blob_bytes snap i)) q
  ]

  -- When all executables are evicted, no blob is left to executables alone.
  pub all_executables_evicted : TracksExecutables snap e → e.executable_bytes ≡ 0
  all_executables_evicted x =
      x.exact
      ∙ live_zero (executable_weight snap) 0 e.remaining
          (λ i p. subst (λ n. executable_weight snap n ≡ 0) (omega arith) (weight_zero i p))

-- When all units are evicted, no blob is referenced.
pub all_evicted :
    (snap : Snapshot) (rest : ℕ) (e : Evicting)
    → Tracks snap rest e
    → IsSnapshot snap
    → ((u : ℕ) → u < length snap.units → IsEvicted e u)
    → e.bytes_after ≡ rest
all_evicted snap rest e t s all_gone =
    let none_left : live (blob_bytes snap) 0 e.remaining ≡ 0 =
      live_zero (blob_bytes snap) 0 e.remaining (λ i p. absurd (
        omega (
          arith,
          t.counters i,
          kept_none e.evicted (referrers_of snap i)
              (λ u c. all_gone u (lt_of_referrer snap u i s c)),
        ))) in
    omega (arith, none_left, t.accounts)
