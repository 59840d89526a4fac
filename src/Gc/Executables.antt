-- ===== src/Gc/Executables.antt =====
-- The bytes that only executables reference: crates/bellows-core/src/gc.rs, `executable_bytes`.
use bellows.Prelude.{
  ℕ, ◌<◌, ◌≤◌, ◌≡◌, refl, sym, ap, ◌∙◌, subst, Bool, true, false, List, [], ◌∷◌, bit, count, length,
  get_or, set, ◌==◌, ==_iff, arith, Bool-cases, inl, inr, all, count-le-length, get_or-set_ne,
}
use bellows.Gc.State.{Snapshot, u32_mod, is_executable}
use bellows.Gc.Plan.{
  Evicting, unreference, unreference_all, evict, unit_at, referrers_of, is_only_executable,
}
use bellows.Gc.Counts.{is, is_kept, kept, kept-set, live_executable}
use bellows.Gc.Unreference.{counter-unreference, executables-unreference}
use bellows.Gc.Tracks.{IsSnapshot, Tracks, evict-marks}

-- Only executables are evicted, and the counter is exact.
pub record TracksExecutables (snap : Snapshot) (e : Evicting) : Type 0 where
  pub exact : e.executable_bytes ≡ live_executable snap e.remaining
  pub only : (u : ℕ) → get_or false e.evicted u ≡ true → is_executable (unit_at snap u).kind ≡ true

all_executable :
    (snap : Snapshot) (evicted : List Bool) (refs : List ℕ)
    → ((u : ℕ) → get_or false evicted u ≡ true → is_executable (unit_at snap u).kind ≡ true)
    → kept evicted refs ≡ 0
    → all (λ u. is_executable (unit_at snap u).kind) refs ≡ true
all_executable snap evicted [] only h = refl
all_executable snap evicted (u ∷ refs) only h =
    ground (arith, only u, all_executable snap evicted refs only)

is_only_executable_of :
    (snap : Snapshot) (evicted : List Bool) (refs : List ℕ)
    → ((u : ℕ) → get_or false evicted u ≡ true → is_executable (unit_at snap u).kind ≡ true)
    → 0 < length refs
    → kept evicted refs ≡ 0
    → is_only_executable snap refs ≡ true
is_only_executable_of snap evicted [] only h k = absurd (omega arith)
is_only_executable_of snap evicted (u ∷ refs) only h k =
    all_executable snap evicted (u ∷ refs) only k

unreference_all-exact :
    (snap : Snapshot) (index : ℕ) (bs : List ℕ) (e : Evicting)
    → is_executable (unit_at snap index).kind ≡ true
    → ((b : ℕ) → count (is b) bs ≤ get_or 0 e.remaining b)
    → ((b : ℕ) → get_or 0 e.remaining b < u32_mod)
    → ((b : ℕ)
        → 0 < count (is b) bs
        → count (is b) bs ≡ get_or 0 e.remaining b
        → is_only_executable snap (referrers_of snap b) ≡ true)
    → e.executable_bytes ≡ live_executable snap e.remaining
    → (unreference_all snap index bs e).executable_bytes
      ≡ live_executable snap (unreference_all snap index bs e).remaining
unfolding unreference_all
unreference_all-exact snap index [] e k enough fits last h = h
unreference_all-exact snap index (x ∷ bs) e k enough fits last h =
    let here : bit (x == x) ≡ 1 = ap bit ((==_iff x x).1 refl) in
    let left : 0 < get_or 0 e.remaining x = omega (arith, enough x, here) in
    let step = λ (b : ℕ). counter-unreference snap index x e left (fits x) b in
    unreference_all-exact snap index bs (unreference snap index x e) k
      (λ b. omega (arith, step b, enough b)) (λ b. omega (arith, step b, fits b))
      (λ b p q. last b (omega arith) (omega (arith, step b)))
      (executables-unreference snap index x e left (fits x) k
        (λ one. last x (omega (arith, here)) (omega (arith, enough x, here))) h)

subst_kind :
    (snap : Snapshot) (u v : ℕ)
    → u ≡ v
    → is_executable (unit_at snap u).kind ≡ true
    → is_executable (unit_at snap v).kind ≡ true
subst_kind snap u v e k = subst (λ w. is_executable (unit_at snap w).kind ≡ true) e k

length_of_count : (u : ℕ) (refs : List ℕ) → 0 < count (is u) refs → 0 < length refs
length_of_count u refs h = omega (arith, count-le-length (is u) refs)

-- Evicting an executable keeps the counter exact.
pub evict-TracksExecutables :
    (snap : Snapshot) (rest u : ℕ) (e : Evicting)
    → IsSnapshot snap
    → u < length snap.units
    → is_executable (unit_at snap u).kind ≡ true
    → Tracks snap rest e
    → TracksExecutables snap e
    → TracksExecutables snap (evict snap u e)
unfolding evict
evict-TracksExecutables snap rest u e s lt k t x = elim (Bool-cases (get_or false e.evicted u)) [
  | inl gone ↦ rw (gone, evict) x
  | inr there ↦
      let lose =
        λ (b : ℕ). kept-set e.evicted u (referrers_of snap b) there (omega (arith, t.all_units)) in
      let only : (v : ℕ)
          → get_or false (set e.evicted u true) v ≡ true
          → is_executable (unit_at snap v).kind ≡ true =
        λ v m. elim (Bool-cases (u == v)) [
          | inl q ↦ subst_kind snap u v ((==_iff u v).0 q) k
          | inr q ↦
              x.only v (sym (get_or-set_ne false e.evicted u v true (λ p. ground (arith, p))) ∙ m)
        ] in
      record {
        exact =
            rw (there, evict)
              (unreference_all-exact snap u (unit_at snap u).blobs
                (record e { evicted = set e.evicted u true }) k
                (λ b. omega (arith, t.counters b, lose b, s.paired u b))
                (λ b. omega (
                  arith,
                  t.counters b,
                  count-le-length (is_kept e.evicted) (referrers_of snap b),
                  s.short b,
                  s.few,
                ))
                (λ b p q.
                  is_only_executable_of snap (set e.evicted u true) (referrers_of snap b) only
                    (length_of_count u (referrers_of snap b) (omega (arith, s.paired u b)))
                    (omega (arith, t.counters b, lose b, s.paired u b)))
                x.exact);
        only = λ v m. only v (sym (ap (λ l. get_or false l v) (evict-marks snap u e)) ∙ m);
      }
]
