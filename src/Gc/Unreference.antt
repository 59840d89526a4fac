-- ===== src/Gc/Unreference.antt =====
-- One reference that an eviction takes away: crates/bellows-core/src/gc.rs, the loop in `evict`.
use bellows.Prelude.{
  ℕ, zero, suc, ◌+◌, ◌<◌, ◌≡◌, Bool, true, List, [], ◌∷◌, bit, count, length, get_or, set, ltb,
  ◌==◌, arith, Bool-cases, inl, inr, get_or-set_self, get_or-set_ne, length-set, count-append, Bool,
}
use bellows.Gc.State.{Snapshot, u32_mod, is_executable}
use bellows.Gc.Plan.{
  Evicting, unreference, one_less, blob_bytes, unit_at, is_only_executable, referrers_of,
}
use bellows.Gc.Counts.{is, live_bytes, live-set, executable_weight, live_executable}

abbrev pub frees : ℕ → ℕ × ℕ → Bool
frees b f = f.0 == b

abbrev pub times_freed : ℕ → List (ℕ × ℕ) → ℕ
times_freed b fs = count (frees b) fs

-- A counter above 0 belongs to a blob.
pub lt_of_counted : (rs : List ℕ) (i : ℕ) → 0 < get_or 0 rs i → i < length rs
lt_of_counted [] i h = absurd (omega arith)
lt_of_counted (r ∷ rs) zero h = omega arith
lt_of_counted (r ∷ rs) (suc i) h = omega (arith, lt_of_counted rs i h)

pub one_less_lem : (r : ℕ) → 0 < r → r < u32_mod → one_less r + 1 ≡ r
one_less_lem r p h = omega arith

pub evicted-unreference :
    (snap : Snapshot) (index x : ℕ) (e : Evicting)
    → (unreference snap index x e).evicted ≡ e.evicted
unfolding unreference
evicted-unreference snap index x e = ground arith

module _ (snap : Snapshot) (index x : ℕ) (e : Evicting) (some_left : 0 < get_or 0 e.remaining x)
    (fits : get_or 0 e.remaining x < u32_mod) where
  abbrev after : Evicting
  after = unreference snap index x e

  abbrev left : ℕ
  left = get_or 0 e.remaining x

  -- Nothing but the counter of the blob is changed, and that falls by 1.
  remaining-unreference : after.remaining ≡ set e.remaining x (one_less left)
  unfolding unreference
  remaining-unreference = ground arith

  pub length-unreference : length after.remaining ≡ length e.remaining
  length-unreference = rw remaining-unreference (length-set e.remaining x (one_less left))

  pub counter-unreference :
      (b : ℕ) → get_or 0 after.remaining b + bit (is b x) ≡ get_or 0 e.remaining b
  counter-unreference b = rw remaining-unreference (elim (Bool-cases (x == b)) [
    | inl q ↦ ground (
      arith,
      get_or-set_self 0 e.remaining x (one_less left) (lt_of_counted e.remaining x some_left),
      one_less_lem left some_left fits,
    )
    | inr q ↦
        rw q
          (ground (arith, get_or-set_ne 0 e.remaining x b (one_less left) (λ p. ground (arith, p))))
  ])

  -- A blob is freed at the moment that its counter reaches 0.
  pub freed-unreference :
      (b : ℕ)
      → times_freed b after.freed + bit (ltb 0 (get_or 0 after.remaining b))
        ≡ times_freed b e.freed + bit (ltb 0 (get_or 0 e.remaining b))
  unfolding unreference
  freed-unreference b = elim (Bool-cases (one_less left == 0)) [
    | inl z ↦
        ground (arith, z, counter-unreference b, count-append (frees b) e.freed ((x, index) ∷ []))
    | inr z ↦ ground (arith, z, counter-unreference b, one_less_lem left some_left fits)
  ]

  -- And its bytes are counted off then.
  pub bytes-unreference :
      (rest : ℕ)
      → e.bytes_after ≡ live_bytes snap e.remaining + rest
      → after.bytes_after ≡ live_bytes snap after.remaining + rest
  unfolding unreference
  bytes-unreference rest h = ground (
    arith,
    live-set (blob_bytes snap) 0 e.remaining x (one_less left)
        (lt_of_counted e.remaining x some_left),
    one_less_lem left some_left fits,
  )

  -- So are those of the blobs that only executables reference, if the blob whose counter reaches 0
  -- is one of them.
  pub executables-unreference :
      is_executable (unit_at snap index).kind ≡ true
      → (left ≡ 1 → is_only_executable snap (referrers_of snap x) ≡ true)
      → e.executable_bytes ≡ live_executable snap e.remaining
      → after.executable_bytes ≡ live_executable snap after.remaining
  unfolding unreference
  executables-unreference k only h = ground (
    arith,
    live-set (executable_weight snap) 0 e.remaining x (one_less left)
        (lt_of_counted e.remaining x some_left),
    one_less_lem left some_left fits,
  )
