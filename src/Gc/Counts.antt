-- ===== src/Gc/Counts.antt =====
-- Independent descriptions of what a collection counts: the referrers that are kept, and the bytes
-- of the blobs that still have one. For crates/bellows-core/src/gc.rs, `Plan::new`.
use bellows.Prelude.{
  ℕ, zero, suc, ◌+◌, ◌<◌, ◌≡◌, ◌≢◌, refl, Bool, true, false, not, List, [], ◌∷◌, sym,
  get_or-set_self, get_or-set_ne, count, if◌then◌else◌, length, get_or, set, ltb, ◌==◌, arith,
  Bool-cases, inl, inr,
}
use bellows.Gc.State.{Snapshot}
use bellows.Gc.Plan.{blob_bytes, is_only_executable, referrers_of}

abbrev pub is : ℕ → ℕ → Bool
is a b = b == a

-- The referrers that are not evicted.
abbrev pub is_kept : List Bool → ℕ → Bool
is_kept evicted u = not (get_or false evicted u)

abbrev pub kept : List Bool → List ℕ → ℕ
kept evicted refs = count (is_kept evicted) refs

-- Evicting one more unit takes its references away.
pub kept-set :
    (evicted : List Bool) (u : ℕ) (refs : List ℕ)
    → get_or false evicted u ≡ false
    → u < length evicted
    → kept (set evicted u true) refs + count (is u) refs ≡ kept evicted refs
kept-set evicted u [] f lt = refl
kept-set evicted u (r ∷ refs) f lt = elim (Bool-cases (r == u)) [
  | inl e ↦
      let e' : r ≡ u = ground arith in
      rw (e', f)
        (ground (arith, kept-set evicted u refs f lt, get_or-set_self false evicted u true lt))
  | inr e ↦
      let ne : u ≢ r = λ q. ground (arith, sym q) in
      rw (e, get_or-set_ne false evicted u r true ne) (ground (arith, kept-set evicted u refs f lt))
]

-- What the blobs weigh, from number `b` on, that have a count above 0.
unfoldable pub live : (ℕ → ℕ) → ℕ → List ℕ → ℕ
live weight b [] = 0
live weight b (r ∷ rs) = (if ltb 0 r then weight b else 0) + live weight (b + 1) rs

abbrev pub bytes_if : Bool → ℕ → ℕ
bytes_if true n = n
bytes_if false n = 0

pub live-set :
    (weight : ℕ → ℕ) (b : ℕ) (rs : List ℕ) (i v : ℕ)
    → i < length rs
    → live weight b (set rs i v) + bytes_if (ltb 0 (get_or 0 rs i)) (weight (b + i))
      ≡ live weight b rs + bytes_if (ltb 0 v) (weight (b + i))
unfolding live
live-set weight b [] i v h = absurd (omega arith)
live-set weight b (r ∷ rs) zero v h = let e : b + 0 ≡ b = omega arith in rw e (ground arith)
live-set weight b (r ∷ rs) (suc i) v h =
    let e : b + suc i ≡ b + 1 + i = omega arith in
    rw e (ground (arith, live-set weight (b + 1) rs i v (omega arith)))

-- The bytes of all blobs, and of those that only executables reference.
abbrev pub live_bytes : Snapshot → List ℕ → ℕ
live_bytes snap rs = live (blob_bytes snap) 0 rs

abbrev pub executable_weight : Snapshot → ℕ → ℕ
executable_weight snap b =
    bytes_if (is_only_executable snap (referrers_of snap b)) (blob_bytes snap b)

abbrev pub live_executable : Snapshot → List ℕ → ℕ
live_executable snap rs = live (executable_weight snap) 0 rs
