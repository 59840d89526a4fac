-- ===== src/Gc/Naming.antt =====
-- The blobs that a unit names: crates/bellows-core/src/gc.rs, `by_digest` and `add` in
-- `Snapshot::read`.
use bellows.Prelude.{
  ℕ, suc, ◌+◌, ◌%◌, ◌<◌, ◌≤◌, ◌≡◌, subst, false, not, some, List, [], ◌∷◌, bit, count, length, any,
  ◌==◌, ==_iff, arith, Bool-cases, Option-cases, inl, inr, All,
}
use bellows.Prelude.Key.{text_key}
use bellows.Prelude.Map.{Map, get, insert, get-insert}
use bellows.Prelude.Text.{Text}
use bellows.Gc.State.{u32_mod}
use bellows.Gc.Index.{BlobFile, index_digests, blobs_named}
use bellows.Gc.Counts.{is}

-- Every digest that is known names one of the blobs.
abbrev pub Names : ℕ → Map Text ℕ → Type 0
Names n m = (d : Text) (b : ℕ) → get d m ≡ some b → b < n

Names-insert : (d : Text) (b n : ℕ) (m : Map Text ℕ) → b < n → Names n m → Names n (insert d b m)
Names-insert d b n m h k = λ e c g. ground (arith, get-insert d e b m, k e c)

pub index_digests-Names :
    (n : ℕ) (fs : List BlobFile) (m : Map Text ℕ)
    → n + length fs < u32_mod
    → Names n m
    → Names (n + length fs) (index_digests n fs m)
unfolding index_digests
index_digests-Names n [] m h k = λ d b g. omega (arith, k d b g)
index_digests-Names n ((name, len, time) ∷ fs) m h k =
    let e : n + suc (length fs) ≡ n + 1 + length fs = omega arith in
    let next =
      index_digests-Names (n + 1) fs (insert name (n % u32_mod) m) (omega arith) (
        Names-insert name (n % u32_mod) (n + 1) m (omega arith)
          (λ d b g. omega (arith, k d b g))) in
    rw e next

pub blobs_named-Below :
    (n : ℕ) (m : Map Text ℕ) (seen : List ℕ) (ds : List Text)
    → Names n m
    → All (λ b. b < n) (blobs_named m seen ds)
unfolding blobs_named
blobs_named-Below n m seen [] k = tt
blobs_named-Below n m seen (d ∷ ds) k = elim (Option-cases (get d m)) [
  | inl e ↦ rw (e, blobs_named) (blobs_named-Below n m seen ds k)
  | inr (b, e) ↦ elim (Bool-cases (any (λ x. x == b) seen)) [
    | inl q ↦ rw (e, q, blobs_named) (blobs_named-Below n m seen ds k)
    | inr q ↦ rw (e, q, blobs_named) (k d b e, blobs_named-Below n m (b ∷ seen) ds k)
  ]
]

-- A unit names a blob once, however often its digests do.
pub count-blobs_named :
    (m : Map Text ℕ) (seen : List ℕ) (ds : List Text) (b : ℕ)
    → count (is b) (blobs_named m seen ds) ≤ bit (not (any (λ x. x == b) seen))
unfolding blobs_named
count-blobs_named m seen [] b = omega arith
count-blobs_named m seen (d ∷ ds) b = elim (Option-cases (get d m)) [
  | inl e ↦ rw (e, blobs_named) (count-blobs_named m seen ds b)
  | inr (c, e) ↦ elim (Bool-cases (any (λ x. x == c) seen)) [
    | inl q ↦ rw (e, q, blobs_named) (count-blobs_named m seen ds b)
    | inr q ↦
        rw (e, q, blobs_named)
          (elim (Bool-cases (c == b)) [
            | inl r ↦
                let q' = subst (λ w. any (λ x. x == w) seen ≡ false) ((==_iff c b).0 r) q in
                ground (arith, count-blobs_named m (c ∷ seen) ds b, q')
            | inr r ↦ ground (arith, count-blobs_named m (c ∷ seen) ds b, r)
          ])
  ]
]
