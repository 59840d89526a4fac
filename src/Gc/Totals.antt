-- ===== src/Gc/Totals.antt =====
-- The buckets of a report add up: crates/bellows-core/src/gc.rs, `Plan::buckets`.
use bellows.Prelude.{
  ℕ, ◌+◌, ◌≡◌, refl, Bool, Option, none, some, List, [], ◌∷◌, map, if◌then◌else◌, length, all,
  sum_of, count, bit, arith, Option-cases, Bool-cases, inl, inr, length-map,
}
use bellows.Prelude.Text.{Text, text_eq}
use bellows.Prelude.Key.{text_key}
use bellows.Prelude.Map.{IsMap, get, insert, values, insert-IsMap, Above-IsMap, get-below}
use bellows.Gc.State.{Evictable, Snapshot, Plan}
use bellows.Gc.Plan.{blob_bytes}
use bellows.Gc.Report.{
  GcBucket, Buckets, new_bucket, bucket_or, count_unit, count_units, add_exclusive, add_evicted,
  label_at, count_exclusive, count_freed, buckets,
}

-- What a value that is replaced counted for.
abbrev pub weight_of : (GcBucket → ℕ) → Option GcBucket → ℕ
weight_of f none = 0
weight_of f (some b) = f b

sum-insert :
    (f : GcBucket → ℕ) (k : Text) (w : GcBucket) (m : Buckets)
    → IsMap m
    → sum_of f (values (insert k w m)) + weight_of f (get k m) ≡ f w + sum_of f (values m)
unfolding get insert
sum-insert f k w [] s = omega arith
sum-insert f k w ((j, v) ∷ m) s =
    ground
      (arith, sum-insert f k w m (Above-IsMap j m s), get-below k j m s, text_key.eq_of_cmp k j)

abbrev pub records_of : GcBucket → ℕ
records_of b = b.records

abbrev pub evicted_of : GcBucket → ℕ
evicted_of b = b.evicted_records

-- The buckets hold these totals.
abbrev pub Holds : ℕ → ℕ → Buckets → Type 0
Holds r e m = IsMap m × (sum_of records_of (values m) ≡ r) × (sum_of evicted_of (values m) ≡ e)

count_unit-Holds :
    (group name : Text) (evicted : Bool) (r e : ℕ) (m : Buckets)
    → Holds r e m
    → Holds (r + 1) (e + bit evicted) (count_unit group name evicted m)
unfolding count_unit
count_unit-Holds group name evicted r e m (s, p, q) =
    let b = bucket_or (new_bucket group name) (get name m) in
    let w : GcBucket = record b {
      records = b.records + 1;
      evicted_records = if evicted then b.evicted_records + 1 else b.evicted_records;
    } in
    (
      insert-IsMap name w m s,
      ground (arith, sum-insert records_of name w m s, p),
      ground (arith, sum-insert evicted_of name w m s, q),
    )

count_units-Holds :
    (group : Text) (names : List Text) (evicted : List Bool) (r e : ℕ) (m : Buckets)
    → length names ≡ length evicted
    → Holds r e m
    → Holds (r + length names) (e + count (λ x. x) evicted) (count_units group names evicted m)
unfolding count_units
count_units-Holds group [] [] r e m h k = (k.0, omega arith, omega arith)
count_units-Holds group [] (x ∷ evicted) r e m h k = absurd (omega arith)
count_units-Holds group (name ∷ names) [] r e m h k = absurd (omega arith)
count_units-Holds group (name ∷ names) (x ∷ evicted) r e m h k =
    let (s, p, q) =
      count_units-Holds group names evicted (r + 1) (e + bit x) (count_unit group name x m)
        (omega arith) (count_unit-Holds group name x r e m k) in
    (s, omega arith, omega arith)

add_exclusive-Holds :
    (name : Text) (n r e : ℕ) (m : Buckets) → Holds r e m → Holds r e (add_exclusive name n m)
unfolding add_exclusive
add_exclusive-Holds name n r e m (s, p, q) = elim (Option-cases (get name m)) [
  | inl g ↦ rw (g, add_exclusive) (s, p, q)
  | inr (b, g) ↦
      let w : GcBucket = record b { exclusive_bytes = b.exclusive_bytes + n } in
      rw (g, add_exclusive)
        (
          insert-IsMap name w m s,
          ground (arith, sum-insert records_of name w m s, g, p),
          ground (arith, sum-insert evicted_of name w m s, g, q),
        )
]

add_evicted-Holds :
    (name : Text) (n r e : ℕ) (m : Buckets) → Holds r e m → Holds r e (add_evicted name n m)
unfolding add_evicted
add_evicted-Holds name n r e m (s, p, q) = elim (Option-cases (get name m)) [
  | inl g ↦ rw (g, add_evicted) (s, p, q)
  | inr (b, g) ↦
      let w : GcBucket = record b { evicted_bytes = b.evicted_bytes + n } in
      rw (g, add_evicted)
        (
          insert-IsMap name w m s,
          ground (arith, sum-insert records_of name w m s, g, p),
          ground (arith, sum-insert evicted_of name w m s, g, q),
        )
]

count_exclusive-Holds :
    (snap : Snapshot) (labels : List Text) (b : ℕ) (refs : List (List ℕ)) (r e : ℕ) (m : Buckets)
    → Holds r e m
    → Holds r e (count_exclusive snap labels b refs m)
unfolding count_exclusive
count_exclusive-Holds snap labels b [] r e m h = h
count_exclusive-Holds snap labels b ([] ∷ refs) r e m h =
    count_exclusive-Holds snap labels (b + 1) refs r e m h
count_exclusive-Holds snap labels b ((u ∷ us) ∷ refs) r e m h =
    elim (Bool-cases (all (λ v. text_eq (label_at labels v) (label_at labels u)) (u ∷ us))) [
      | inl t ↦
          rw (t, count_exclusive)
            (count_exclusive-Holds snap labels (b + 1) refs r e
              (add_exclusive (label_at labels u) (blob_bytes snap b) m)
              (add_exclusive-Holds (label_at labels u) (blob_bytes snap b) r e m h))
      | inr t ↦ rw (t, count_exclusive) (count_exclusive-Holds snap labels (b + 1) refs r e m h)
    ]

count_freed-Holds :
    (snap : Snapshot) (labels : List Text) (fs : List (ℕ × ℕ)) (r e : ℕ) (m : Buckets)
    → Holds r e m
    → Holds r e (count_freed snap labels fs m)
unfolding count_freed
count_freed-Holds snap labels [] r e m h = h
count_freed-Holds snap labels ((blob, unit) ∷ fs) r e m h =
    count_freed-Holds snap labels fs r e
      (add_evicted (label_at labels unit) (blob_bytes snap blob) m)
      (add_evicted-Holds (label_at labels unit) (blob_bytes snap blob) r e m h)

-- Whatever the grouping, the buckets of a plan that marks each record hold each record once, and
-- each evicted record once.
pub buckets_total :
    (plan : Plan) (snap : Snapshot) (group : Text) (label : Evictable → Text)
    → length plan.evicted ≡ length snap.units
    → (sum_of records_of (buckets plan snap group label) ≡ length snap.units)
      × (sum_of evicted_of (buckets plan snap group label) ≡ count (λ x. x) plan.evicted)
unfolding buckets
buckets_total plan snap group label h =
    let labels = map label snap.units in
    let n = length-map label snap.units in
    let counted =
      count_units-Holds group labels plan.evicted 0 0 [] (omega (arith, n)) (tt, refl, refl) in
    let m = count_units group labels plan.evicted [] in
    let (s, p, q) =
      count_freed-Holds snap labels plan.freed (0 + length labels) (0 + count (λ x. x) plan.evicted)
        (count_exclusive snap labels 0 snap.referrers m)
        (count_exclusive-Holds snap labels 0 snap.referrers (0 + length labels)
          (0 + count (λ x. x) plan.evicted) m counted) in
    (omega (arith, n), omega arith)
