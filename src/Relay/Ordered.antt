-- ===== src/Relay/Ordered.antt =====
-- What an order promises its waiters: crates/bellows-cli/src/relay.rs, `Order`.
use bellows.Prelude.{
  ℕ, suc, ◌+◌, ◌%◌, ◌≤◌, ◌<◌, ◌≡◌, ◌↔◌, refl, Bool, true, false, ◌&&◌, ◌||◌, none, List, [], ◌∷◌,
  leb, ltb, ◌==◌, not, arith, is_some, Bool-cases, inl, inr,
}
use bellows.Prelude.Key.{nat_key}
use bellows.Prelude.Map.{Map, Above, IsMap, get, get-insert, get-remove, insert-IsMap, remove-IsMap}
use bellows.Relay.Order.{
  Order, Op, Wait, u64_mod, new, begin, finish, first_from, passed, wait_before, is_woken, apply,
  apply_all,
}

Above-get : (k p : ℕ) (m : Map ℕ (Unit {0})) → Above k m → p ≤ k → get p m ≡ none
unfolding get
Above-get k p [] a h = refl
Above-get k p ((j, u) ∷ m) a h = ground (arith, Above-get j p m a.1)

-- Nothing begun before `h` is unfinished, exactly if the first that is lies at or above `h`.
pub first_from_iff :
    (h : ℕ) (m : Map ℕ (Unit {0}))
    → IsMap m
    → (first_from h m ≡ true) ↔ ((q : ℕ) → q < h → get q m ≡ none)
unfolding get
first_from_iff h [] s = (λ e q lt. refl, λ f. refl)
first_from_iff h ((k, u) ∷ m) s = (
  λ e q lt. ground (arith, Above-get k q m s),
  λ f. elim (Bool-cases (leb h k)) [ inl e ↦ e | inr e ↦ absurd (ground (arith, e, f k)) ],
)

-- How many begin in a history, and whether one finishes in it.
abbrev pub begins : List Op → ℕ
begins [] = 0
begins (Op.begins ∷ ops) = suc (begins ops)
begins (Op.finishes q ∷ ops) = begins ops

abbrev pub finished : ℕ → List Op → Bool
finished q [] = false
finished q (Op.begins ∷ ops) = finished q ops
finished q (Op.finishes p ∷ ops) = q == p || finished q ops

-- What finishes was begun before, where `n` have begun at the start.
abbrev pub Proper : ℕ → List Op → Type 0
Proper n [] = Unit
Proper n (Op.begins ∷ ops) = Proper (suc n) ops
Proper n (Op.finishes q ∷ ops) = (q < n) × Proper n ops

pub apply-IsMap : (op : Op) (o : Order) → IsMap o.begun → IsMap (apply op o).begun
unfolding apply
apply-IsMap Op.begins o s = insert-IsMap o.next tt o.begun s
apply-IsMap (Op.finishes q) o s = remove-IsMap q o.begun s

pub apply_all-IsMap : (ops : List Op) (o : Order) → IsMap o.begun → IsMap (apply_all ops o).begun
unfolding apply_all
apply_all-IsMap [] o s = s
apply_all-IsMap (op ∷ ops) o s = apply_all-IsMap ops (apply op o) (apply-IsMap op o s)

begun-apply_all :
    (ops : List Op) (o : Order) (n q : ℕ)
    → o.next ≡ n
    → Proper n ops
    → n + begins ops < u64_mod
    → is_some (get q (apply_all ops o).begun)
      ≡ ((is_some (get q o.begun) || (leb n q && ltb q (n + begins ops))) && not (finished q ops))
unfolding apply_all apply begin finish
begun-apply_all [] o n q e p small = ground arith
begun-apply_all (Op.begins ∷ ops) o n q e p small = ground (
  arith,
  begun-apply_all ops (apply Op.begins o) (suc n) q (omega arith) p (omega arith),
  get-insert o.next q tt o.begun,
)
begun-apply_all (Op.finishes r ∷ ops) o n q e p small =
    ground
      (arith, begun-apply_all ops (apply (Op.finishes r) o) n q e p.1 small, get-remove r q o.begun)

-- The specification that `Order` implements: after operations on a new order that finish only what
-- they have begun and begin less than there are sequence numbers, a horizon is passed exactly when
-- everything that was begun before it has finished, in whatever order that was.
pub passed-apply_all :
    (ops : List Op) (h : ℕ)
    → Proper 0 ops
    → begins ops < u64_mod
    → (passed h (apply_all ops new) ≡ true)
      ↔ ((q : ℕ) → q < h → q < begins ops → finished q ops ≡ true)
unfolding passed new get
passed-apply_all ops h p small =
    let (to, from) = first_from_iff h (apply_all ops new).begun (apply_all-IsMap ops new tt) in
    let open_iff = λ (q : ℕ). begun-apply_all ops new 0 q refl p (omega arith) in
    (
      λ e q lt b. ground (arith, to e q lt, open_iff q),
      λ f. from (λ q lt. ground (arith, open_iff q, f q lt)),
    )

-- How often the version changes.
abbrev pub finishes_of : List Op → ℕ
finishes_of [] = 0
finishes_of (Op.begins ∷ ops) = finishes_of ops
finishes_of (Op.finishes q ∷ ops) = suc (finishes_of ops)

version-apply_all :
    (ops : List Op) (o : Order) (v : ℕ)
    → o.version ≡ v % u64_mod
    → (apply_all ops o).version ≡ (v + finishes_of ops) % u64_mod
unfolding apply_all apply begin finish
version-apply_all [] o v e = omega (arith, e)
version-apply_all (Op.begins ∷ ops) o v e = version-apply_all ops (apply Op.begins o) v e
version-apply_all (Op.finishes q ∷ ops) o v e =
    omega (arith, version-apply_all ops (apply (Op.finishes q) o) (suc v) (omega (arith, e)))

-- What only begins leaves what is unfinished unfinished.
begun_kept :
    (ops : List Op) (o : Order) (q : ℕ)
    → finishes_of ops ≡ 0
    → is_some (get q o.begun) ≡ true
    → is_some (get q (apply_all ops o).begun) ≡ true
unfolding apply_all apply begin
begun_kept [] o q e h = h
begun_kept (Op.begins ∷ ops) o q e h =
    begun_kept ops (apply Op.begins o) q e (ground (arith, get-insert o.next q tt o.begun))
begun_kept (Op.finishes r ∷ ops) o q e h = absurd (omega (arith, e))

not_passed_kept :
    (ops : List Op) (o : Order) (h : ℕ)
    → IsMap o.begun
    → finishes_of ops ≡ 0
    → passed h o ≡ false
    → passed h (apply_all ops o) ≡ false
unfolding passed
not_passed_kept ops o h s e b = elim (Bool-cases (first_from h (apply_all ops o).begun)) [
  | inr blocked ↦ blocked
  | inl clear ↦
      let all = (first_from_iff h (apply_all ops o).begun (apply_all-IsMap ops o s)).0 clear in
      let none_begun =
        (first_from_iff h o.begun s).1 (λ q lt. ground (arith, begun_kept ops o q e, all q lt)) in
      absurd (cc)
]

-- No wake-up is lost. A waiter looks at the version, then at the order, which others change between
-- and afterwards, with fewer finishes than a version counts. If it went to sleep and has not been
-- woken, its horizon is still not passed.
pub asleep_blocked :
    (before after : List Op) (o : Order) (h : ℕ)
    → IsMap o.begun
    → o.version < u64_mod
    → finishes_of before + finishes_of after < u64_mod
    → wait_before h o.version (apply_all before o) ≡ Wait.sleeps o.version
    → is_woken o.version (apply_all after (apply_all before o)) ≡ false
    → passed h (apply_all after (apply_all before o)) ≡ false
unfolding wait_before is_woken
asleep_blocked before after o h s small few slept unwoken =
    let mid = apply_all before o in
    let at_mid = version-apply_all before o o.version (omega arith) in
    let at_end = version-apply_all after mid (o.version + finishes_of before) at_mid in
    not_passed_kept after mid h (apply_all-IsMap before o s) (ground (arith, at_end, unwoken))
      (ground (arith, slept))
