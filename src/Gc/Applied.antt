-- ===== src/Gc/Applied.antt =====
-- What the application of a plan removes, and what it keeps: crates/bellows-core/src/gc.rs, `apply`,
-- `evict_from`.
use bellows.Prelude.{
  ℕ, ◌+◌, ◌-◌, ◌≤◌, ◌≡◌, refl, sym, Bool, true, false, ◌&&◌, not, Option, none, some, List, [], ◌∷◌,
  if◌then◌else◌, length, any, all, leb, ◌||◌, retain, count, ◌==◌, is_some, arith, Bool-cases,
  Option-cases, inl, inr,
}
use bellows.Prelude.Text.{Text, is_empty, text_eq}
use bellows.Prelude.Key.{text_key, same_iff, same_refl}
use bellows.Prelude.Map.{get, get-remove}
use bellows.Store.Records.{ActionCandidate, CandidateIndex}
use bellows.Gc.State.{Evictable, saturating_add, coarse_clock_slack_ms}
use bellows.Gc.Apply.{
  Recent, RecordFile, Deleting, evicts_candidate, evict_from, same_use, delete_blob, delete_batch,
}

abbrev pub reused : ℕ → Recent → Text → Option ℕ → Bool
reused started_ms recent x none = false
reused started_ms recent x (some modified) =
    leb started_ms (saturating_add modified coarse_clock_slack_ms) || any (text_eq x) recent.blobs

-- One deletion: the blob goes unless it has been reused, and every other stays.
get-delete_blob :
    (started_ms : ℕ) (recent : Recent) (b x : Text) (d : Deleting)
    → get x (delete_blob started_ms recent b d).files ≡ (
        if text_eq x b && not (reused started_ms recent x (get x d.files))
        then none
        else get x d.files)
unfolding delete_blob
get-delete_blob started_ms recent b x d = elim (Bool-cases (text_eq x b)) [
  | inl e ↦
      let q : x ≡ b = (same_iff x b).0 e in
      rw (sym q) (elim (Option-cases (get x d.files)) [
        | inl n ↦ rw (n, delete_blob) (ground (arith, n))
        | inr (m, n) ↦ rw (n, delete_blob) (ground (arith, n, get-remove x x d.files, same_refl x))
      ])
  | inr e ↦ elim (Option-cases (get b d.files)) [
    | inl n ↦ rw (n, delete_blob) (ground (arith, e))
    | inr (m, n) ↦ rw (n, delete_blob) (ground (arith, e, get-remove b x d.files))
  ]
]

-- A batch removes exactly the blobs of its list that nobody wrote, offered or used since the
-- snapshot began.
pub get-delete_batch :
    (started_ms : ℕ) (recent : Recent) (bs : List Text) (x : Text) (d : Deleting)
    → get x (delete_batch started_ms recent bs d).files ≡ (
        if any (text_eq x) bs && not (reused started_ms recent x (get x d.files))
        then none
        else get x d.files)
unfolding delete_batch
get-delete_batch started_ms recent [] x d = refl
get-delete_batch started_ms recent (b ∷ bs) x d =
    let step = get-delete_blob started_ms recent b x d in
    let more = get-delete_batch started_ms recent bs x (delete_blob started_ms recent b d) in
    rw (more, step) (ground arith)

abbrev pub candidates_of : Option RecordFile → List ActionCandidate
candidates_of (some (RecordFile.index i)) = i.candidates
candidates_of _ = []

-- A test that only recently used candidates pass.
abbrev pub OnlyRecent : Recent → (ActionCandidate → Bool) → Type 0
OnlyRecent recent p =
    (c : ActionCandidate)
    → p c ≡ true
    → any (same_use (c.static_key, c.action_key)) recent.uses ≡ true

not_evicted :
    (units : List Evictable) (recent : Recent) (c : ActionCandidate)
    → any (same_use (c.static_key, c.action_key)) recent.uses ≡ true
    → any (evicts_candidate recent c) units ≡ false
unfolding evicts_candidate
not_evicted [] recent c h = refl
not_evicted (u ∷ units) recent c h = elim (Option-cases u.candidate) [
  | inl n ↦ rw n (not_evicted units recent c h)
  | inr ((action, created), n) ↦ rw n (elim (Bool-cases (text_eq action c.action_key)) [
    | inl e ↦
        let q : action ≡ c.action_key = (same_iff action c.action_key).0 e in
        rw q (ground (arith, h, not_evicted units recent c h))
    | inr e ↦ rw e (not_evicted units recent c h)
  ])
]

count-retain_all :
    (units : List Evictable) (recent : Recent) (p : ActionCandidate → Bool)
    (cs : List ActionCandidate)
    → OnlyRecent recent p
    → count p (retain (λ c. not (any (evicts_candidate recent c) units)) cs) ≡ count p cs
count-retain_all units recent p [] h = refl
count-retain_all units recent p (c ∷ cs) h = elim (Bool-cases (p c)) [
  | inl e ↦
      rw (not_evicted units recent c (h c e))
        (ground (arith, e, count-retain_all units recent p cs h))
  | inr e ↦ ground (arith, e, count-retain_all units recent p cs h)
]

length-retain-le {ℓ} : {A : Type ℓ} (p : A → Bool) (xs : List A) → length (retain p xs) ≤ length xs
length-retain-le p [] = omega arith
length-retain-le p (x ∷ xs) = ground (arith, length-retain-le p xs)

empty_count {ℓ} : {A : Type ℓ} (p : A → Bool) (xs : List A) → is_empty xs ≡ true → count p xs ≡ 0
empty_count p [] h = refl
empty_count p (x ∷ xs) h = cc

empty_length {ℓ} : {A : Type ℓ} (xs : List A) → is_empty xs ≡ true → length xs ≡ 0
empty_length [] h = refl
empty_length (x ∷ xs) h = cc

-- An index that loses candidates keeps every one that was used since the journal was rotated, and
-- the count that is reported is that of the candidates that are gone.
pub evict_from_lem :
    (units : List Evictable) (recent : Recent) (i : CandidateIndex) (p : ActionCandidate → Bool)
    → all (λ u. not (is_some u.candidate)) units ≡ false
    → OnlyRecent recent p
    → let after = evict_from units recent (some (RecordFile.index i)) in
      (count p (candidates_of after.0) ≡ count p i.candidates)
      × (length (candidates_of after.0) + after.1 ≡ length i.candidates)
unfolding evict_from
evict_from_lem units recent i p some_candidate h =
    let kept = retain (λ c. not (any (evicts_candidate recent c) units)) i.candidates in
    let whole = count-retain_all units recent p i.candidates h in
    let fewer = length-retain-le (λ c. not (any (evicts_candidate recent c) units)) i.candidates in
    rw (some_candidate, evict_from)
      (elim (Bool-cases (length i.candidates - length kept == 0)) [
        | inl z ↦ rw (z, evict_from) (refl, omega arith)
        | inr z ↦ elim (Bool-cases (is_empty kept)) [
          | inl e ↦
              rw (z, e, evict_from)
                (ground (arith, empty_count p kept e, whole), ground (arith, empty_length kept e))
          | inr e ↦ rw (z, e, evict_from) (whole, omega arith)
        ]
      ])
