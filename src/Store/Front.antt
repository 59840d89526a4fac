-- ===== src/Store/Front.antt =====
-- What an index holds after a candidate was put in front: crates/bellows-core/src/lib.rs,
-- `put_candidate_unlocked`.
use bellows.Prelude.{
  ℕ, zero, suc, ◌≡◌, ◌≢◌, ◌≤◌, ◌⊎◌, refl, ap, max, not, List, [], ◌∷◌, ◌++◌, length, retain, arith,
  Bool-cases, inl, inr,
}
use bellows.Prelude.Text.{Text, text_eq}
use bellows.Prelude.Key.{text_key, same_iff}
use bellows.Store.Records.{ActionCandidate, CandidateIndex}
use bellows.Store.Contents.{with_candidate, take}

-- The second list is the first in its order, less the candidates of an action key.
pub data Without (key : Text) : List ActionCandidate → List ActionCandidate → Type 0 where
  nil : Without key [] []
  leave :
      (d : ActionCandidate) {ds es : List ActionCandidate}
      → d.action_key ≡ key
      → Without key ds es
      → Without key (d ∷ ds) es
  keep :
      (d : ActionCandidate) {ds es : List ActionCandidate}
      → d.action_key ≢ key
      → Without key ds es
      → Without key (d ∷ ds) (d ∷ es)

-- The new list begins with the candidate. Then come the old ones of other action keys in their order,
-- less the last ones, which are dropped only if there is no room for them.
pub record IsFront (c : ActionCandidate) (room : ℕ) (old new : List ActionCandidate) : Type 0 where
  pub rest : List ActionCandidate
  pub dropped : List ActionCandidate
  pub first : new ≡ c ∷ rest
  pub others : Without c.action_key old (rest ++ dropped)
  pub fits : length new ≤ room
  pub full : (dropped ≡ []) ⊎ (length new ≡ room)

retain-Without :
    (key : Text) (ds : List ActionCandidate)
    → Without key ds (retain (λ d. not (text_eq d.action_key key)) ds)
retain-Without key [] = nil
retain-Without key (d ∷ ds) = elim (Bool-cases (text_eq d.action_key key)) [
  | inl e ↦ rw e (leave d ((same_iff d.action_key key).0 e) (retain-Without key ds))
  | inr e ↦ rw e (
      keep d (λ q. let e' = (same_iff d.action_key key).1 q in absurd (cc)) (retain-Without key ds))
]

-- A list in two parts, the second of which is there only if the first is full.
take_split {ℓ} :
    {A : Type ℓ} (n : ℕ) (xs : List A)
    → (dropped : List A) × (take n xs ++ dropped ≡ xs)
      × (length (take n xs) ≤ n)
      × ((dropped ≡ []) ⊎ (length (take n xs) ≡ n))
take_split zero xs = (xs, refl, omega arith, inr refl)
take_split (suc n) [] = ([], refl, omega arith, inl refl)
take_split (suc n) (x ∷ xs) =
    let (dropped, e, l, f) = take_split n xs in
    (
      dropped,
      ap (λ r. x ∷ r) e,
      omega (arith, l),
      elim f [ inl q ↦ inl q | inr q ↦ inr (ap suc q) ],
    )

take-IsFront :
    (c : ActionCandidate) (room : ℕ) (old others : List ActionCandidate)
    → 1 ≤ room
    → Without c.action_key old others
    → IsFront c room old (take room (c ∷ others))
take-IsFront c zero old others h w = absurd (omega (arith, h))
take-IsFront c (suc n) old others h w =
    let (left, e, l, f) = take_split n others in
    record {
      rest = take n others;
      dropped = left;
      first = refl;
      others = rw e w;
      fits = omega (arith, l);
      full = elim f [ inl q ↦ inl q | inr q ↦ inr (ap suc q) ];
    }

pub with_candidate-IsFront :
    (c : ActionCandidate) (max_candidates : ℕ) (index : CandidateIndex)
    → IsFront c
        (max max_candidates 1)
        index.candidates
        (with_candidate c max_candidates index).candidates
unfolding with_candidate
with_candidate-IsFront c max_candidates index =
    take-IsFront c (max max_candidates 1) index.candidates _ (omega arith)
      (retain-Without c.action_key index.candidates)
