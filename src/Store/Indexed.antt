-- ===== src/Store/Indexed.antt =====
-- Candidate indexes that are published: crates/bellows-core/src/lib.rs, `put_candidate`,
-- `read_candidates`.
use bellows.Prelude.{
  ◌⊎◌, ℕ, zero, suc, ◌≡◌, ◌≤◌, refl, sym, ap, max, Bool, false, not, Option, none, some, List, [],
  ◌∷◌, ◌++◌, length, retain, ltb, arith, Bool-cases, Option-cases, inl, inr,
}
use bellows.Prelude.Text.{Text, text_eq}
use bellows.Prelude.Key.{text_key, same_refl}
use bellows.Prelude.Map.{Map, get, insert, get-insert}
use bellows.Store.Error.{Error, Result, ok, fail_if, each}
use bellows.Store.Keys.{validate_content_key}
use bellows.Store.Records.{ActionCandidate, CandidateIndex}
use bellows.Store.Manifest.{Digests, validate_candidate_manifest}
use bellows.Store.Sound.{>>-ok}
use bellows.Store.Contents.{
  Host, Store, read_record, check_index, check_indexed, or_default, candidates_read,
  read_candidates, with_candidate, put_candidate, take,
}
use bellows.Store.Front.{IsFront, with_candidate-IsFront}
use bellows.Store.Published.{Result-cases}

each-retain {ℓ} :
    {A : Type ℓ} (f : A → Result (Unit {0})) (p : A → Bool) (xs : List A)
    → each f xs ≡ ok tt
    → each f (retain p xs) ≡ ok tt
each-retain f p [] h = refl
each-retain f p (x ∷ xs) h =
    let (a, b) = >>-ok (f x) _ h in
    elim (Bool-cases (p x)) [
      | inl q ↦ rw (q, a) (each-retain f p xs b)
      | inr q ↦ rw q (each-retain f p xs b)
    ]

each-take {ℓ} :
    {A : Type ℓ} (f : A → Result (Unit {0})) (n : ℕ) (xs : List A)
    → each f xs ≡ ok tt
    → each f (take n xs) ≡ ok tt
each-take f zero xs h = refl
each-take f (suc n) [] h = refl
each-take f (suc n) (x ∷ xs) h = let (a, b) = >>-ok (f x) _ h in rw a (each-take f n xs b)

length-take-le {ℓ} : {A : Type ℓ} (n : ℕ) (xs : List A) → length (take n xs) ≤ n
length-take-le zero xs = omega arith
length-take-le (suc n) [] = omega arith
length-take-le (suc n) (x ∷ xs) = omega (arith, length-take-le n xs)

-- The index with the new candidate passes the check that it is read by.
with_candidate-checked :
    (digests : Digests) (c : ActionCandidate) (max_candidates : ℕ) (index : CandidateIndex)
    → validate_candidate_manifest digests c ≡ ok tt
    → max_candidates ≤ 1024
    → each (check_indexed digests c.static_key) index.candidates ≡ ok tt
    → check_index digests c.static_key (with_candidate c max_candidates index) ≡ ok tt
unfolding with_candidate
with_candidate-checked digests c max_candidates index v few h =
    let n = max max_candidates 1 in
    let old = retain (λ d. not (text_eq d.action_key c.action_key)) index.candidates in
    let own : check_indexed digests c.static_key c ≡ ok tt = rw (v, same_refl c.static_key) refl in
    let all_checked : each (check_indexed digests c.static_key) (c ∷ old) ≡ ok tt = rw own (
      each-retain (check_indexed digests c.static_key)
        (λ d. not (text_eq d.action_key c.action_key)) index.candidates h) in
    let short : ltb 1024 (length (take n (c ∷ old))) ≡ false =
      ground (arith, length-take-le n (c ∷ old)) in
    rw short (each-take (check_indexed digests c.static_key) n (c ∷ old) all_checked)

-- What a read that succeeds has found, and that it leaves the store alone.
pub read_record_ok {ℓ} :
    {A : Type ℓ} (check : A → Result (Unit {0})) (key : Text) (files : Map Text (Option A))
    (o : Option A)
    → (read_record check key files).2 ≡ ok o
    → ((get key files ≡ none) × (o ≡ none) × (read_record check key files ≡ (files, false, ok o)))
      ⊎ ((r : A) × (get key files ≡ some (some r))
          × (o ≡ some r)
          × (check r ≡ ok tt)
          × (read_record check key files ≡ (files, false, ok o)))
unfolding read_record
read_record_ok check key files o h = elim (Option-cases (get key files)) [
  | inl n ↦
      let e = rw (n, read_record) at h in
      inl (n, cc, rw (n, read_record) (ap (λ r. (files, false, r)) e))
  | inr (none, n) ↦ let e = rw (n, read_record) at h in absurd (cc)
  | inr (some r, n) ↦ elim (Result-cases (check r)) [
    | inl (e, c) ↦ let d = rw (n, c, read_record) at h in absurd (cc)
    | inr (u, c) ↦
        let d = rw (n, c, read_record) at h in
        inr (r, n, cc, c, rw (n, c, read_record) (ap (λ r. (files, false, r)) d))
  ]
]

pub read_record_written {ℓ} :
    {A : Type ℓ} (check : A → Result (Unit {0})) (key : Text) (files : Map Text (Option A)) (r : A)
    → check r ≡ ok tt
    → read_record check key (insert key (some r) files)
      ≡ (insert key (some r) files, false, ok (some r))
unfolding read_record
read_record_written check key files r c =
    rw (get-insert key key (some r) files, same_refl key, read_record) (rw c refl)

-- A read of candidates that succeeds has checked them.
read_candidates_ok :
    (host : Host) (key : Text) (s : Store) (index : CandidateIndex)
    → (read_candidates host key s).1 ≡ ok index
    → (validate_content_key key ≡ ok tt)
      × (each (check_indexed host.digests key) index.candidates ≡ ok tt)
unfolding read_candidates
read_candidates_ok host key s index h = elim (Result-cases (validate_content_key key)) [
  | inl (e, v) ↦ let d = rw (v, read_candidates) at h in absurd (cc)
  | inr (u, v) ↦
      let d = rw (v, read_candidates) at h in
      elim (Result-cases (read_record (check_index host.digests key) key s.actions).2) [
        | inl (e, r) ↦ let f = rw (r, candidates_read) at d in absurd (cc)
        | inr (o, r) ↦
            let f : or_default o ≡ index = let g = rw (r, candidates_read) at d in cc in
            elim (read_record_ok (check_index host.digests key) key s.actions o r) [
              | inl (n, q, w) ↦ (v, rw (sym f) (rw q refl))
              | inr (i, n, q, c, w) ↦
                  let (a, b) =
                    >>-ok (fail_if (ltb 1024 (length i.candidates)) Error.cardinality)
                      (each (check_indexed host.digests key) i.candidates) c in
                  (v, rw (sym f) (rw q b))
            ]
      ]
]

read_candidates_written :
    (host : Host) (key : Text) (s : Store) (i : CandidateIndex) (j : List (Text × Text × ℕ))
    → validate_content_key key ≡ ok tt
    → check_index host.digests key i ≡ ok tt
    → let after = record s { actions = insert key (some i) s.actions; journal = j } in
      read_candidates host key after ≡ (after, ok i)
unfolding read_candidates
read_candidates_written host key s i j v c =
    rw (v, read_candidates)
      (rw (read_record_written (check_index host.digests key) key s.actions i c, read_candidates)
        refl)

-- With a limit of at most 1024: after a candidate was published the next read leaves the store alone
-- and gives an index that begins with it. The candidates that were found before follow in their order,
-- less those of its action key and less the last ones, which are missing only if the index is full.
pub read_candidates-put_candidate :
    (host : Host) (c : ActionCandidate) (max_candidates now : ℕ) (s : Store)
    → max_candidates ≤ 1024
    → (put_candidate host c max_candidates now s).1 ≡ ok tt
    → let after = (put_candidate host c max_candidates now s).0 in
      (index : CandidateIndex) × ((read_candidates host c.static_key s).1 ≡ ok index)
      × (read_candidates host c.static_key after
          ≡ (after, ok (with_candidate c max_candidates index)))
      × IsFront c
          (max max_candidates 1)
          index.candidates
          (with_candidate c max_candidates index).candidates
unfolding put_candidate
read_candidates-put_candidate host c max_candidates now s few h =
    elim (Result-cases (validate_candidate_manifest host.digests c)) [
      | inl (e, v) ↦ let d = rw (v, put_candidate) at h in absurd (cc)
      | inr (u, v) ↦
          let d = rw (v, put_candidate) at h in
          elim (Result-cases (read_candidates host c.static_key s).1) [
            | inl (e, r) ↦ let f = rw (r, put_candidate) at d in absurd (cc)
            | inr (index, r) ↦
                let (k, checked) = read_candidates_ok host c.static_key s index r in
                let good =
                  with_candidate-checked host.digests c max_candidates index v few checked in
                (
                  index,
                  r,
                  rw (v, put_candidate)
                      (rw (r, put_candidate)
                        (read_candidates_written host c.static_key
                          (read_candidates host c.static_key s).0
                          (with_candidate c max_candidates index)
                          ((read_candidates host c.static_key s).0.journal
                            ++ (c.static_key, c.action_key, now) ∷ [])
                          k good)),
                  with_candidate-IsFront c max_candidates index,
                )
          ]
    ]
