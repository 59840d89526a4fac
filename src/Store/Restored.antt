-- ===== src/Store/Restored.antt =====
-- A path replaced by its token and back: crates/bellows-core/src/lib.rs, `PathNormalizer`.
use bellows.Prelude.{
  ℕ, zero, suc, ◌<◌, ◌≡◌, refl, ap, ◌∙◌, true, false, not, List, [], ◌∷◌, ◌++◌, if◌then◌else◌, ◌==◌,
  ◌&&◌, length, All, arith, inl, inr, Bool-cases,
}
use bellows.Prelude.Sort.{sort_by}
use bellows.Prelude.Text.{Text, starts_with, is_empty}
use bellows.Store.Normalizer.{
  drop, replace_one, PathNormalizer, longer_first, new, trim_end, normalize_bytes, localize_bytes,
}
use bellows.Store.Replaced.{
  replace_spec, spec-here, spec-elsewhere, spec-nil, length-drop, replace_one-spec,
}

-- What stands in front of what was replaced.
starts_with-drop : (p s : Text) → starts_with p s ≡ true → p ++ drop (length p) s ≡ s
unfolding starts_with
starts_with-drop [] s h = refl
starts_with-drop (x ∷ p) [] h = cc
starts_with-drop (x ∷ p) (c ∷ s) h = ground (arith, starts_with-drop p s, h)

starts_with_self : (p s : Text) → starts_with p (p ++ s) ≡ true
unfolding starts_with
starts_with_self [] s = refl
starts_with_self (x ∷ p) s = ground (arith, starts_with_self p s)

drop-append : (p s : Text) → drop (length p) (p ++ s) ≡ s
drop-append [] s = refl
drop-append (x ∷ p) s = drop-append p s

-- No byte of a text is the one with which the token begins.
abbrev pub Lacks : ℕ → Text → Type 0
Lacks d s = All (λ c. (d == c) ≡ false) s

Lacks-drop : (d n : ℕ) (s : Text) → Lacks d s → Lacks d (drop n s)
Lacks-drop d zero s h = h
Lacks-drop d (suc n) [] h = tt
Lacks-drop d (suc n) (c ∷ s) h = Lacks-drop d n s h.1

elsewhere-token :
    (d : ℕ) (token : Text) (c : ℕ) (s : Text)
    → (d == c) ≡ false
    → starts_with (d ∷ token) (c ∷ s) ≡ false
unfolding starts_with
elsewhere-token d token c s h = ground (arith, h)

-- Replaced by a token and back, within the first `n` bytes or more.
back :
    (f : ℕ) (path : Text) (d : ℕ) (token : Text) (n : ℕ) (s : Text)
    → length s < n
    → Lacks d s
    → replace_spec (d ∷ token) (f ∷ path) 0 (replace_spec (f ∷ path) (d ∷ token) 0 s) ≡ s
back f path d token zero s h l = absurd (omega (arith, h))
back f path d token (suc n) [] h l =
    rw (spec-nil (f ∷ path) (d ∷ token)) (spec-nil (d ∷ token) (f ∷ path))
back f path d token (suc n) (c ∷ s) h l = elim (Bool-cases (starts_with (f ∷ path) (c ∷ s))) [
  | inl here ↦
      let rest = replace_spec (f ∷ path) (d ∷ token) 0 (drop (length path) s) in
      let ih =
        back f path d token n (drop (length path) s) (omega (arith, h, length-drop (length path) s))
          (Lacks-drop d (length path) s l.1) in
      rw (spec-here f path (d ∷ token) c s here) (
        spec-here d token (f ∷ path) d (token ++ rest) (starts_with_self (d ∷ token) rest)
        ∙ rw (drop-append token rest) (rw ih (starts_with-drop (f ∷ path) (c ∷ s) here)))
  | inr e ↦ rw (spec-elsewhere f path (d ∷ token) c s e) (
      spec-elsewhere d token (f ∷ path) c (replace_spec (f ∷ path) (d ∷ token) 0 s)
        (elsewhere-token d token c _ l.0)
      ∙ ap (◌∷◌ c) (back f path d token n s (omega (arith, h)) l.1))
]

-- Bytes in which a token's first byte does not occur come back as they were when the path is replaced
-- by the token and the token by the path.
pub replace_one-replace_one :
    (f : ℕ) (path : Text) (d : ℕ) (token value : Text)
    → Lacks d value
    → replace_one (d ∷ token) (f ∷ path) (replace_one (f ∷ path) (d ∷ token) value) ≡ value
replace_one-replace_one f path d token value l = rw (replace_one-spec f path (d ∷ token) value) (
    replace_one-spec d token (f ∷ path) _
    ∙ back f path d token (suc (length value)) value (omega arith) l)

module _ (d : ℕ) (token value : Text) (l : Lacks d value) where
  one_base :
      (path : Text)
      → let bases : List (Text × Text) =
          if not (is_empty path) && true then (d ∷ token, path) ∷ [] else [] in
        let n : PathNormalizer = record { bases = sort_by longer_first bases } in
        localize_bytes (normalize_bytes value n) n ≡ value
  unfolding localize_bytes normalize_bytes sort_by
  one_base [] = refl
  one_base (f ∷ path) = replace_one-replace_one f path d token value l

  -- A normalizer of one directory, as for the output of a sandbox, is undone by localizing, on bytes
  -- in which the first byte of the token does not occur.
  pub localize_bytes-normalize_bytes :
      (path : Text)
      → let n = new ((d ∷ token, path) ∷ []) in localize_bytes (normalize_bytes value n) n ≡ value
  unfolding new
  localize_bytes-normalize_bytes path = one_base (trim_end path)
