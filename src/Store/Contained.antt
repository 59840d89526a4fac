-- ===== src/Store/Contained.antt =====
-- Accepted paths stay below their directory: crates/bellows-core/src/lib.rs.
use bellows.Prelude.{
  ◌≡◌, ◌↔◌, refl, sym, ◌∙◌, true, false, ◌||◌, List, [], ◌∷◌, ◌++◌, if◌then◌else◌, any, arith,
}
use mathlib.Core.List.{append_assoc, append-nil}
use bellows.Prelude.Text.{Text, is_empty, text_eq}
use bellows.Prelude.Key.{text_key, same_iff, same_refl}
use bellows.Store.Error.{ok}
use bellows.Store.Paths.{
  segments, components, is_forbidden, dot, dot_dot, validate_relative_path, takes_parts,
  relative_path_is_within, starts_slash,
}

abbrev pub init {ℓ} : {A : Type ℓ} → List A → List A
init [] = []
init (x ∷ []) = []
init (x ∷ y ∷ xs) = x ∷ init (y ∷ xs)

-- How a file system follows segments from a directory: `..` leads up, `.` and nothing stay.
pub follow : List Text → List Text → List Text
follow place [] = place
follow place (s ∷ ss) =
    follow
      (if text_eq s dot_dot
        then init place
        else if is_empty s || text_eq s dot
        then place
        else place ++ s ∷ [])
      ss

follow_plain : (place ss : List Text) → any is_forbidden ss ≡ false → follow place ss ≡ place ++ ss
unfolding follow
follow_plain place [] h = sym (append-nil place)
follow_plain place (s ∷ ss) h =
    let e : text_eq s dot_dot ≡ false = ground arith in
    let f : (is_empty s || text_eq s dot) ≡ false = ground arith in
    rw (e, f) (follow_plain (place ++ s ∷ []) ss (ground arith) ∙ append_assoc place (s ∷ []) ss)

-- A path that is accepted is what was given, is not absolute, and leads below any directory it is
-- followed from, read with either kind of separator.
pub validate_relative_path-follow :
    (value path : Text) (place : List Text)
    → validate_relative_path value ≡ ok path
    → (path ≡ value)
      × (starts_slash path ≡ false)
      × (follow place (segments path) ≡ place ++ segments path)
      × (follow place (components path) ≡ place ++ components path)
unfolding validate_relative_path
validate_relative_path-follow value path place h =
    let same : path ≡ value = ground arith in
    let no_segment : any is_forbidden (segments value) ≡ false = ground arith in
    let no_component : any is_forbidden (components value) ≡ false = ground arith in
    rw same (
      refl,
      ground arith,
      follow_plain place (segments value) no_segment,
      follow_plain place (components value) no_component,
    )

takes_parts-prefix :
    (xs ys : List Text) → takes_parts ys xs ≡ true → (rest : List Text) × (xs ≡ ys ++ rest)
unfolding takes_parts
takes_parts-prefix xs [] h = (xs, refl)
takes_parts-prefix [] (y ∷ ys) h = absurd (ground (arith, h))
takes_parts-prefix (x ∷ xs) (y ∷ ys) h =
    let (rest, e) = takes_parts-prefix xs ys (ground (arith, h)) in
    (rest, ground (arith, e, (same_iff x y).0, h))

prefix-takes_parts : (ys rest : List Text) → takes_parts ys (ys ++ rest) ≡ true
unfolding takes_parts
prefix-takes_parts [] rest = refl
prefix-takes_parts (y ∷ ys) rest = ground (arith, same_refl y, prefix-takes_parts ys rest)

-- A path is within a root exactly if its segments continue those of the root: a root that only
-- begins its last segment does not count, and the kind of separator does not matter.
pub relative_path_is_within_iff :
    (path root : Text)
    → (relative_path_is_within path root ≡ true)
      ↔ ((rest : List Text) × (segments path ≡ segments root ++ rest))
unfolding relative_path_is_within
relative_path_is_within_iff path root = (
  λ h. takes_parts-prefix (segments path) (segments root) h,
  λ r. rw r.1 (prefix-takes_parts (segments root) r.0),
)
