-- ===== src/Store/Normalizer.antt =====
-- Paths in place of tokens and back: crates/bellows-core/src/lib.rs, `PathNormalizer` and
-- `replace_bytes`, on a Unix host.
use bellows.Prelude.{
  ℕ, zero, suc, ◌+◌, Bool, not, Option, none, some, List, [], ◌∷◌, ◌++◌, map, if◌then◌else◌, leb,
  length, any, ◌&&◌, ◌==◌, option_map, retain,
}
use bellows.Prelude.Key.{list_cmp}
use bellows.Prelude.Sort.{sort_by}
use bellows.Prelude.Text.{Text, text_eq, codes, is_empty, starts_with, contains_byte}
use bellows.Store.Contents.{take}

abbrev pub drop {ℓ} : {A : Type ℓ} → ℕ → List A → List A
drop zero xs = xs
drop (suc n) [] = []
drop (suc n) (x ∷ xs) = drop n xs

-- `windows(from.len()).position(|w| w == from)`.
unfoldable pub position : Text → Text → Option ℕ
unfolding starts_with
position from [] = if starts_with from [] then some 0 else none
position from (c ∷ s) =
    let later = option_map suc (position from s) in
    if starts_with from (c ∷ s) then some 0 else later

-- The loop of one replacement, on the bytes from `offset` on and the output so far; `none` if the
-- fuel runs out.
unfoldable pub replace_loop : ℕ → Text → Text → Text → Text → Option Text
unfolding position
replace_loop zero from to rest output = none
replace_loop (suc fuel) from to rest output = elim (position from rest) [
  | none ↦ some (output ++ rest)
  | some pos ↦
      replace_loop fuel from to (drop (pos + length from) rest) ((output ++ take pos rest) ++ to)
]

abbrev pub or_keep : Text → Option Text → Text
or_keep value none = value
or_keep value (some output) = output

-- One replacement; nothing is replaced by an empty pattern. Each round takes a byte at least.
unfoldable pub replace_one : Text → Text → Text → Text
unfolding replace_loop
replace_one from to value =
    if is_empty from
    then value
    else or_keep value (replace_loop (suc (length value)) from to value [])

unfoldable pub replace_bytes : Text → List (Text × Text) → Text
unfolding replace_one
replace_bytes value [] = value
replace_bytes value ((from, to) ∷ replacements) =
    replace_bytes (replace_one from to value) replacements

-- The token and the path of each base.
pub record PathNormalizer : Type 0 where
  pub bases : List (Text × Text)

-- `trim_end_matches('/')`.
unfoldable pub trim_end : Text → Text
trim_end [] = []
trim_end (c ∷ s) = let rest = trim_end s in if c == b'/' && is_empty rest then [] else c ∷ rest

-- The bases in their order, less empty paths and paths that stand there already.
unfoldable pub render : List (Text × Text) → List (Text × Text) → List (Text × Text)
unfolding trim_end list_cmp
render rendered [] = rendered
render rendered ((token, path) ∷ bases) =
    let value = trim_end path in
    render
      (if not (is_empty value) && not (any (λ (b : Text × Text). text_eq b.1 value) rendered)
        then rendered ++ (token, value) ∷ []
        else rendered)
      bases

abbrev pub longer_first : Text × Text → Text × Text → Bool
longer_first a b = leb (length b.1) (length a.1)

unfoldable pub new : List (Text × Text) → PathNormalizer
unfolding render
new bases = record { bases = sort_by longer_first (render [] bases) }

unfoldable pub spellings : Text → PathNormalizer → List Text
unfolding list_cmp
spellings token n =
    map (λ (b : Text × Text). b.1) (retain (λ (b : Text × Text). text_eq b.0 token) n.bases)

abbrev pub verbatim : Text
verbatim = codes "\\\\?\\"

-- A later spelling of a token takes the place of a verbatim one if it is an ordinary one.
abbrev pub better_spelling : Text → Text → Bool
better_spelling old path =
    starts_with verbatim old && not (starts_with verbatim path) && not (contains_byte b'/' path)

unfoldable pub choose : Text → Text → List (Text × Text) → List (Text × Text)
unfolding starts_with contains_byte list_cmp
choose token path [] = (token, path) ∷ []
choose token path ((t, old) ∷ chosen) =
    let later = choose token path chosen in
    if text_eq t token
    then (t, if better_spelling old path then path else old) ∷ chosen
    else (t, old) ∷ later

unfoldable pub localizations_from : List (Text × Text) → List (Text × Text) → List (Text × Text)
unfolding choose
localizations_from chosen [] = chosen
localizations_from chosen ((token, path) ∷ bases) =
    localizations_from (choose token path chosen) bases

unfoldable pub localizations : PathNormalizer → List (Text × Text)
unfolding localizations_from
localizations n = localizations_from [] n.bases

unfoldable pub normalize_bytes : Text → PathNormalizer → Text
unfolding replace_bytes
normalize_bytes bytes n = replace_bytes bytes (map (λ (b : Text × Text). (b.1, b.0)) n.bases)

unfoldable pub localize_bytes : Text → PathNormalizer → Text
unfolding replace_bytes localizations
localize_bytes bytes n = replace_bytes bytes (localizations n)
