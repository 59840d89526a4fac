-- ===== src/Store/Paths.antt =====
-- Paths: crates/bellows-core/src/lib.rs, `validate_normalized_input_path`,
-- `validate_host_input_path`, `validate_relative_path`, `relative_path_is_within`,
-- `validate_archive_name`, on a Unix host.
use bellows.Prelude.{
  ℕ, Bool, true, false, ◌&&◌, ◌||◌, not, Option, none, some, List, [], ◌∷◌, if◌then◌else◌, length,
  any, all, find, ltb, leb, ◌==◌,
}
use bellows.Prelude.Text.{Text, codes, is_empty, text_eq, strip_prefix, contains_byte}
use bellows.Prelude.Key.{text_key, list_cmp}
use bellows.Prelude.Split.{split_on}
use bellows.Store.Error.{Error, Result, ok, err, ◌>>◌, fail_if}

abbrev pub is_slash : ℕ → Bool
is_slash c = c == b'/'

-- `['/', '\\']`
abbrev pub is_separator : ℕ → Bool
is_separator c = c == b'/' || c == 92

abbrev pub dot : Text
dot = b'.' ∷ []

abbrev pub dot_dot : Text
dot_dot = b'.' ∷ b'.' ∷ []

abbrev pub is_dots : Text → Bool
is_dots segment = text_eq segment dot || text_eq segment dot_dot

abbrev pub is_forbidden : Text → Bool
is_forbidden segment = is_empty segment || is_dots segment

unfoldable pub segments : Text → List Text
unfolding split_on
segments path = split_on is_separator path

-- `Path::components` of a path with no empty segment: it splits at `/` alone.
unfoldable pub components : Text → List Text
unfolding split_on
components path = split_on is_slash path

abbrev pub starts_separator : Text → Bool
starts_separator [] = false
starts_separator (c ∷ s) = is_separator c

abbrev pub trim_separators : Text → Text
trim_separators [] = []
trim_separators (c ∷ s) = if is_separator c then trim_separators s else c ∷ s

abbrev pub roots : List Text
roots =
    codes "$CHECKOUT"
    ∷ codes "$WORKSPACE"
    ∷ codes "$PROFILE"
    ∷ codes "$TARGET"
    ∷ codes "$CARGO_HOME"
    ∷ codes "$RUSTUP_HOME"
    ∷ codes "$HOME"
    ∷ []

unfoldable pub under_root : Text → Text → Bool
unfolding strip_prefix list_cmp
under_root value root =
    text_eq value root
    || elim (strip_prefix root value) [ none ↦ false | some suffix ↦ starts_separator suffix ]

-- What is left of the path after its root and the separators that follow.
unfoldable pub suffix_of : Text → Text → Text
unfolding strip_prefix
suffix_of value root = elim (strip_prefix root value) [
  | none ↦ []
  | some suffix ↦ trim_separators suffix
]

unfoldable pub find_root : Text → Option Text
unfolding under_root
find_root value = find (under_root value) roots

unfoldable pub validate_normalized_input_path : Text → Result (Unit {0})
unfolding find_root suffix_of segments contains_byte list_cmp
validate_normalized_input_path value =
    fail_if (ltb 4096 (length value) || contains_byte 0 value) Error.normalized_too_long
    >> elim (find_root value) [
      | none ↦ err Error.normalized_root
      | some root ↦
          fail_if
            (is_empty (suffix_of value root) || any is_forbidden (segments (suffix_of value root)))
            Error.normalized_segment
    ]

abbrev pub is_alphabetic : ℕ → Bool
is_alphabetic c = (leb 65 c && leb c 90) || (leb 97 c && leb c 122)

abbrev pub windows_drive : Text → Bool
windows_drive (a ∷ b ∷ c ∷ s) = (b == b':') && is_alphabetic a && is_separator c
windows_drive _ = false

-- `\\` in front.
abbrev pub starts_unc : Text → Bool
starts_unc (a ∷ b ∷ s) = (a == 92) && (b == 92)
starts_unc _ = false

abbrev pub starts_slash : Text → Bool
starts_slash [] = false
starts_slash (c ∷ s) = is_slash c

abbrev pub skip_first {ℓ} : {A : Type ℓ} → List A → List A
skip_first [] = []
skip_first (x ∷ xs) = xs

unfoldable pub validate_host_input_path : Text → Result (Unit {0})
unfolding segments contains_byte list_cmp
validate_host_input_path value = do
  fail_if (is_empty value || ltb 4096 (length value) || contains_byte 0 value) Error.host_too_long
  fail_if (not (starts_slash value || windows_drive value || starts_unc value)) Error.host_relative
  fail_if (any is_dots (skip_first (segments value))) Error.host_segment

unfoldable pub validate_relative_path : Text → Result Text
unfolding segments components list_cmp
validate_relative_path value = do
  fail_if (is_empty value || starts_slash value) Error.path_empty
  fail_if (any is_forbidden (segments value)) Error.path_segment
  fail_if (any is_forbidden (components value)) Error.path_component
  ok value

-- `components.next() == Some(part)` for each part.
unfoldable pub takes_parts : List Text → List Text → Bool
unfolding list_cmp
takes_parts [] path = true
takes_parts (r ∷ rs) [] = false
takes_parts (r ∷ rs) (p ∷ ps) = text_eq p r && takes_parts rs ps

unfoldable pub relative_path_is_within : Text → Text → Bool
unfolding takes_parts segments
relative_path_is_within path root = takes_parts (segments root) (segments path)

-- `Path::starts_with`.
unfoldable pub path_starts_with : Text → Text → Bool
unfolding takes_parts components
path_starts_with path prefix = takes_parts (components prefix) (components path)

abbrev pub is_archive_byte : ℕ → Bool
is_archive_byte c = (leb 48 c && leb c 57) || is_alphabetic c || c == b'-' || c == b'_' || c == b'.'

unfoldable pub validate_archive_name : Text → Result (Unit {0})
validate_archive_name name =
    fail_if (is_empty name || ltb 128 (length name) || not (all is_archive_byte name))
      Error.archive_name
