-- ===== src/Gc/Journal.antt =====
-- The access journal: crates/bellows-core/src/gc.rs, `record_use`, `parse_lines`, `read_journal`,
-- `compact_journal`. Text is bytes: what `from_utf8_lossy` replaces is never a key or a number, and
-- never an ASCII byte.
use bellows.Prelude.{
  ℕ, Bool, ◌&&◌, not, Option, none, some, List, [], ◌∷◌, ◌++◌, max, if◌then◌else◌, ◌==◌, option_map,
  ltb,
}
use bellows.Prelude.Text.{Text, is_empty, text_eq}
use bellows.Prelude.Key.{text_key}
use bellows.Prelude.Decimal.{decimal, parse_u64}
use bellows.Prelude.Split.{split_on}
use bellows.Store.Error.{is_ok}
use bellows.Store.Keys.{validate_content_key}
use bellows.Gc.State.{Evictable}
use bellows.Gc.Index.{Journal}

-- One entry: static key, action key, time.
abbrev pub Entry : Type 0
Entry = Text × Text × ℕ

unfoldable pub journal_line : Entry → Text
unfolding decimal
journal_line (key, action, ms) = key ++ (32 ∷ (action ++ (32 ∷ (decimal ms ++ 10 ∷ []))))

-- A carriage return before the end of a line belongs to the end.
unfoldable pub strip_return : Text → Text
strip_return [] = []
strip_return (c ∷ []) = if c == 13 then [] else c ∷ []
strip_return (c ∷ d ∷ s) = c ∷ strip_return (d ∷ s)

-- `str::lines`: the last piece counts only if it is not empty.
unfoldable pub lines_of : List Text → List Text
unfolding strip_return
lines_of [] = []
lines_of (l ∷ []) = if is_empty l then [] else l ∷ []
lines_of (l ∷ m ∷ r) = strip_return l ∷ lines_of (m ∷ r)

abbrev pub is_newline : ℕ → Bool
is_newline c = c == 10

abbrev pub is_space : ℕ → Bool
is_space c = c == 32

unfoldable pub lines : Text → List Text
unfolding split_on lines_of
lines s = lines_of (split_on is_newline s)

-- Three fields, the first two of them keys.
unfoldable pub parse_fields : List Text → Option Entry
unfolding validate_content_key parse_u64
parse_fields (key ∷ action ∷ ms ∷ []) =
    if is_ok (validate_content_key key) && is_ok (validate_content_key action)
    then option_map (λ n. (key, action, n)) (parse_u64 ms)
    else none
parse_fields other = none

abbrev pub onto : Option Entry → List Entry → List Entry
onto none es = es
onto (some e) es = e ∷ es

unfoldable pub parse_all : List Text → List Entry
unfolding parse_fields split_on
parse_all [] = []
parse_all (l ∷ ls) = onto (parse_fields (split_on is_space l)) (parse_all ls)

unfoldable pub parse_lines : Text → List Entry
unfolding lines parse_all
parse_lines s = parse_all (lines s)

-- `*slot = (*slot).max(ms)` on the slot of the keys, 0 at first.
unfoldable pub note_use : Entry → Journal → Journal
note_use (key, action, ms) [] = ((key, action), max 0 ms) ∷ []
note_use (key, action, ms) (((k, a), n) ∷ j) =
    let rest = note_use (key, action, ms) j in
    if text_eq key k && text_eq action a then ((k, a), max n ms) ∷ j else ((k, a), n) ∷ rest

unfoldable pub note_uses : List Entry → Journal → Journal
unfolding note_use
note_uses [] j = j
note_uses (e ∷ es) j = note_uses es (note_use e j)

-- The newest use of each pair of keys over the journal files.
unfoldable pub read_journal : List Text → Journal → Journal
unfolding parse_lines note_uses
read_journal [] j = j
read_journal (file ∷ files) j = read_journal files (note_uses (parse_lines file) j)

-- The entry that stands for a unit that is kept, if its last use came from the journal.
unfoldable pub kept_entry : Evictable → Bool → Option Entry
kept_entry u evicted = elim u.static_key [
  | none ↦ none
  | some key ↦ elim u.candidate [
    | none ↦ none
    | some (action, created) ↦
        if not evicted && ltb created u.last_used_ms
        then some (key, action, u.last_used_ms)
        else none
  ]
]

unfoldable pub kept_entries : List Evictable → List Bool → List Entry
unfolding kept_entry
kept_entries [] evicted = []
kept_entries (u ∷ us) [] = []
kept_entries (u ∷ us) (e ∷ es) = onto (kept_entry u e) (kept_entries us es)

unfoldable pub journal_text : List Entry → Text
unfolding journal_line
journal_text [] = []
journal_text (e ∷ es) = journal_line e ++ journal_text es

unfoldable pub compact_journal : List Evictable → List Bool → Text
unfolding kept_entries journal_text
compact_journal units evicted = journal_text (kept_entries units evicted)
