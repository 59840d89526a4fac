-- ===== src/Gc/Journaled.antt =====
-- What is written to the journal is read back: crates/bellows-core/src/gc.rs, `record_use`,
-- `compact_journal`, `read_journal`.
use bellows.Prelude.{
  ℕ, ◌≡◌, ◌≤◌, refl, ap, ◌∙◌, Bool, true, ◌&&◌, ◌||◌, not, some, List, [], ◌∷◌, ◌++◌, max,
  if◌then◌else◌, ◌==◌, all, All, arith, Bool-cases, inl, inr,
}
use mathlib.Core.List.{append_assoc}
use bellows.Prelude.Text.{Text, text_eq}
use bellows.Prelude.Key.{text_key, same_iff, same_refl}
use bellows.Prelude.Decimal.{decimal, parse_u64-decimal, all-decimal, is_digit, u64_max}
use bellows.Prelude.Split.{split_on, split_on-append, split_on_whole}
use bellows.Store.Keys.{validate_content_key_iff, IsKey, is_hex}
use bellows.Gc.Index.{Journal, last_use}
use bellows.Gc.Journal.{
  Entry, journal_line, journal_text, strip_return, lines_of, lines, is_newline, is_space,
  parse_fields, parse_all, parse_lines, note_use, note_uses,
}

abbrev pub IsEntry : Entry → Type 0
IsEntry (key, action, ms) = IsKey key × IsKey action × (ms ≤ u64_max)

abbrev is_plain : ℕ → Bool
is_plain c = is_digit c || is_hex c

-- Neither keys nor numbers hold a separator.
all_imp :
    (p q : ℕ → Bool) (s : Text)
    → ((c : ℕ) → p c ≡ true → q c ≡ true)
    → all p s ≡ true
    → all q s ≡ true
all_imp p q [] h a = refl
all_imp p q (c ∷ s) h a = ground (arith, h c, all_imp p q s h)

all-append : (p : ℕ → Bool) (s t : Text) → all p (s ++ t) ≡ (all p s && all p t)
all-append p [] t = refl
all-append p (c ∷ s) t = ground (arith, all-append p s t)

hex_no_space : (s : Text) → all is_hex s ≡ true → all (λ c. not (is_space c)) s ≡ true
hex_no_space s h = all_imp is_hex (λ c. not (is_space c)) s (λ c k. ground arith) h

digit_no_space : (s : Text) → all is_digit s ≡ true → all (λ c. not (is_space c)) s ≡ true
digit_no_space s h = all_imp is_digit (λ c. not (is_space c)) s (λ c k. ground arith) h

-- A line without its end.
abbrev body : Entry → Text
body (key, action, ms) = key ++ (32 ∷ (action ++ (32 ∷ decimal ms)))

body_fields : (e : Entry) → IsEntry e → parse_fields (split_on is_space (body e)) ≡ some e
unfolding parse_fields
body_fields (key, action, ms) (k, a, m) =
    rw
      (
        split_on-append is_space key 32 (action ++ (32 ∷ decimal ms)) (hex_no_space key k.1) refl,
        split_on-append is_space action 32 (decimal ms) (hex_no_space action a.1) refl,
        split_on_whole is_space (decimal ms) (digit_no_space (decimal ms) (all-decimal ms)),
        parse_fields,
      )
      (rw
        (
          (validate_content_key_iff key).1 k,
          (validate_content_key_iff action).1 a,
          parse_u64-decimal ms m,
        )
        refl)

plain_digit : (s : Text) → all is_digit s ≡ true → all is_plain s ≡ true
plain_digit s h = all_imp is_digit is_plain s (λ c k. ground arith) h

plain_hex : (s : Text) → all is_hex s ≡ true → all is_plain s ≡ true
plain_hex s h = all_imp is_hex is_plain s (λ c k. ground arith) h

abbrev is_inner : ℕ → Bool
is_inner c = not (is_newline c) && not (c == 13)

inner : (s : Text) → all is_plain s ≡ true → all is_inner s ≡ true
inner s h = all_imp is_plain is_inner s (λ c k. ground arith) h

body_inner : (e : Entry) → IsEntry e → all is_inner (body e) ≡ true
body_inner (key, action, ms) (k, a, m) = ground (
  arith,
  all-append is_inner key (32 ∷ (action ++ (32 ∷ decimal ms))),
  all-append is_inner action (32 ∷ decimal ms),
  inner key (plain_hex key k.1),
  inner action (plain_hex action a.1),
  inner (decimal ms) (plain_digit (decimal ms) (all-decimal ms)),
)

strip_return_inner : (s : Text) → all is_inner s ≡ true → strip_return s ≡ s
unfolding strip_return
strip_return_inner [] h = refl
strip_return_inner (c ∷ []) h = ground arith
strip_return_inner (c ∷ d ∷ s) h = ground (arith, strip_return_inner (d ∷ s))

split_on-cons : (p : ℕ → Bool) (s : Text) → (t : Text) × (ts : List Text) × (split_on p s ≡ t ∷ ts)
unfolding split_on
split_on-cons p [] = ([], [], refl)
split_on-cons p (c ∷ s) = elim (Bool-cases (p c)) [
  | inl e ↦ ([], split_on p s, rw e refl)
  | inr e ↦ let (t, ts, h) = split_on-cons p s in (c ∷ t, ts, rw (e, h) refl)
]

line-body : (e : Entry) (rest : Text) → journal_line e ++ rest ≡ body e ++ (10 ∷ rest)
unfolding journal_line
line-body (key, action, ms) rest = simp append_assoc

-- An entry that is written in front of any text is the first that is read, and the rest is read as
-- before.
pub parse_lines-journal_line :
    (e : Entry) (rest : Text)
    → IsEntry e
    → parse_lines (journal_line e ++ rest) ≡ e ∷ parse_lines rest
unfolding parse_lines lines parse_all lines_of
parse_lines-journal_line e rest h =
    let (t, ts, q) = split_on-cons is_newline rest in
    let no_newline =
      all_imp is_inner (λ c. not (is_newline c)) (body e) (λ c k. ground arith) (body_inner e h) in
    rw
      (
        line-body e rest,
        split_on-append is_newline (body e) 10 rest no_newline refl,
        q,
        strip_return_inner (body e) (body_inner e h),
        body_fields e h,
      )
      refl

parse_lines-nil : parse_lines [] ≡ []
unfolding parse_lines lines parse_all lines_of split_on
parse_lines-nil = refl

-- A journal of entries is read back whole.
pub parse_lines-journal_text :
    (es : List Entry) → All IsEntry es → parse_lines (journal_text es) ≡ es
unfolding journal_text
parse_lines-journal_text [] h = parse_lines-nil
parse_lines-journal_text (e ∷ es) h =
    parse_lines-journal_line e (journal_text es) h.0
    ∙ ap (λ r. e ∷ r) (parse_lines-journal_text es h.1)

-- The newest time of a pair of keys among entries.
abbrev pub newest : Text → Text → List Entry → ℕ
newest key action [] = 0
newest key action ((k, a, ms) ∷ es) =
    max (if text_eq key k && text_eq action a then ms else 0) (newest key action es)

last_use-note_use :
    (key action k a : Text) (ms : ℕ) (j : Journal)
    → last_use key action (note_use (k, a, ms) j)
      ≡ max (last_use key action j) (if text_eq key k && text_eq action a then ms else 0)
unfolding last_use note_use
last_use-note_use key action k a ms [] = ground arith
last_use-note_use key action k a ms (((k', a'), n) ∷ j) =
    elim (Bool-cases (text_eq k k' && text_eq a a')) [
      | inl e ↦ ground (arith, e, (same_iff k k').0, (same_iff a a').0)
      | inr e ↦
          rw (e, note_use)
            (ground (
              arith,
              last_use-note_use key action k a ms j,
              (same_iff key k).0,
              (same_iff action a).0,
              (same_iff key k').0,
              (same_iff action a').0,
              same_refl k,
              same_refl a,
            ))
    ]

-- What the snapshot finds for a candidate is its newest use in the journal.
pub last_use-note_uses :
    (key action : Text) (es : List Entry) (j : Journal)
    → last_use key action (note_uses es j) ≡ max (last_use key action j) (newest key action es)
unfolding note_uses
last_use-note_uses key action [] j = omega arith
last_use-note_uses key action ((k, a, ms) ∷ es) j = ground (
  arith,
  last_use-note_uses key action es (note_use (k, a, ms) j),
  last_use-note_use key action k a ms j,
)

pub last_use-nil : (key action : Text) → last_use key action [] ≡ 0
unfolding last_use
last_use-nil key action = refl
