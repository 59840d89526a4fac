-- ===== src/Store/Words.antt =====
-- The words of a dependency file: crates/bellows-core/src/lib.rs, `split_makefile_words` and
-- `rewrite_words` in `rewrite_dep_info`, on ASCII text.
use bellows.Prelude.{
  ℕ, ◌≡◌, refl, sym, ap, ◌∙◌, Bool, true, false, ◌&&◌, ◌||◌, not, List, [], ◌∷◌, ◌++◌, map,
  if◌then◌else◌, leb, ◌==◌, all, All, arith, Bool-cases, inl, inr,
}
use mathlib.Core.List.{append_assoc, append-nil}
use bellows.Prelude.Text.{Text, is_empty}

abbrev pub is_whitespace : ℕ → Bool
is_whitespace c = (leb 9 c && leb c 13) || c == 32

abbrev pub backslash : ℕ
backslash = 92

abbrev pub push_word : Text → List Text → List Text
push_word current rest = if is_empty current then rest else current ∷ rest

-- The loop, with the word that is being read. A backslash is an escape before a space alone.
unfoldable pub words_from : Text → Text → List Text
words_from current [] = push_word current []
words_from current (c ∷ []) =
    if is_whitespace c then push_word current [] else push_word (current ++ c ∷ []) []
words_from current (c ∷ d ∷ s) =
    let escaped = words_from (current ++ 32 ∷ []) s in
    let ended = words_from [] (d ∷ s) in
    let more = words_from (current ++ c ∷ []) (d ∷ s) in
    if c == backslash && d == 32
    then escaped
    else if is_whitespace c
    then push_word current ended
    else more

unfoldable pub split_makefile_words : Text → List Text
unfolding words_from
split_makefile_words value = words_from [] value

-- `replace(' ', "\\ ")`
unfoldable pub escape : Text → Text
escape [] = []
escape (c ∷ s) = let rest = escape s in if c == 32 then backslash ∷ 32 ∷ rest else c ∷ rest

-- `join(" ")`
unfoldable pub join : List Text → Text
join [] = []
join (w ∷ []) = w
join (w ∷ v ∷ ws) = w ++ (32 ∷ join (v ∷ ws))

unfoldable pub rewrite_words : (Text → Text) → Text → Text
unfolding split_makefile_words escape join
rewrite_words rewrite words = join (map (λ w. escape (rewrite w)) (split_makefile_words words))

-- No whitespace but spaces.
abbrev pub is_word_byte : ℕ → Bool
is_word_byte c = c == 32 || not (is_whitespace c)

abbrev pub ends_backslash : Text → Bool
ends_backslash [] = false
ends_backslash (c ∷ []) = c == backslash
ends_backslash (c ∷ d ∷ s) = ends_backslash (d ∷ s)

-- A word that stands in a dependency file.
abbrev pub IsWord : Text → Type 0
IsWord w = (all is_word_byte w ≡ true) × (ends_backslash w ≡ false) × (is_empty w ≡ false)

-- A byte in front of a text that does not begin with a space.
words_step :
    (current : Text) (c d : ℕ) (s : Text)
    → is_whitespace c ≡ false
    → (c == backslash && d == 32) ≡ false
    → words_from current (c ∷ d ∷ s) ≡ words_from (current ++ c ∷ []) (d ∷ s)
unfolding words_from
words_step current c d s h k = ground (arith, h, k)

words_escape :
    (current s : Text) → words_from current (backslash ∷ 32 ∷ s) ≡ words_from (current ++ 32 ∷ []) s
unfolding words_from
words_escape current s = refl

words_end : (current s : Text) → words_from current (32 ∷ s) ≡ push_word current (words_from [] s)
unfolding words_from
words_end current [] = refl
words_end current (d ∷ s) = refl

-- An escaped word does not begin with a space.
first_byte :
    (d : ℕ) (w t : Text)
    → (x : ℕ) × (s : Text) × (escape (d ∷ w) ++ t ≡ x ∷ s) × ((x == 32) ≡ false)
unfolding escape
first_byte d w t = elim (Bool-cases (d == 32)) [
  | inl e ↦ (backslash, 32 ∷ (escape w ++ t), rw e refl, refl)
  | inr e ↦ (d, escape w ++ t, rw e refl, e)
]

escape_space : (w : Text) → escape (32 ∷ w) ≡ backslash ∷ 32 ∷ escape w
unfolding escape
escape_space w = refl

escape_other : (c : ℕ) (w : Text) → (c == 32) ≡ false → escape (c ∷ w) ≡ c ∷ escape w
unfolding escape
escape_other c w h = rw h refl

escape_nil : escape [] ≡ []
unfolding escape
escape_nil = refl

-- A byte of a word, in front of another one.
byte_inside :
    (current : Text) (c d : ℕ) (w t : Text)
    → is_word_byte c ≡ true
    → words_from current (escape (c ∷ d ∷ w) ++ t)
      ≡ words_from (current ++ c ∷ []) (escape (d ∷ w) ++ t)
byte_inside current c d w t h = elim (Bool-cases (c == 32)) [
  | inl e ↦
      let q : c ≡ 32 = ground arith in
      rw q (rw (escape_space (d ∷ w)) (words_escape current (escape (d ∷ w) ++ t)))
  | inr e ↦
      let (x, s, f, n) = first_byte d w t in
      rw (escape_other c (d ∷ w) e) (
        ap (λ r. words_from current (c ∷ r)) f
        ∙ words_step current c x s (ground (arith, e, h)) (ground (arith, n))
        ∙ ap (words_from (current ++ c ∷ [])) (sym f))
]

-- The last byte of a word, in front of the space that ends it.
byte_last :
    (current : Text) (c : ℕ) (rest : Text)
    → is_word_byte c ≡ true
    → (c == backslash) ≡ false
    → words_from current (escape (c ∷ []) ++ (32 ∷ rest))
      ≡ words_from (current ++ c ∷ []) (32 ∷ rest)
byte_last current c rest h k = elim (Bool-cases (c == 32)) [
  | inl e ↦
      let q : c ≡ 32 = ground arith in
      rw q (rw (escape_space []) (rw escape_nil (words_escape current (32 ∷ rest))))
  | inr e ↦
      rw (escape_other c [] e)
        (rw escape_nil (words_step current c 32 rest (ground (arith, e, h)) (ground (arith, k))))
]

-- And of the text.
byte_end :
    (current : Text) (c : ℕ)
    → is_word_byte c ≡ true
    → words_from current (escape (c ∷ [])) ≡ push_word (current ++ c ∷ []) []
unfolding words_from escape
byte_end current c h = ground (arith, h)

grow :
    (current : Text) (c : ℕ) (w : Text) (r : List Text)
    → push_word ((current ++ c ∷ []) ++ w) r ≡ push_word (current ++ c ∷ w) r
grow current c w r = ap (λ t. push_word t r) (append_assoc current (c ∷ []) w)

read_word :
    (current : Text) (c : ℕ) (w rest : Text)
    → all is_word_byte (c ∷ w) ≡ true
    → ends_backslash (c ∷ w) ≡ false
    → words_from current (escape (c ∷ w) ++ (32 ∷ rest))
      ≡ push_word (current ++ c ∷ w) (words_from [] rest)
read_word current c [] rest h k =
    byte_last current c rest (ground (arith, h)) k ∙ words_end (current ++ c ∷ []) rest
read_word current c (d ∷ w) rest h k =
    byte_inside current c d w (32 ∷ rest) (ground (arith, h))
    ∙ read_word (current ++ c ∷ []) d w rest (ground (arith, h)) k
    ∙ grow current c (d ∷ w) (words_from [] rest)

read_last :
    (current : Text) (c : ℕ) (w : Text)
    → all is_word_byte (c ∷ w) ≡ true
    → words_from current (escape (c ∷ w)) ≡ push_word (current ++ c ∷ w) []
read_last current c [] h = byte_end current c (ground (arith, h))
read_last current c (d ∷ w) h =
    ap (words_from current) (sym (append-nil (escape (c ∷ d ∷ w))))
    ∙ byte_inside current c d w [] (ground (arith, h))
    ∙ ap (words_from (current ++ c ∷ [])) (append-nil (escape (d ∷ w)))
    ∙ read_last (current ++ c ∷ []) d w (ground (arith, h))
    ∙ grow current c (d ∷ w) []

-- Escaped words that are joined are split into the same words, if none ends in a backslash, which
-- would escape the space that joins.
pub split_makefile_words-join :
    (ws : List Text) → All IsWord ws → split_makefile_words (join (map escape ws)) ≡ ws
unfolding split_makefile_words join words_from
split_makefile_words-join [] h = refl
split_makefile_words-join ([] ∷ ws) h = absurd (ground (arith, h))
split_makefile_words-join ((c ∷ w) ∷ []) h = read_last [] c w (h.0).0
split_makefile_words-join ((c ∷ w) ∷ v ∷ ws) h =
    read_word [] c w (join (map escape (v ∷ ws))) (h.0).0 (h.0).1
    ∙ ap (λ r. (c ∷ w) ∷ r) (split_makefile_words-join (v ∷ ws) h.1)

-- Rewriting changes each word and nothing else: what is read from the result are the new words.
pub split_makefile_words-rewrite_words :
    (rewrite : Text → Text) (ws : List Text)
    → All IsWord ws
    → All IsWord (map rewrite ws)
    → split_makefile_words (rewrite_words rewrite (join (map escape ws))) ≡ map rewrite ws
unfolding rewrite_words
split_makefile_words-rewrite_words rewrite ws h k = rw (split_makefile_words-join ws h) (
    ap (λ r. split_makefile_words (join r)) (map_escape rewrite ws)
    ∙ split_makefile_words-join (map rewrite ws) k)
  where
    map_escape :
        (rewrite : Text → Text) (ws : List Text)
        → map (λ w. escape (rewrite w)) ws ≡ map escape (map rewrite ws)
    map_escape rewrite [] = refl
    map_escape rewrite (w ∷ ws) = ap (λ r. escape (rewrite w) ∷ r) (map_escape rewrite ws)
