-- ===== src/Gc/Compacted.antt =====
-- What a compacted journal says: crates/bellows-core/src/gc.rs, `compact_journal`, `read_journal`.
use bellows.Prelude.{
  ℕ, ◌≡◌, ◌≤◌, ◌<◌, ◌⊎◌, refl, Bool, true, false, ◌&&◌, not, Option, none, some, List, [], ◌∷◌, max,
  if◌then◌else◌, All, arith, Bool-cases, Option-cases, inl, inr, ltb,
}
use bellows.Prelude.Text.{Text, text_eq}
use bellows.Prelude.Key.{text_key, same_iff, same_refl}
use bellows.Prelude.Decimal.{u64_max}
use bellows.Store.Keys.{IsKey}
use bellows.Gc.State.{Evictable}
use bellows.Gc.Index.{last_use}
use bellows.Gc.Journal.{Entry, onto, kept_entry, kept_entries, read_journal, compact_journal}
use bellows.Gc.Journaled.{
  IsEntry, newest, parse_lines-journal_text, last_use-note_uses, last_use-nil,
}

-- A candidate's keys are keys and its last use is a 64-bit time; other records are not looked at.
abbrev pub KeyedBy : Option Text → Option (Text × ℕ) → ℕ → Type 0
KeyedBy (some key) (some (action, created)) last = IsKey key × IsKey action × (last ≤ u64_max)
KeyedBy _ _ last = Unit {0}

abbrev pub IsKeyed : Evictable → Type 0
IsKeyed u = KeyedBy u.static_key u.candidate u.last_used_ms

-- A record of these keys that the plan keeps was last used at a time, after it was created.
pub data UsedAt (key action : Text) (ms : ℕ) : List Evictable → List Bool → Type 0 where
  here :
      (u : Evictable) (created : ℕ) {us : List Evictable} {es : List Bool}
      → u.static_key ≡ some key
      → u.candidate ≡ some (action, created)
      → created < u.last_used_ms
      → u.last_used_ms ≡ ms
      → UsedAt key action ms (u ∷ us) (false ∷ es)
  there :
      (u : Evictable) (evicted : Bool) {us : List Evictable} {es : List Bool}
      → UsedAt key action ms us es
      → UsedAt key action ms (u ∷ us) (evicted ∷ es)

-- The newest such time, or 0 if there is none.
abbrev pub IsNewestUse : Text → Text → List Evictable → List Bool → ℕ → Type 0
IsNewestUse key action units evicted last =
    ((ms : ℕ) → UsedAt key action ms units evicted → ms ≤ last)
    × ((last ≡ 0) ⊎ UsedAt key action last units evicted)

-- What one entry, if there is one, counts for a pair of keys.
abbrev counted : Text → Text → Option Entry → ℕ
counted key action none = 0
counted key action (some (k, a, ms)) = if text_eq key k && text_eq action a then ms else 0

newest-onto :
    (key action : Text) (o : Option Entry) (es : List Entry)
    → newest key action (onto o es) ≡ max (counted key action o) (newest key action es)
newest-onto key action none es = omega arith
newest-onto key action (some (k, a, ms)) es = refl

counted_here :
    (key action : Text) (u : Evictable) (created : ℕ)
    → u.static_key ≡ some key
    → u.candidate ≡ some (action, created)
    → created < u.last_used_ms
    → counted key action (kept_entry u false) ≡ u.last_used_ms
unfolding kept_entry
counted_here key action u created k c l =
    let b : ltb created u.last_used_ms ≡ true = ground (arith, l) in
    rw (k, kept_entry)
      (rw (c, kept_entry) (rw (b, kept_entry) (ground (arith, same_refl key, same_refl action))))

-- An entry counts only for a record that is kept, of these keys, and used since it was created.
counted_cases :
    (key action : Text) (u : Evictable) (evicted : Bool)
    → (counted key action (kept_entry u evicted) ≡ 0)
      ⊎ ((created : ℕ) × (u.static_key ≡ some key)
          × (u.candidate ≡ some (action, created))
          × (created < u.last_used_ms)
          × (evicted ≡ false)
          × (counted key action (kept_entry u evicted) ≡ u.last_used_ms))
unfolding kept_entry
counted_cases key action u true = inl (ground arith)
counted_cases key action u false = elim (Option-cases u.static_key) [
  | inl k ↦ inl (rw (k, kept_entry) refl)
  | inr (k', k) ↦ elim (Option-cases u.candidate) [
    | inl c ↦ inl (rw (k, kept_entry) (rw (c, kept_entry) refl))
    | inr ((a', created), c) ↦ elim (Bool-cases (ltb created u.last_used_ms)) [
      | inr b ↦ inl (rw (k, kept_entry) (rw (c, kept_entry) (rw (b, kept_entry) refl)))
      | inl b ↦ elim (Bool-cases (text_eq key k' && text_eq action a')) [
        | inr e ↦ inl (rw (k, kept_entry) (rw (c, kept_entry) (rw (b, kept_entry) (rw e refl))))
        | inl e ↦
            let ek : key ≡ k' = (same_iff key k').0 (ground (arith, e)) in
            let ea : action ≡ a' = (same_iff action a').0 (ground (arith, e)) in
            let k2 : u.static_key ≡ some key = rw ek k in
            let c2 : u.candidate ≡ some (action, created) = rw ea c in
            let l : created < u.last_used_ms = ground (arith, b) in
            inr (created, k2, c2, l, refl, counted_here key action u created k2 c2 l)
      ]
    ]
  ]
]

newest-cons :
    (key action : Text) (u : Evictable) (evicted : Bool) (us : List Evictable) (es : List Bool)
    → newest key action (kept_entries (u ∷ us) (evicted ∷ es))
      ≡ max (counted key action (kept_entry u evicted)) (newest key action (kept_entries us es))
unfolding kept_entries
newest-cons key action u evicted us es =
    newest-onto key action (kept_entry u evicted) (kept_entries us es)

used_below :
    (key action : Text) {ms : ℕ} {units : List Evictable} {evicted : List Bool}
    → UsedAt key action ms units evicted
    → ms ≤ newest key action (kept_entries units evicted)
used_below key action (here u created {us = us} {es = es} k c l e) =
    omega (arith, newest-cons key action u false us es, counted_here key action u created k c l, e)
used_below key action (there u evicted {us = us} {es = es} d) =
    omega (arith, newest-cons key action u evicted us es, used_below key action d)

kept_entries-empty :
    (key action : Text) (evicted : List Bool) → newest key action (kept_entries [] evicted) ≡ 0
unfolding kept_entries
kept_entries-empty key action evicted = refl

kept_entries-ended :
    (key action : Text) (u : Evictable) (us : List Evictable)
    → newest key action (kept_entries (u ∷ us) []) ≡ 0
unfolding kept_entries
kept_entries-ended key action u us = refl

reached_here :
    (key action : Text) (last : ℕ) (u : Evictable) (created : ℕ) (evicted : Bool)
    (us : List Evictable) (es : List Bool)
    → u.static_key ≡ some key
    → u.candidate ≡ some (action, created)
    → created < u.last_used_ms
    → evicted ≡ false
    → u.last_used_ms ≡ last
    → UsedAt key action last (u ∷ us) (evicted ∷ es)
reached_here key action last u created evicted us es k c l f e = rw f (here u created k c l e)

reached_later :
    (key action : Text) (last ms : ℕ) (u : Evictable) (evicted : Bool) (us : List Evictable)
    (es : List Bool)
    → UsedAt key action ms us es
    → last ≡ ms
    → UsedAt key action last (u ∷ us) (evicted ∷ es)
reached_later key action last ms u evicted us es d q = rw q (there u evicted d)

used_reached :
    (key action : Text) (units : List Evictable) (evicted : List Bool)
    → (newest key action (kept_entries units evicted) ≡ 0)
      ⊎ UsedAt key action (newest key action (kept_entries units evicted)) units evicted
used_reached key action [] evicted = inl (kept_entries-empty key action evicted)
used_reached key action (u ∷ us) [] = inl (kept_entries-ended key action u us)
used_reached key action (u ∷ us) (evicted ∷ es) =
    let r = newest key action (kept_entries (u ∷ us) (evicted ∷ es)) in
    let y = newest key action (kept_entries us es) in
    let e = newest-cons key action u evicted us es in
    elim (counted_cases key action u evicted) [
      | inl none_here ↦ elim (used_reached key action us es) [
        | inl none_later ↦ inl (omega (arith, e, none_here, none_later))
        | inr d ↦ inr (reached_later key action r y u evicted us es d (omega (arith, e, none_here)))
      ]
      | inr (created, k, c, l, f, own) ↦ elim (Bool-cases (ltb (u.last_used_ms) y)) [
        | inr b ↦
            inr (
              reached_here key action r u created evicted us es k c l f (ground (arith, e, own, b)))
        | inl b ↦ elim (used_reached key action us es) [
          | inl none_later ↦ absurd (ground (arith, b, none_later))
          | inr d ↦ inr (reached_later key action r y u evicted us es d (ground (arith, e, own, b)))
        ]
      ]
    ]

kept_entry-IsEntry :
    (u : Evictable) (evicted : Bool) (es : List Entry)
    → IsKeyed u
    → All IsEntry es
    → All IsEntry (onto (kept_entry u evicted) es)
unfolding kept_entry
kept_entry-IsEntry u evicted es h all = elim (Option-cases u.static_key) [
  | inl k ↦ rw (k, kept_entry) all
  | inr (key, k) ↦ elim (Option-cases u.candidate) [
    | inl c ↦ rw (k, kept_entry) (rw (c, kept_entry) all)
    | inr ((action, created), c) ↦
        let keyed = rw c at (rw k at h) in
        elim (Bool-cases (not evicted && ltb created u.last_used_ms)) [
          | inl b ↦ rw (k, kept_entry) (rw (c, kept_entry) (rw (b, kept_entry) (keyed, all)))
          | inr b ↦ rw (k, kept_entry) (rw (c, kept_entry) (rw (b, kept_entry) all))
        ]
  ]
]

kept_entries-IsEntry :
    (units : List Evictable) (evicted : List Bool)
    → All IsKeyed units
    → All IsEntry (kept_entries units evicted)
unfolding kept_entries
kept_entries-IsEntry [] evicted h = tt
kept_entries-IsEntry (u ∷ us) [] h = tt
kept_entries-IsEntry (u ∷ us) (e ∷ es) h =
    kept_entry-IsEntry u e (kept_entries us es) h.0 (kept_entries-IsEntry us es h.1)

-- Of records with well-formed keys and 64-bit times: after a collection the journal gives a pair of
-- keys the newest last use of the records of these keys that were kept and were used since they were
-- created, or 0 if there is none.
pub read_journal-compact_journal :
    (units : List Evictable) (evicted : List Bool) (key action : Text)
    → All IsKeyed units
    → IsNewestUse key action units evicted
        (last_use key action (read_journal (compact_journal units evicted ∷ []) []))
unfolding read_journal compact_journal
read_journal-compact_journal units evicted key action h =
    let es = kept_entries units evicted in
    let e : last_use key action (read_journal (compact_journal units evicted ∷ []) [])
        ≡ newest key action es =
      rw (parse_lines-journal_text es (kept_entries-IsEntry units evicted h))
        (omega (arith, last_use-note_uses key action es [], last_use-nil key action)) in
    rw e ((λ ms d. used_below key action d), used_reached key action units evicted)
