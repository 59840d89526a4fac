-- ===== src/Store/Sound.antt =====
-- What an accepted record is known to be: crates/bellows-core/src/lib.rs,
-- `validate_candidate_manifest`.
use bellows.Prelude.{◌≡◌, refl, Bool, true, false, List, [], ◌∷◌, ◌++◌, map, any, All, arith}
use bellows.Prelude.Text.{Text, text_eq}
use bellows.Prelude.Key.{text_key}
use bellows.Store.Error.{Error, Result, ok, err, ◌>>=◌, ◌>>◌, fail_if}
use bellows.Store.Keys.{validate_content_key, validate_content_key_iff, IsKey}
use bellows.Store.Records.{FileInput, EnvInput, Artifact}
use bellows.Store.Manifest.{fresh, check_files}

-- No element equals an earlier one, or one of `seen`.
abbrev pub Distinct : List Text → List Text → Type 0
Distinct seen [] = Unit
Distinct seen (x ∷ xs) = (any (text_eq x) seen ≡ false) × Distinct (x ∷ seen) xs

abbrev pub rev_onto : List Text → List Text → List Text
rev_onto [] seen = seen
rev_onto (x ∷ xs) seen = rev_onto xs (x ∷ seen)

pub Distinct-append :
    (seen xs ys : List Text)
    → Distinct seen xs
    → Distinct (rev_onto xs seen) ys
    → Distinct seen (xs ++ ys)
Distinct-append seen [] ys h k = k
Distinct-append seen (x ∷ xs) ys h k = (h.0, Distinct-append (x ∷ seen) xs ys h.1 k)

abbrev pub path_of : FileInput → Text
path_of f = f.path

abbrev pub name_of : EnvInput → Text
name_of i = i.name

abbrev pub file_name_of : Artifact → Text
file_name_of a = a.file_name

abbrev pub IsInput : (Text → Result (Unit {0})) → FileInput → Type 0
IsInput path_check f = (path_check f.path ≡ ok tt) × IsKey f.digest

-- A chain that succeeds has succeeded in its first step, and in the rest.
pub >>=-ok {ℓ κ} :
    {V : Type ℓ} {W : Type κ} {w : W} (first : Result V) (rest : V → Result W)
    → (first >>= rest) ≡ ok w
    → (v : V) × (first ≡ ok v) × (rest v ≡ ok w)
>>=-ok (err why) rest done = cc
>>=-ok (ok v) rest done = (v, refl, done)

pub >>-ok {ℓ} :
    {W : Type ℓ} {w : W} (first : Result (Unit {0})) (rest : Result W)
    → (first >> rest) ≡ ok w
    → (first ≡ ok tt) × (rest ≡ ok w)
>>-ok (err why) rest done = cc
>>-ok (ok v) rest done = (refl, done)

pub fresh-ok :
    (e : Error) (x : Text) (seen : List Text) {seen' : List Text}
    → fresh e x seen ≡ ok seen'
    → (any (text_eq x) seen ≡ false) × (seen' ≡ x ∷ seen)
fresh-ok e x seen h = ground (arith, h)

pub fail_if-ok : (b : Bool) (e : Error) → fail_if b e ≡ ok tt → b ≡ false
fail_if-ok true e h = cc
fail_if-ok false e h = refl

pub check_files-ok :
    (path_check : Text → Result (Unit {0})) (fs : List FileInput) (seen : List Text)
    {out : List Text}
    → check_files path_check fs seen ≡ ok out
    → All (IsInput path_check) fs
      × Distinct seen (map path_of fs)
      × (out ≡ rev_onto (map path_of fs) seen)
unfolding check_files
check_files-ok path_check [] seen h = (tt, tt, ground (arith, h))
check_files-ok path_check (f ∷ fs) seen h =
    let (a, h1) = >>-ok (path_check f.path) _ h in
    let (b, h2) = >>-ok (validate_content_key f.digest) _ h1 in
    let (s, c, h3) = >>=-ok (fresh Error.duplicate_input f.path seen) _ h2 in
    let (d, e) = fresh-ok Error.duplicate_input f.path seen c in
    let (p, q, r) = check_files-ok path_check fs (f.path ∷ seen) (rw e at h3) in
    (((a, (validate_content_key_iff f.digest).0 b), p), (d, q), r)
