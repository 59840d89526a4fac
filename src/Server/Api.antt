-- ===== src/Server/Api.antt =====
-- The answers of the server's handlers and its guard: crates/bellows-server/src/main.rs, `ApiError`,
-- `authorize`. A refusal is its status; the message that goes with it is left out.
use bellows.Prelude.{Bool, true, false, Option, none, some, List, [], ◌∷◌, if◌then◌else◌}
use bellows.Prelude.Key.{list_cmp}
use bellows.Prelude.Text.{Text, text_eq, codes, strip_prefix}
use bellows.Store.Error.{Result, ok, err}

pub data Refusal : Type 0 where
  bad_request : Refusal
  unauthorized : Refusal
  forbidden : Refusal
  not_found : Refusal
  conflict : Refusal
  precondition_failed : Refusal
  payload_too_large : Refusal
  unprocessable_entity : Refusal
  internal : Refusal

pub data ApiResult {ℓ} (Value : Type ℓ) : Type ℓ where
  refused : Refusal → ApiResult Value
  answered : Value → ApiResult Value

-- What `?` does in a handler.
infixl 5 ◌>>=◌ ◌>>◌
abbrev pub ◌>>=◌ {ℓ κ} :
    {Value : Type ℓ} {Next : Type κ} → ApiResult Value → (Value → ApiResult Next) → ApiResult Next
◌>>=◌ r next = elim r [ refused why ↦ refused why | answered value ↦ next value ]

abbrev pub ◌>>◌ {ℓ κ} :
    {Value : Type ℓ} {Next : Type κ} → ApiResult Value → ApiResult Next → ApiResult Next
◌>>◌ r next = r >>= λ (ignored : _). next

abbrev pub refuse_if : Bool → Refusal → ApiResult (Unit {0})
refuse_if true why = refused why
refuse_if false why = answered tt

-- `map_err` to one status.
abbrev pub or_refuse {ℓ} : {A : Type ℓ} → Refusal → Result A → ApiResult A
or_refuse why (ok a) = answered a
or_refuse why (err e) = refused why

-- A check of each element, up to the first refusal.
abbrev pub each {ℓ} : {A : Type ℓ} → (A → ApiResult (Unit {0})) → List A → ApiResult (Unit {0})
each f [] = answered tt
each f (x ∷ xs) = f x >> each f xs

-- What follows `Bearer ` in the authorization header, or nothing.
unfoldable pub supplied_token : Option Text → Text
unfolding strip_prefix
supplied_token none = []
supplied_token (some header) = elim (strip_prefix (codes "Bearer ") header) [
  | none ↦ []
  | some token ↦ token
]

-- Without a configured token everyone is let in. `hash` is BLAKE3.
unfoldable pub authorize : (Text → Text) → Option Text → Option Text → ApiResult (Unit {0})
unfolding supplied_token list_cmp
authorize hash none header = answered tt
authorize hash (some expected) header =
    if text_eq (hash expected) (hash (supplied_token header))
    then answered tt
    else refused Refusal.unauthorized
