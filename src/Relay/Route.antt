-- ===== src/Relay/Route.antt =====
-- Which request goes where: crates/bellows-cli/src/relay.rs, `handle` and `authorized`.
use Prim.Native.Nat.{bit_or, bit_xor}
use bellows.Prelude.{
  ℕ, Bool, true, false, ◌&&◌, ◌||◌, not, Option, none, some, List, [], ◌∷◌, if◌then◌else◌, ◌==◌,
  length,
}
use bellows.Prelude.Key.{list_cmp, text_key}
use bellows.Prelude.Text.{Text, text_eq, codes, strip_prefix}
use bellows.Prelude.Split.{split_on}
use bellows.Relay.State.{BlobState, Deferred, Status}

-- The methods that the relay tells apart.
pub data Method : Type 0 where
  get_method : Method
  head : Method
  put : Method
  post : Method
  delete : Method
  other_method : Method

abbrev pub is_method : Method → Method → Bool
is_method Method.get_method Method.get_method = true
is_method Method.head Method.head = true
is_method Method.put Method.put = true
is_method Method.post Method.post = true
is_method Method.delete Method.delete = true
is_method _ _ = false

-- The differences of two byte strings, or'ed together as far as both go.
unfoldable pub differences : ℕ → Text → Text → ℕ
differences acc [] right = acc
differences acc (a ∷ left) [] = acc
differences acc (a ∷ left) (b ∷ right) = differences (bit_or acc (bit_xor a b)) left right

abbrev pub bearer : Text
bearer = codes "Bearer "

-- `header` is the value of the authorization header, if it is there and text.
unfoldable pub authorized : Text → Option Text → Bool
unfolding strip_prefix differences
authorized token none = false
authorized token (some header) = elim (strip_prefix bearer header) [
  | none ↦ false
  | some value ↦ length value == length token && differences 0 value token == 0
]

abbrev pub is_known : Option BlobState → Bool
is_known (some BlobState.pending) = true
is_known (some BlobState.done) = true
is_known _ = false

-- `trim_start_matches('/')`.
unfoldable pub trim_slashes : Text → Text
trim_slashes [] = []
trim_slashes (c ∷ s) = let rest = trim_slashes s in if c == b'/' then rest else c ∷ s

-- A slice pattern of literals, and of places that take any segment.
unfoldable pub fits : List (Option Text) → List Text → Bool
fits [] [] = true
fits [] (s ∷ segments) = false
fits (p ∷ pattern') [] = false
fits (none ∷ pattern') (s ∷ segments) = fits pattern' segments
fits (some word ∷ pattern') (s ∷ segments) = text_eq word s && fits pattern' segments

abbrev pub third_of : List Text → Text
third_of (a ∷ b ∷ c ∷ rest) = c
third_of _ = []

abbrev pub blob_route : List (Option Text)
blob_route = some (codes "v1") ∷ some (codes "blobs") ∷ none ∷ []

abbrev pub action_route : List (Option Text)
action_route = some (codes "v1") ∷ some (codes "actions") ∷ none ∷ none ∷ []

abbrev pub used_route : List (Option Text)
used_route = some (codes "v1") ∷ some (codes "actions") ∷ none ∷ none ∷ some (codes "used") ∷ []

abbrev pub release_route : List (Option Text)
release_route = some (codes "v1") ∷ some (codes "leases") ∷ none ∷ none ∷ []

abbrev pub acquire_route : List (Option Text)
acquire_route = some (codes "v1") ∷ some (codes "leases") ∷ none ∷ []

-- What the relay does with a request.
pub data Route : Type 0 where
  answers : Status → Route
  asks_blob : Text → Route
  puts_blob : Text → Route
  defers : Deferred → Route
  forwards : Route
  waits_and_forwards : Route

-- The arms of the match, in order.
unfoldable pub route : Method → List Text → Route
unfolding fits list_cmp
route method segments =
    if fits blob_route segments && is_method method Method.head
    then Route.asks_blob (third_of segments)
    else if fits blob_route segments && is_method method Method.put
    then Route.puts_blob (third_of segments)
    else if fits action_route segments && is_method method Method.put
    then Route.defers Deferred.records
    else if fits used_route segments && is_method method Method.post
    then Route.defers Deferred.use_mark
    else if fits release_route segments && is_method method Method.delete
    then Route.defers Deferred.release
    else if fits acquire_route segments && is_method method Method.post
    then Route.forwards
    else if is_method method Method.get_method || is_method method Method.head
    then Route.forwards
    else Route.waits_and_forwards

-- Liveness needs no token, everything else does.
unfoldable pub handle : Text → Method → Text → Option Text → Route
unfolding authorized route trim_slashes split_on list_cmp
handle token method path header =
    if text_eq path (codes "/live")
    then Route.answers Status.no_content
    else if not (authorized token header)
    then Route.answers Status.unauthorized
    else route method (split_on (λ c. c == b'/') (trim_slashes path))
