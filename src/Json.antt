-- ===== src/Json.antt =====
-- The crate serde_json's `Value` and `Map`, as src/aad.rs and src/ledger use them. A map keeps its
-- keys in the order of their bytes (Cargo.toml does not enable `preserve_order`).
pub mod Insert
pub mod Readable
use mipsorcu.Prelude.{
  false, ◌&&◌, true, ℕ, Bool, Text, text_eq, text_lt, Option, none, some, List, [], ◌∷◌,
  if◌then◌else◌,
}

-- A number is an unsigned integer, a negative integer or a float; what the last two hold is never read.
pub data Number : Type 0 where
  unsigned : ℕ → Number
  negative : ℕ → Number
  float : ℕ → Number

mutual
  pub data Value : Type 0 where
    null : Value
    boolean : Bool → Value
    number : Number → Value
    string : Text → Value
    array : Values → Value
    object : Map → Value

  pub data Values : Type 0 where
    nil : Values
    cons : Value → Values → Values

  pub data Map : Type 0 where
    end : Map
    entry : Text → Value → Map → Map

abbrev pub as_object : Value → Option Map
as_object (object m) = some m
as_object _ = none

abbrev pub as_str : Value → Option Text
as_str (string s) = some s
as_str _ = none

abbrev pub as_u64 : Value → Option ℕ
as_u64 (number (unsigned n)) = some n
as_u64 _ = none

-- `Map::get`
unfoldable pub get : Text → Map → Option Value
unfolding text_eq
get k end = none
get k (entry j v m) = if text_eq j k then some v else get k m

-- `Map::insert`, which keeps the keys sorted.
unfoldable pub insert : Text → Value → Map → Map
unfolding text_eq text_lt
insert k v end = entry k v end
insert k v (entry j w m) =
    let rest = entry j w (insert k v m) in
    if text_eq j k then entry k v m else if text_lt k j then entry k v (entry j w m) else rest

unfoldable pub keys : Map → List Text
keys end = []
keys (entry k v m) = k ∷ keys m

is_scalar : Value → Bool
is_scalar (number (unsigned n)) = true
is_scalar (string s) = true
is_scalar _ = false

-- the key is below the first key of the map
unfoldable pub key_below : Text → Map → Bool
unfolding text_lt
key_below k end = true
key_below k (entry j v m) = text_lt k j

-- texts and unsigned numbers under ascending keys
unfoldable pub is_flat : Map → Bool
unfolding is_scalar key_below
is_flat end = true
is_flat (entry k v m) = is_scalar v && key_below k m && is_flat m
