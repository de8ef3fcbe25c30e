-- ===== src/Tests/Codec.antt =====
-- An injective encoding of JSON values, which the stand-in for serde_json writes.
use mipsorcu.Json.{
  Number, unsigned, negative, float, Value, Values, Map, null, boolean, number, string, array,
  object, nil, cons, end, entry,
}
use mipsorcu.Prelude.{ℕ, ◌≡◌, Bool, true, false, Bytes, Text, [], ◌∷◌, arith}

encode_text : Text → Bytes → Bytes
encode_text [] r = 0 ∷ r
encode_text (c ∷ s) r = 1 ∷ c ∷ encode_text s r

encode_bool : Bool → ℕ
encode_bool true = 1
encode_bool false = 0

encode_number : Number → Bytes → Bytes
encode_number (unsigned n) r = 0 ∷ n ∷ r
encode_number (negative n) r = 1 ∷ n ∷ r
encode_number (float n) r = 2 ∷ n ∷ r

unfoldable mutual
  unfolding encode_bool encode_number encode_text

  pub encode : Value → Bytes → Bytes
  encode null r = 0 ∷ r
  encode (boolean b) r = 1 ∷ encode_bool b ∷ r
  encode (number n) r = 2 ∷ encode_number n r
  encode (string s) r = 3 ∷ encode_text s r
  encode (array vs) r = 4 ∷ encode_values vs r
  encode (object m) r = 5 ∷ encode_map m r

  pub encode_values : Values → Bytes → Bytes
  encode_values nil r = 0 ∷ r
  encode_values (cons v vs) r = 1 ∷ encode v (encode_values vs r)

  pub encode_map : Map → Bytes → Bytes
  encode_map end r = 0 ∷ r
  encode_map (entry k v m) r = 1 ∷ encode_text k (encode v (encode_map m r))

encode_text-injective :
    (s t : Text) (r q : Bytes) → encode_text s r ≡ encode_text t q → (s ≡ t) × (r ≡ q)
unfolding encode_text
encode_text-injective [] [] r q h = ground arith
encode_text-injective [] (x ∷ t) r q h = ground arith
encode_text-injective (x ∷ s) [] r q h = ground arith
encode_text-injective (x ∷ s) (y ∷ t) r q h = ground (arith, encode_text-injective s t r q)

encode_number-injective :
    (m n : Number) (r q : Bytes) → encode_number m r ≡ encode_number n q → (m ≡ n) × (r ≡ q)
unfolding encode_number
encode_number-injective m n r q h = ground arith

encode_bool-injective : (a b : Bool) → encode_bool a ≡ encode_bool b → a ≡ b
unfolding encode_bool
encode_bool-injective a b h = ground arith

mutual
  unfolding encode

  encode-injective : (v w : Value) (r q : Bytes) → encode v r ≡ encode w q → (v ≡ w) × (r ≡ q)
  encode-injective null null r q h = ground arith
  encode-injective (boolean a) (boolean b) r q h = ground (arith, encode_bool-injective a b)
  encode-injective (number m) (number n) r q h = ground (arith, encode_number-injective m n r q)
  encode-injective (string s) (string t) r q h = ground (arith, encode_text-injective s t r q)
  encode-injective (array vs) (array ws) r q h = ground (arith, values-injective vs ws r q)
  encode-injective (object m) (object n) r q h = ground (arith, map-injective m n r q)
  encode-injective _ _ r q h = ground arith

  values-injective :
      (v w : Values) (r q : Bytes) → encode_values v r ≡ encode_values w q → (v ≡ w) × (r ≡ q)
  values-injective nil nil r q h = ground arith
  values-injective (cons v vs) (cons w ws) r q h = ground (
    arith,
    encode-injective v w (encode_values vs r) (encode_values ws q),
    values-injective vs ws r q,
  )
  values-injective _ _ r q h = ground arith

  map-injective : (v w : Map) (r q : Bytes) → encode_map v r ≡ encode_map w q → (v ≡ w) × (r ≡ q)
  map-injective end end r q h = ground arith
  map-injective (entry k v m) (entry l w n) r q h = ground (
    arith,
    encode_text-injective k l (encode v (encode_map m r)) (encode w (encode_map n q)),
    encode-injective v w (encode_map m r) (encode_map n q),
    map-injective m n r q,
  )
  map-injective _ _ r q h = ground arith

pub encode_lem : (v w : Value) → encode v [] ≡ encode w [] → v ≡ w
encode_lem v w h = (encode-injective v w [] [] h).0
