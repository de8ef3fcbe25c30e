-- ===== src/Auth/Jwks.antt =====
-- src/auth/jwks.rs: the keys that tokens are verified with, the shared cache of a set, and the fetch.
-- `reqwest` is the function that sends a request.
pub mod Lookup
pub mod Fit
use mipsorcu.Prelude.{
  ℕ, Bool, true, false, not, ◌&&◌, ◌||◌, Text, codes, Option, none, some, Result, ok, err, ◌>>=◌,
  ◌>>◌, ok_or, map_err, reject, List, [], ◌∷◌, find, leb, is_empty, text_eq, is_blank,
  if◌then◌else◌,
}

pub data JwtVerificationError : Type 0 where
  empty_token invalid_token missing_key_id unsupported_algorithm key_not_found :
      JwtVerificationError
  invalid_signature expired invalid_issuer invalid_audience invalid_subject : JwtVerificationError
  invalid_jwks malformed_claims : JwtVerificationError

pub record Jwk : Type 0 where
  pub kty : Text
  pub kid : Text
  pub alg : Option Text
  pub public_key_use : Option Text
  pub n : Text
  pub e : Text

pub record Jwks : Type 0 where
  pub keys : List Jwk

-- `value.as_deref().is_some_and(|value| value != expected)`
unfoldable pub is_other : Option Text → Text → Bool
unfolding text_eq
is_other none expected = false
is_other (some value) expected = not (text_eq value expected)

unfoldable pub validate_for_rs256 : Jwk → Result JwtVerificationError (Unit {0})
unfolding is_other text_eq is_blank
validate_for_rs256 key = do
  reject (not (text_eq key.kty (codes "RSA"))) invalid_jwks
  reject (is_other key.public_key_use (codes "sig")) invalid_jwks
  reject (is_other key.alg (codes "RS256")) unsupported_algorithm
  reject (is_blank key.kid || is_blank key.n || is_blank key.e) invalid_jwks

-- the loop of `Jwks::new`
unfoldable pub validate_keys : List Jwk → Result JwtVerificationError (Unit {0})
validate_keys [] = ok tt
validate_keys (key ∷ keys) = do validate_for_rs256 key; validate_keys keys

-- `Jwks::new`
unfoldable pub new_jwks : List Jwk → Result JwtVerificationError Jwks
new_jwks keys = do
  reject (is_empty keys) invalid_jwks
  validate_keys keys
  ok (record { keys = keys })

unfoldable pub find_signing_key : Jwks → Text → Result JwtVerificationError Jwk
unfolding text_eq
find_signing_key jwks key_id = do
  key ← ok_or (find (λ (key : Jwk). text_eq key.kid key_id) jwks.keys) key_not_found
  validate_for_rs256 key
  ok key

-- `Arc<RwLock<Jwks>>`: what every clone of the cache sees, and whether a writer has panicked.
pub record JwksCache : Type 0 where
  pub inner : Jwks
  pub is_poisoned : Bool

-- `JwksCache::new`
unfoldable pub new_cache : Jwks → JwksCache
new_cache jwks = record { inner = jwks; is_poisoned = false }

unfoldable pub snapshot : JwksCache → Result JwtVerificationError Jwks
snapshot cache = if cache.is_poisoned then err invalid_jwks else ok cache.inner

unfoldable pub replace : JwksCache → Jwks → Result JwtVerificationError (Unit {0}) × JwksCache
replace cache jwks =
    if cache.is_poisoned
    then (err invalid_jwks, cache)
    else (ok tt, record { inner = jwks; is_poisoned = false })

pub data JwksFetchError : Type 0 where
  network invalid_response : Text → JwksFetchError
  non_success_status : ℕ → JwksFetchError
  jwks_error : JwtVerificationError → JwksFetchError

-- A response: its status, and what `json::<Jwks>()` gives for its body.
pub record Response : Type 0 where
  pub status : ℕ
  pub json : Result Text Jwks

-- `StatusCode::is_success`
abbrev pub is_success : ℕ → Bool
is_success status = leb 200 status && leb status 299

unfoldable pub fetch_jwks : (Text → Result Text Response) → Text → Result JwksFetchError Jwks
fetch_jwks send jwks_url = do
  response ← map_err network (send jwks_url)
  reject (not (is_success response.status)) (non_success_status response.status)
  jwks ← map_err invalid_response response.json
  map_err jwks_error (new_jwks jwks.keys)
