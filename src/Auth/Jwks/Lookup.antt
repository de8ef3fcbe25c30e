-- ===== src/Auth/Jwks/Lookup.antt =====
-- What holds of a key set that `Jwks::new` accepts.
use mipsorcu.Auth.Jwks.{
  Jwk, Jwks, key_not_found, validate_for_rs256, validate_keys, new_jwks, find_signing_key, Response,
  fetch_jwks, jwks_error, network, is_success, non_success_status, invalid_response,
}
use mipsorcu.Prelude.{
  ◌≡◌, refl, Text, Result, ok, ok_or, find, none, some, List, [], ◌∷◌, text_eq, arith,
  map_err-eq-ok, >>=-eq-ok, Option, map_err, reject, not,
}

head-valid :
    (key : Jwk) (keys : List Jwk)
    → validate_keys (key ∷ keys) ≡ ok tt
    → validate_for_rs256 key ≡ ok tt
unfolding validate_keys
head-valid key keys h = ground arith

tail-valid :
    (key : Jwk) (keys : List Jwk) → validate_keys (key ∷ keys) ≡ ok tt → validate_keys keys ≡ ok tt
unfolding validate_keys
tail-valid key keys h = ground arith

pub find-valid :
    (key_id : Text) (keys : List Jwk) (key : Jwk)
    → validate_keys keys ≡ ok tt
    → find (λ (k : Jwk). text_eq k.kid key_id) keys ≡ some key
    → validate_for_rs256 key ≡ ok tt
find-valid key_id [] key h f = cc
find-valid key_id (k ∷ keys) key h f =
    ground (arith, head-valid k keys h, find-valid key_id keys key (tail-valid k keys h))

pub new_jwks-valid :
    (keys : List Jwk) (jwks : Jwks)
    → new_jwks keys ≡ ok jwks
    → (jwks.keys ≡ keys) × (validate_keys keys ≡ ok tt)
unfolding new_jwks
new_jwks-valid keys jwks h = ground arith

found :
    (key_id : Text) (jwks : Jwks) (r : Option Jwk)
    → validate_keys jwks.keys ≡ ok tt
    → find (λ (k : Jwk). text_eq k.kid key_id) jwks.keys ≡ r
    → find_signing_key jwks key_id ≡ ok_or r key_not_found
unfolding find_signing_key
found key_id jwks none h f = rw f refl
found key_id jwks (some key) h f = rw (f, find-valid key_id jwks.keys key h f) refl

fetched :
    (send : Text → Result Text Response) (jwks_url : Text) (jwks : Jwks)
    → fetch_jwks send jwks_url ≡ ok jwks
    → (keys : List Jwk) × (new_jwks keys ≡ ok jwks)
unfolding fetch_jwks
fetched send jwks_url jwks h =
    let (response, _, h1) = >>=-eq-ok (map_err network (send jwks_url)) _ h in
    let (_, _, h2) =
      >>=-eq-ok (reject (not (is_success response.status)) (non_success_status response.status)) _
        h1 in
    let (sent, _, h3) = >>=-eq-ok (map_err invalid_response response.json) _ h2 in
    (sent.keys, map_err-eq-ok jwks_error (new_jwks sent.keys) h3)

fetch_jwks-valid :
    (send : Text → Result Text Response) (jwks_url : Text) (jwks : Jwks)
    → fetch_jwks send jwks_url ≡ ok jwks
    → validate_keys jwks.keys ≡ ok tt
fetch_jwks-valid send jwks_url jwks h =
    let (keys, made) = fetched send jwks_url jwks h in
    let (same, valid) = new_jwks-valid keys jwks made in rw same valid

-- In a key set that was fetched, the signing key of a key id is the first key with that id, or
-- KeyNotFound where there is none: the validation of the key that is found never fails.
pub find_signing_key-fetch_jwks :
    (send : Text → Result Text Response) (jwks_url : Text) (jwks : Jwks) (key_id : Text)
    → fetch_jwks send jwks_url ≡ ok jwks
    → find_signing_key jwks key_id
      ≡ ok_or (find (λ (k : Jwk). text_eq k.kid key_id) jwks.keys) key_not_found
find_signing_key-fetch_jwks send jwks_url jwks key_id h =
    found key_id jwks _ (fetch_jwks-valid send jwks_url jwks h) refl
