-- ===== src/Tests/Auth.antt =====
-- Token verification on concrete inputs.
use mipsorcu.Auth.Jwks.{
  Jwk, Jwks, Response, fetch_jwks, find_signing_key, snapshot, replace, key_not_found,
  validate_for_rs256, validate_keys, new_jwks, is_other,
}
use mipsorcu.Auth.Jwks.Lookup.{find_signing_key-fetch_jwks}
use mipsorcu.Auth.Verifier.Decoding.{JwtLaws}
use mipsorcu.Auth.Verifier.{
  Validation, RegisteredJwtClaims, DecodingKey, Algorithm, ErrorKind, expired_signature,
  JsonWebToken, JwtVerifier, RawJwt, verify, with_cache, decoding_key,
}
use mipsorcu.Auth.Verifier.Acceptance.{IsAccepted, verify_iff, verify-replace}
use mipsorcu.Authorization.{VerifiedJwtClaims}
use mipsorcu.Prelude.{
  ℕ, Bool, true, ◌==◌, ◌&&◌, ◌+◌, ◌≤◌, leb, contains, if◌then◌else◌, arith, ◌≡◌, refl, ◌↔◌, Text,
  codes, none, some, Result, ok, err, find, ok_or, text_eq, [], ◌∷◌, is_blank, is_whitespace, trim,
  false,
}
use mipsorcu.Secrets.{parse_owner_user_id}
use mipsorcu.Tests.Toy.{toy}

abbrev key : Jwk
key = record {
  kty = codes "RSA";
  kid = codes "k1";
  alg = some (codes "RS256");
  public_key_use = none;
  n = codes "n";
  e = codes "e";
}

abbrev key_set : Jwks
key_set = record { keys = key ∷ [] }

abbrev next_key_set : Jwks
next_key_set = record { keys = (record key { kid = codes "k2" }) ∷ [] }

abbrev claims : RegisteredJwtClaims
claims = record { sub = 7 ∷ []; iss = codes "i"; aud = codes "a"; exp = 100; mipsorcu_roles = [] }

-- The seventh key signs every token by the fourth algorithm, for the claims of user 7; the time is 103.
abbrev is_signed : Text → DecodingKey → Algorithm → Bool
is_signed token key algorithm = key == 7 && algorithm == 4

abbrev jwt : JsonWebToken
jwt = record {
  rs256 = 4;
  decode_header = λ token. ok (record { alg = 4; kid = some (codes "k1") });
  from_rsa_components = λ n e. some 7;
  decode = λ token key validation.
      if is_signed token key validation.algorithm
        && contains validation.issuers claims.iss
        && contains validation.audiences claims.aud
        && leb 103 (claims.exp + validation.leeway)
      then ok claims
      else err expired_signature;
}

decodes :
    (test : Bool) (other : RegisteredJwtClaims)
    → Path
        (Result ErrorKind RegisteredJwtClaims)
        (if test then ok claims else err expired_signature)
        (ok other)
      ↔ ((test ≡ true) × (claims ≡ other))
decodes true other = (λ h. (refl, cc), λ h. cc)
decodes false other = (λ h. absurd cc, λ h. absurd cc)

tests :
    (a b d : Bool) (n m : ℕ)
    → ((a && b && d && leb n m) ≡ true) ↔ ((a ≡ true) × (b ≡ true) × (d ≡ true) × (n ≤ m))
tests a b d n m = (λ h. ground arith, λ h. ground arith)

decode_iff :
    (token : Text) (key : DecodingKey) (validation : Validation) (other : RegisteredJwtClaims)
    → (jwt.decode token key validation ≡ ok other) ↔ (
        (is_signed token key validation.algorithm ≡ true)
        × (some claims ≡ some other)
        × (contains validation.issuers other.iss ≡ true)
        × (contains validation.audiences other.aud ≡ true)
        × (103 ≤ other.exp + validation.leeway))
decode_iff token key validation other =
    let passed =
      tests (is_signed token key validation.algorithm) (contains validation.issuers claims.iss)
        (contains validation.audiences claims.aud) 103 (claims.exp + validation.leeway) in
    let decoded =
      decodes
        (is_signed token key validation.algorithm
          && contains validation.issuers claims.iss
          && contains validation.audiences claims.aud
          && leb 103 (claims.exp + validation.leeway))
        other in
    (
      λ h.
          let (test, same) = decoded.0 h in
          let (s, i, a, t) = passed.0 test in rw (← same) (s, refl, i, a, t),
      λ (s, r, i, a, t).
          let same : claims ≡ other = cc in
          decoded.1 (passed.1 (s, rw (← same) at i, rw (← same) at a, rw (← same) at t), same),
    )

abbrev jwt_laws : JwtLaws jwt
jwt_laws = record {
  now = 103;
  is_signed = is_signed;
  claims_of = λ token. some claims;
  decode_iff = λ token key validation other h. decode_iff token key validation other;
}

abbrev verifier : JwtVerifier
verifier = record {
  config = record { issuer = codes "i"; audience = codes "a"; leeway_seconds = 5 };
  jwks_cache = record { inner = key_set; is_poisoned = false };
}

abbrev token : RawJwt
token = record { text = codes "t" }

abbrev verified : VerifiedJwtClaims
verified = record {
  subject_user_id = 7;
  issuer = codes "i";
  audience = codes "a";
  expires_at = 100;
  mipsorcu_roles = [];
}

is_verified : verify toy jwt verifier token ≡ ok verified
unfolding verify snapshot find_signing_key validate_for_rs256 is_other text_eq is_blank trim
    is_whitespace decoding_key parse_owner_user_id toy contains
is_verified = refl

verify_iff_example :
    (verify toy jwt verifier token ≡ ok verified)
    ↔ IsAccepted toy jwt jwt_laws verifier token verified
verify_iff_example = verify_iff toy jwt jwt_laws verifier token verified (omega arith)

verify-replace_example :
    verify toy jwt (with_cache verifier.config (replace verifier.jwks_cache next_key_set).1) token
    ≡ err key_not_found
unfolding text_eq
verify-replace_example =
    verify-replace toy jwt verifier next_key_set token (record { alg = 4; kid = some (codes "k1") })
      (codes "k1") refl refl refl refl refl

abbrev send : Text → Result Text Response
send url = ok (record { status = 200; json = ok key_set })

fetched : fetch_jwks send (codes "u") ≡ ok key_set
unfolding fetch_jwks new_jwks validate_keys validate_for_rs256 is_other text_eq is_blank trim
    is_whitespace
fetched = refl

find_signing_key-fetch_jwks_example :
    find_signing_key key_set (codes "k1")
    ≡ ok_or (find (λ (k : Jwk). text_eq k.kid (codes "k1")) key_set.keys) key_not_found
find_signing_key-fetch_jwks_example =
    find_signing_key-fetch_jwks send (codes "u") key_set (codes "k1") fetched
