-- ===== src/Auth/Verifier.antt =====
-- src/auth/verifier.rs, and `RawJwt` of src/auth/jwt.rs. The crate jsonwebtoken is a parameter.
pub mod Decoding
pub mod Acceptance
use mipsorcu.Authorization.{VerifiedJwtClaims}
use mipsorcu.Auth.Jwks.{
  JwtVerificationError, empty_token, invalid_token, missing_key_id, unsupported_algorithm,
  invalid_signature, expired, invalid_issuer, invalid_audience, invalid_subject, invalid_jwks,
  malformed_claims, Jwk, Jwks, JwksCache, snapshot, find_signing_key, new_cache,
}
use mipsorcu.Crates.{Crates}
use mipsorcu.Prelude.{
  ℕ, Bool, not, ◌||◌, Text, Option, Result, ok, err, ◌>>=◌, ◌>>◌, ok_or, map_err, reject, List, [],
  ◌∷◌, ◌==◌, is_blank, if◌then◌else◌,
}
use mipsorcu.Secrets.{parse_owner_user_id}

-- `jsonwebtoken::Algorithm` and `DecodingKey` are opaque values, held as numbers.
abbrev pub Algorithm : Type 0
Algorithm = ℕ

abbrev pub DecodingKey : Type 0
DecodingKey = ℕ

-- `jsonwebtoken::errors::ErrorKind`: the kinds that are told apart, and the others by number
pub data ErrorKind : Type 0 where
  bad_signature expired_signature bad_issuer bad_audience bad_algorithm json : ErrorKind
  other : ℕ → ErrorKind

-- `jsonwebtoken::Header`
pub record Header : Type 0 where
  pub alg : Algorithm
  pub kid : Option Text

-- `jsonwebtoken::Validation`
pub record Validation : Type 0 where
  pub algorithm : Algorithm
  pub issuers : List Text
  pub audiences : List Text
  pub leeway : ℕ

pub record RegisteredJwtClaims : Type 0 where
  pub sub : Text
  pub iss : Text
  pub aud : Text
  pub exp : ℕ
  pub mipsorcu_roles : List Text

-- What the verifier calls of jsonwebtoken: `Algorithm::RS256`, `decode_header`,
-- `DecodingKey::from_rsa_components` and `decode::<RegisteredJwtClaims>`.
pub record JsonWebToken : Type 0 where
  pub rs256 : Algorithm
  pub decode_header : Text → Result ErrorKind Header
  pub from_rsa_components : Text → Text → Option DecodingKey
  pub decode : Text → DecodingKey → Validation → Result ErrorKind RegisteredJwtClaims

unfoldable pub map_jwt_error : ErrorKind → JwtVerificationError
map_jwt_error bad_signature = invalid_signature
map_jwt_error expired_signature = expired
map_jwt_error bad_issuer = invalid_issuer
map_jwt_error bad_audience = invalid_audience
map_jwt_error bad_algorithm = unsupported_algorithm
map_jwt_error json = malformed_claims
map_jwt_error (other k) = invalid_token

pub record RawJwt : Type 0 where
  pub text : Text

-- `RawJwt::new`
unfoldable pub new_raw_jwt : Text → Result JwtVerificationError RawJwt
unfolding is_blank
new_raw_jwt value = do reject (is_blank value) empty_token; ok (record { text = value })

pub record JwtVerifierConfig : Type 0 where
  pub issuer : Text
  pub audience : Text
  pub leeway_seconds : ℕ

unfoldable pub with_leeway_seconds : Text → Text → ℕ → Result JwtVerificationError JwtVerifierConfig
unfolding is_blank
with_leeway_seconds issuer audience leeway_seconds = do
  reject (is_blank issuer || is_blank audience) malformed_claims
  ok (record { issuer = issuer; audience = audience; leeway_seconds = leeway_seconds })

-- `JwtVerifierConfig::new`
unfoldable pub new_config : Text → Text → Result JwtVerificationError JwtVerifierConfig
new_config issuer audience = with_leeway_seconds issuer audience 0

pub record JwtVerifier : Type 0 where
  pub config : JwtVerifierConfig
  pub jwks_cache : JwksCache

unfoldable pub with_cache : JwtVerifierConfig → JwksCache → JwtVerifier
with_cache config jwks_cache = record { config = config; jwks_cache = jwks_cache }

-- `JwtVerifier::new`
unfoldable pub new_verifier : JwtVerifierConfig → Jwks → JwtVerifier
unfolding new_cache
new_verifier config jwks = with_cache config (new_cache jwks)

module _ (c : Crates) (jwt : JsonWebToken) where
  unfoldable pub decoding_key : Jwk → Result JwtVerificationError DecodingKey
  decoding_key key = ok_or (jwt.from_rsa_components key.n key.e) invalid_jwks

  -- the `Validation` that `verify` sets up
  abbrev pub validation_of : JwtVerifierConfig → Validation
  validation_of config = record {
    algorithm = jwt.rs256;
    issuers = config.issuer ∷ [];
    audiences = config.audience ∷ [];
    leeway = config.leeway_seconds;
  }

  -- `VerifiedJwtClaims::new` on the claims of the token
  abbrev pub verified_claims : ℕ → RegisteredJwtClaims → VerifiedJwtClaims
  verified_claims subject claims = record {
    subject_user_id = subject;
    issuer = claims.iss;
    audience = claims.aud;
    expires_at = claims.exp;
    mipsorcu_roles = claims.mipsorcu_roles;
  }

  unfoldable pub verify : JwtVerifier → RawJwt → Result JwtVerificationError VerifiedJwtClaims
  verify verifier raw_jwt = do
    header ← map_err map_jwt_error (jwt.decode_header raw_jwt.text)
    reject (not (header.alg == jwt.rs256)) unsupported_algorithm
    key_id ← ok_or header.kid missing_key_id
    jwks ← snapshot verifier.jwks_cache
    jwk ← find_signing_key jwks key_id
    key ← decoding_key jwk
    claims ← map_err map_jwt_error (jwt.decode raw_jwt.text key (validation_of verifier.config))
    subject ← map_err (λ e. invalid_subject) (parse_owner_user_id c claims.sub)
    ok (verified_claims subject claims)
