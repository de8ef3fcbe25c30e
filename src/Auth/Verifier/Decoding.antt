-- ===== src/Auth/Verifier/Decoding.antt =====
-- What jsonwebtoken does with the validation that the verifier sets up.
use mipsorcu.Auth.Verifier.{
  Algorithm, DecodingKey, JsonWebToken, JwtVerifierConfig, RegisteredJwtClaims, Validation,
  validation_of,
}
use mipsorcu.Crates.{Crates}
use mipsorcu.Prelude.{
  ℕ, ◌+◌, ◌≤◌, Bool, true, ◌≡◌, ◌↔◌, Text, Option, some, ok, [], ◌∷◌, contains, text_eq_iff, sym,
  arith,
}

-- What jsonwebtoken documents of `decode`, with the clock's time in seconds and a leeway that it can
-- take from it: the signature is verified under the key by the algorithm of the validation, the claims
-- are read, their issuer and audience are among those set, and the expiry is not past by more than the
-- leeway.
pub record JwtLaws (jwt : JsonWebToken) : Type 0 where
  pub now : ℕ
  pub is_signed : Text → DecodingKey → Algorithm → Bool
  pub claims_of : Text → Option RegisteredJwtClaims
  pub decode_iff :
      (token : Text) (key : DecodingKey) (validation : Validation) (claims : RegisteredJwtClaims)
      → validation.leeway ≤ now
      → (jwt.decode token key validation ≡ ok claims) ↔ (
          (is_signed token key validation.algorithm ≡ true)
          × (claims_of token ≡ some claims)
          × (contains validation.issuers claims.iss ≡ true)
          × (contains validation.audiences claims.aud ≡ true)
          × (now ≤ claims.exp + validation.leeway))

singleton : (x y : Text) → (contains (x ∷ []) y ≡ true) ↔ (y ≡ x)
unfolding contains
singleton x y = (
  λ h. let same : x ≡ y = ground (arith, text_eq_iff x y) in sym same,
  λ h. let same : x ≡ y = sym h in ground (arith, text_eq_iff x y),
)

module _ (c : Crates) (jwt : JsonWebToken) where
  -- what the token and the validation that is set up say, where the token is decoded
  pub decoded_iff :
      (laws : JwtLaws jwt) (config : JwtVerifierConfig) (token : Text) (key : DecodingKey)
      (claims : RegisteredJwtClaims)
      → config.leeway_seconds ≤ laws.now
      → (jwt.decode token key (validation_of c jwt config) ≡ ok claims) ↔ (
          (laws.is_signed token key jwt.rs256 ≡ true)
          × (laws.claims_of token ≡ some claims)
          × (claims.iss ≡ config.issuer)
          × (claims.aud ≡ config.audience)
          × (laws.now ≤ claims.exp + config.leeway_seconds))
  decoded_iff laws config token key claims in_time =
      let decoded = laws.decode_iff token key (validation_of c jwt config) claims in_time in
      let issuer = singleton config.issuer claims.iss in
      let audience = singleton config.audience claims.aud in
      (
        λ h. let (s, r, i, a, t) = decoded.0 h in (s, r, issuer.0 i, audience.0 a, t),
        λ (s, r, i, a, t). decoded.1 (s, r, issuer.1 i, audience.1 a, t),
      )
