-- ===== src/Auth/Verifier/Acceptance.antt =====
-- Which tokens the verifier accepts.
use mipsorcu.Authorization.{VerifiedJwtClaims}
use mipsorcu.Auth.Jwks.{
  replace, invalid_subject, missing_key_id, unsupported_algorithm, key_not_found, invalid_jwks,
  JwtVerificationError, Jwks, JwksCache, snapshot, find_signing_key, Jwk, validate_for_rs256,
}
use mipsorcu.Auth.Verifier.Decoding.{JwtLaws, decoded_iff}
use mipsorcu.Auth.Jwks.Fit.{IsFit, validate_for_rs256_iff}
use mipsorcu.Auth.Verifier.{
  not, ok_or, reject, map_jwt_error, decoding_key, Option, ℕ, map_err, verify, with_cache,
  JsonWebToken, Header, RegisteredJwtClaims, RawJwt, JwtVerifier, validation_of, DecodingKey,
}
use mipsorcu.Crates.{Crates, Uuid}
use mipsorcu.Prelude.{
  Result, ℕ, true, ◌+◌, ◌≤◌, ap, sym, ◌∙◌, ◌↔◌, err, Text, map_err-eq-ok, ◌==◌, refl, arith,
  ==_refl, >>=-eq-ok, ◌≡◌, ok, find, some, none, text_eq, false,
}
use mipsorcu.Secrets.{parse_owner_user_id}

ok_or-ok :
    {A : Type 0} (o : Option A) (e : JwtVerificationError) {a : A} → ok_or o e ≡ ok a → o ≡ some a
ok_or-ok Option.none e h = cc
ok_or-ok (Option.some a) e h = cc

ok-injective :
    {x y : VerifiedJwtClaims}
    → Path (Result JwtVerificationError VerifiedJwtClaims) (ok x) (ok y)
    → x ≡ y
ok-injective h = cc

reject-ok : (a b : ℕ) (e : JwtVerificationError) → reject (not (a == b)) e ≡ ok tt → a ≡ b
reject-ok a b e h = ground arith

module _ (c : Crates) (jwt : JsonWebToken) where
  -- A token under RS256 that names a key of the set in use by its id: the key is the first with that
  -- id, and fit; the token is signed under the key's components by RS256; its claims have the
  -- configured issuer and audience, a user id as subject, and an expiry that is not past by more than
  -- the leeway; these are the verified claims.
  pub record IsAccepted (laws : JwtLaws jwt) (verifier : JwtVerifier) (raw_jwt : RawJwt)
      (verified : VerifiedJwtClaims) : Type 0 where
    pub header : Header
    pub header_decoded : jwt.decode_header raw_jwt.text ≡ ok header
    pub is_rs256 : header.alg ≡ jwt.rs256
    pub key_id : Text
    pub named : header.kid ≡ some key_id
    pub jwk : Jwk
    pub in_use : verifier.jwks_cache.is_poisoned ≡ false
    pub first : find (λ (k : Jwk). text_eq k.kid key_id) verifier.jwks_cache.inner.keys ≡ some jwk
    pub fit : IsFit jwk
    pub key : DecodingKey
    pub components : jwt.from_rsa_components jwk.n jwk.e ≡ some key
    pub signed : laws.is_signed raw_jwt.text key jwt.rs256 ≡ true
    pub claims : RegisteredJwtClaims
    pub claims_read : laws.claims_of raw_jwt.text ≡ some claims
    pub from_issuer : claims.iss ≡ verifier.config.issuer
    pub for_audience : claims.aud ≡ verifier.config.audience
    pub unexpired : laws.now ≤ claims.exp + verifier.config.leeway_seconds
    pub subject : Uuid
    pub parsed : parse_owner_user_id c claims.sub ≡ ok subject
    pub kept : verified ≡ record {
      subject_user_id = subject;
      issuer = claims.iss;
      audience = claims.aud;
      expires_at = claims.exp;
      mipsorcu_roles = claims.mipsorcu_roles;
    }

  snapshot-ok :
      (cache : JwksCache) (jwks : Jwks)
      → snapshot cache ≡ ok jwks
      → (cache.is_poisoned ≡ false) × (jwks ≡ cache.inner)
  unfolding snapshot
  snapshot-ok cache jwks h = ground arith

  signing_key-ok :
      (jwks : Jwks) (key_id : Text) (jwk : Jwk)
      → find_signing_key jwks key_id ≡ ok jwk
      → (find (λ (k : Jwk). text_eq k.kid key_id) jwks.keys ≡ some jwk)
        × (validate_for_rs256 jwk ≡ ok tt)
  unfolding find_signing_key
  signing_key-ok jwks key_id jwk h =
      let (key, e, h1) =
        >>=-eq-ok (ok_or (find (λ (k : Jwk). text_eq k.kid key_id) jwks.keys) key_not_found) _ h in
      let found = ok_or-ok (find (λ (k : Jwk). text_eq k.kid key_id) jwks.keys) key_not_found e in
      ground arith

  components-ok :
      (jwk : Jwk) (key : DecodingKey)
      → decoding_key c jwt jwk ≡ ok key
      → jwt.from_rsa_components jwk.n jwk.e ≡ some key
  unfolding decoding_key
  components-ok jwk key h = ok_or-ok _ invalid_jwks h

  module _ (laws : JwtLaws jwt) (verifier : JwtVerifier) (raw_jwt : RawJwt)
      (verified : VerifiedJwtClaims) (in_time : verifier.config.leeway_seconds ≤ laws.now) where
    verify-IsAccepted :
        verify c jwt verifier raw_jwt ≡ ok verified → IsAccepted laws verifier raw_jwt verified
    unfolding verify
    verify-IsAccepted h =
        let (header, e1, h1) =
          >>=-eq-ok (map_err map_jwt_error (jwt.decode_header raw_jwt.text)) _ h in
        let (_, e2, h2) =
          >>=-eq-ok (reject (not (header.alg == jwt.rs256)) unsupported_algorithm) _ h1 in
        let (key_id, e3, h3) = >>=-eq-ok (ok_or header.kid missing_key_id) _ h2 in
        let (jwks, e4, h4) = >>=-eq-ok (snapshot verifier.jwks_cache) _ h3 in
        let (jwk, e5, h5) = >>=-eq-ok (find_signing_key jwks key_id) _ h4 in
        let (key, e6, h6) = >>=-eq-ok (decoding_key c jwt jwk) _ h5 in
        let (claims, e7, h7) =
          >>=-eq-ok
            (map_err map_jwt_error
              (jwt.decode raw_jwt.text key (validation_of c jwt verifier.config)))
            _ h6 in
        let (subject, e8, h8) =
          >>=-eq-ok (map_err (λ e. invalid_subject) (parse_owner_user_id c claims.sub)) _ h7 in
        let (in_use, same) = snapshot-ok verifier.jwks_cache jwks e4 in
        let (first, fit) = signing_key-ok jwks key_id jwk e5 in
        let (signed, read, from_issuer, for_audience, unexpired) =
          (decoded_iff c jwt laws verifier.config raw_jwt.text key claims in_time).0
            (map_err-eq-ok _ _ e7) in
        record {
          header = header;
          header_decoded = map_err-eq-ok _ _ e1;
          is_rs256 = reject-ok header.alg jwt.rs256 unsupported_algorithm e2;
          key_id = key_id;
          named = ok_or-ok header.kid missing_key_id e3;
          jwk = jwk;
          in_use = in_use;
          first =
              ap (λ (j : Jwks). find (λ (k : Jwk). text_eq k.kid key_id) j.keys) (sym same) ∙ first;
          fit = (validate_for_rs256_iff jwk).0 fit;
          key = key;
          components = components-ok jwk key e6;
          signed = signed;
          claims = claims;
          claims_read = read;
          from_issuer = from_issuer;
          for_audience = for_audience;
          unexpired = unexpired;
          subject = subject;
          parsed = map_err-eq-ok _ _ e8;
          kept = sym (ok-injective h8);
        }

    IsAccepted-verify :
        IsAccepted laws verifier raw_jwt verified → verify c jwt verifier raw_jwt ≡ ok verified
    unfolding verify snapshot find_signing_key decoding_key
    IsAccepted-verify a =
        let decoded =
          (decoded_iff c jwt laws verifier.config raw_jwt.text a.key a.claims in_time).1
            (a.signed, a.claims_read, a.from_issuer, a.for_audience, a.unexpired) in
        let fit = (validate_for_rs256_iff a.jwk).1 a.fit in
        rw
          (
            a.header_decoded,
            a.is_rs256,
            ==_refl jwt.rs256,
            a.named,
            a.in_use,
            a.first,
            fit,
            a.components,
            decoded,
            a.parsed,
            a.kept,
          )
          refl

    -- With a leeway that the clock allows, the verifier returns claims for a token exactly when the
    -- token is accepted with these claims: it is signed by RS256 under the first key of the set in use
    -- with the key id of its header, and that key is fit; its claims have the configured issuer and
    -- audience, are not expired by more than the leeway, and have a user id as subject.
    pub verify_iff :
        (verify c jwt verifier raw_jwt ≡ ok verified) ↔ IsAccepted laws verifier raw_jwt verified
    verify_iff = (verify-IsAccepted, IsAccepted-verify)

  -- Once a key set without a key id replaces the one in a cache that is not poisoned, a verifier that
  -- shares the cache refuses every RS256 token that names this key id, with KeyNotFound.
  pub verify-replace :
      (verifier : JwtVerifier) (jwks : Jwks) (raw_jwt : RawJwt) (header : Header) (key_id : Text)
      → verifier.jwks_cache.is_poisoned ≡ false
      → find (λ (k : Jwk). text_eq k.kid key_id) jwks.keys ≡ none
      → jwt.decode_header raw_jwt.text ≡ ok header
      → header.alg ≡ jwt.rs256
      → header.kid ≡ some key_id
      → verify c jwt (with_cache verifier.config (replace verifier.jwks_cache jwks).1) raw_jwt
        ≡ err key_not_found
  unfolding verify snapshot find_signing_key replace with_cache
  verify-replace verifier jwks raw_jwt header key_id fresh absent decoded alg named =
      rw (fresh, decoded, alg, ==_refl jwt.rs256, named, absent) refl
