-- ===== src/Auth/Jwks/Fit.antt =====
-- The keys that RS256 signatures are verified with.
use mipsorcu.Auth.Jwks.{Jwk, is_other, validate_for_rs256, invalid_jwks, unsupported_algorithm}
use mipsorcu.Prelude.{
  ◌≡◌, ◌↔◌, ◌⊎◌, inl, inr, refl, Bool, true, false, not, ◌||◌, ◌>>◌, reject, Text, codes, Option,
  none, some, ok, text_eq, text_eq_iff, is_blank, arith,
}

-- An RSA key with an id and both components, for signatures and for RS256 where it says what it is for.
pub record IsFit (jwk : Jwk) : Type 0 where
  pub is_rsa : jwk.kty ≡ codes "RSA"
  pub for_signatures : (jwk.public_key_use ≡ none) ⊎ (jwk.public_key_use ≡ some (codes "sig"))
  pub for_rs256 : (jwk.alg ≡ none) ⊎ (jwk.alg ≡ some (codes "RS256"))
  pub has_id : is_blank jwk.kid ≡ false
  pub has_modulus : is_blank jwk.n ≡ false
  pub has_exponent : is_blank jwk.e ≡ false

is_other_lem :
    (o : Option Text) (expected : Text)
    → (is_other o expected ≡ false) ↔ ((o ≡ none) ⊎ (o ≡ some expected))
unfolding is_other
is_other_lem none expected = (λ h. inl refl, λ h. refl)
is_other_lem (some value) expected = (
  λ h. inr (ground (arith, text_eq_iff value expected)),
  λ h. ground (arith, text_eq_iff value expected),
)

passes :
    (a b d x y z : Bool)
    → ((do
      reject (not a) invalid_jwks
      reject b invalid_jwks
      reject d unsupported_algorithm
      reject (x || y || z) invalid_jwks)
        ≡ ok tt)
      ↔ ((a ≡ true) × (b ≡ false) × (d ≡ false) × (x ≡ false) × (y ≡ false) × (z ≡ false))
passes a b d x y z = (λ h. ground arith, λ h. ground arith)

pub validate_for_rs256_iff : (jwk : Jwk) → (validate_for_rs256 jwk ≡ ok tt) ↔ IsFit jwk
unfolding validate_for_rs256
validate_for_rs256_iff jwk =
    let steps =
      passes (text_eq jwk.kty (codes "RSA")) (is_other jwk.public_key_use (codes "sig"))
        (is_other jwk.alg (codes "RS256")) (is_blank jwk.kid) (is_blank jwk.n) (is_blank jwk.e) in
    (
      λ h.
          let (rsa, use_of, alg, kid, n, e) = steps.0 h in
          record {
            is_rsa = (text_eq_iff jwk.kty (codes "RSA")).0 rsa;
            for_signatures = (is_other_lem jwk.public_key_use (codes "sig")).0 use_of;
            for_rs256 = (is_other_lem jwk.alg (codes "RS256")).0 alg;
            has_id = kid;
            has_modulus = n;
            has_exponent = e;
          },
      λ fit. steps.1 (
        (text_eq_iff jwk.kty (codes "RSA")).1 fit.is_rsa,
        (is_other_lem jwk.public_key_use (codes "sig")).1 fit.for_signatures,
        (is_other_lem jwk.alg (codes "RS256")).1 fit.for_rs256,
        fit.has_id,
        fit.has_modulus,
        fit.has_exponent,
      ),
    )
