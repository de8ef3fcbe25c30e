-- ===== src/Auth.antt =====
-- src/auth: the JSON Web Key set (jwks.rs), the raw token (jwt.rs) and the verifier (verifier.rs),
-- with `JwtVerificationError` of src/error.rs.
pub mod Jwks
pub mod Verifier
