-- ===== src/Authorization.antt =====
-- src/authorization.rs, and the claims of src/auth/jwt.rs that it decides on.
use mipsorcu.Crates.{Uuid}
use mipsorcu.Errors.{AuthorizationError, owner_mismatch, not_current_version, missing_auditor_role}
use mipsorcu.Prelude.{ℕ, Bool, not, Text, codes, Result, ok, reject, ◌>>◌, List, ◌==◌, contains}

pub record VerifiedJwtClaims : Type 0 where
  pub subject_user_id : Uuid
  pub issuer : Text
  pub audience : Text
  pub expires_at : ℕ
  pub mipsorcu_roles : List Text

-- `VerifiedJwtClaims::has_mipsorcu_role`
unfoldable pub has_mipsorcu_role : VerifiedJwtClaims → Text → Bool
unfolding contains
has_mipsorcu_role claims role = contains claims.mipsorcu_roles role

unfoldable pub authorize_new_secret_create :
    VerifiedJwtClaims → Result AuthorizationError (Unit {0})
authorize_new_secret_create claims = ok tt

unfoldable pub authorize_current_version_decrypt :
    VerifiedJwtClaims → Uuid → ℕ → ℕ → Result AuthorizationError (Unit {0})
authorize_current_version_decrypt claims owner_user_id requested_version current_version = do
  reject (not (claims.subject_user_id == owner_user_id)) owner_mismatch
  reject (not (requested_version == current_version)) not_current_version
  ok tt

unfoldable pub authorize_existing_secret_version_write :
    VerifiedJwtClaims → Uuid → Result AuthorizationError (Unit {0})
authorize_existing_secret_version_write claims owner_user_id =
    reject (not (claims.subject_user_id == owner_user_id)) owner_mismatch

unfoldable pub authorize_audit_ui_read : VerifiedJwtClaims → Result AuthorizationError (Unit {0})
unfolding has_mipsorcu_role
authorize_audit_ui_read claims =
    reject (not (has_mipsorcu_role claims (codes "auditor"))) missing_auditor_role
