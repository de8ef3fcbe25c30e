-- ===== src/Audit/Event.antt =====
-- `AuditEvent` of src/audit/event/model.rs, its identifiers in src/audit/event/id.rs and its
-- validation in src/audit/event/validation.rs.
pub mod Validity
use mipsorcu.Audit.Action.{
  AuditAction, AuditResult, AuditEventError, invalid_uuid, write_success_action_not_allowed,
  failure_only_action_success_not_allowed, auth_failure_field_must_be_null, is_write_success_only,
  is_failure_only, is_auth_failure, is_success,
}
use mipsorcu.Audit.Metadata.{
  AuditMetadata, require_source_event_at, validate_allowlist_for_action,
  with_current_source_event_at,
}
use mipsorcu.Crates.{Crates, Uuid, OffsetDateTime}
use mipsorcu.Draws.{Draw}
use mipsorcu.Prelude.{
  is_some, ℕ, ◌&&◌, Text, codes, Option, Result, ok, err, ◌>>=◌, ◌>>◌, ok_or, map_err, reject,
  if◌then◌else◌,
}
use mipsorcu.Secrets.{generate_uuid}

-- the fields of `AuditEventParts`, which are also those of `AuditEvent`
pub record AuditEventParts : Type 0 where
  pub audit_event_id : Uuid
  pub request_id : Uuid
  pub actor_user_id : Option Uuid
  pub actor_device_id : Option Text
  pub action : AuditAction
  pub target_secret_id : Option Uuid
  pub result : AuditResult
  pub key_version : Option ℕ
  pub metadata_json : AuditMetadata

-- An event has private fields: `AuditEvent::new` makes it of parts that are valid.
pub record AuditEvent : Type 0 where
  pub parts : AuditEventParts

unfoldable pub validate_auth_failure_parts : AuditEventParts → Result AuditEventError (Unit {0})
validate_auth_failure_parts parts = do
  reject (is_some parts.actor_user_id) (auth_failure_field_must_be_null (codes "actor_user_id"))
  reject (is_some parts.actor_device_id) (auth_failure_field_must_be_null (codes "actor_device_id"))
  reject (is_some parts.target_secret_id)
      (auth_failure_field_must_be_null (codes "target_secret_id"))
  reject (is_some parts.key_version) (auth_failure_field_must_be_null (codes "key_version"))

module _ (c : Crates) where
  -- `AuditEventId::generate` and `RequestId::generate`, with the field that an error names
  unfoldable pub generate_id : Text → Draw AuditEventError Uuid
  unfolding generate_uuid
  generate_id field k = let (r, k') = generate_uuid c k in (map_err (λ e. invalid_uuid field) r, k')

  -- `AuditEventId::parse` and `RequestId::parse`
  unfoldable pub parse_id : Text → Text → Result AuditEventError Uuid
  parse_id field value = ok_or (c.parse_str value) (invalid_uuid field)

  unfoldable pub validate_event_parts : AuditEventParts → Result AuditEventError (Unit {0})
  unfolding validate_auth_failure_parts require_source_event_at validate_allowlist_for_action
      is_write_success_only is_failure_only
  validate_event_parts parts = do
    reject (is_success parts.result && is_write_success_only parts.action)
        (write_success_action_not_allowed parts.action)
    reject (is_success parts.result && is_failure_only parts.action)
        (failure_only_action_success_not_allowed parts.action)
    if is_auth_failure parts.action then validate_auth_failure_parts parts else ok tt
    require_source_event_at c parts.metadata_json >>= λ at. ok tt
    validate_allowlist_for_action c parts.action parts.result parts.metadata_json

  -- `AuditEvent::new`
  unfoldable pub new_event : AuditEventParts → Result AuditEventError AuditEvent
  new_event parts = do validate_event_parts parts; ok (record { parts = parts })

  -- The parts are given with the metadata that is stamped and, in place of the id, any value.
  unfoldable pub build_with_current_source_event_at :
      OffsetDateTime → AuditEventParts → Draw AuditEventError AuditEvent
  unfolding generate_id with_current_source_event_at
  build_with_current_source_event_at now parts k =
      elim (with_current_source_event_at c now parts.metadata_json) [
        | err e ↦ (err e, k)
        | ok stamped ↦
            let (r, k') = generate_id (codes "audit_event_id") k in
            (
              r >>= λ id. new_event (record {
                audit_event_id = id;
                request_id = parts.request_id;
                actor_user_id = parts.actor_user_id;
                actor_device_id = parts.actor_device_id;
                action = parts.action;
                target_secret_id = parts.target_secret_id;
                result = parts.result;
                key_version = parts.key_version;
                metadata_json = stamped;
              }),
              k',
            )
      ]
