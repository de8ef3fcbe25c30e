-- ===== src/Audit/Builders/Aliases.antt =====
-- The builders of src/audit/event/metadata/builders.rs for aliases: the fields of
-- each, and the object that its `build` fills in.

use mipsorcu.Audit.Builders.Fields.{insert_some}
use mipsorcu.Crates.{Crates}
use mipsorcu.Json.{Map, string, number, unsigned, end, insert}
use mipsorcu.Prelude.{ℕ, Bytes, Text, codes, Option, none, some}

pub record SecretAliasCreateMetadata : Type 0 where
  pub alias_fingerprint : Option Bytes
  pub alias_fingerprint_key_version : Option ℕ
  pub alias_fingerprint_schema_version : Option ℕ
  pub error_code : Option Text
  pub source_event_at : Text

-- `SecretAliasCreateMetadata::success`
unfoldable pub secret_alias_create_success : Bytes → ℕ → ℕ → Text → SecretAliasCreateMetadata
secret_alias_create_success alias_fingerprint alias_fingerprint_key_version
      alias_fingerprint_schema_version source_event_at =
    record {
      alias_fingerprint = some alias_fingerprint;
      alias_fingerprint_key_version = some alias_fingerprint_key_version;
      alias_fingerprint_schema_version = some alias_fingerprint_schema_version;
      error_code = none;
      source_event_at = source_event_at;
    }

-- `SecretAliasCreateMetadata::failure`
unfoldable pub secret_alias_create_failure : Text → SecretAliasCreateMetadata
secret_alias_create_failure source_event_at = record {
  alias_fingerprint = none;
  alias_fingerprint_key_version = none;
  alias_fingerprint_schema_version = none;
  error_code = none;
  source_event_at = source_event_at;
}

-- the object of `build`
unfoldable pub secret_alias_create_object : Crates → SecretAliasCreateMetadata → Map
unfolding insert
secret_alias_create_object c b =
    let m =
      insert_some (codes "alias_fingerprint") (λ x. string (c.hex_encode x)) b.alias_fingerprint
        end in
    let m =
      insert_some (codes "alias_fingerprint_key_version") (λ x. number (unsigned x))
        b.alias_fingerprint_key_version m in
    let m =
      insert_some (codes "alias_fingerprint_schema_version") (λ x. number (unsigned x))
        b.alias_fingerprint_schema_version m in
    let m = insert_some (codes "error_code") string b.error_code m in
    insert (codes "source_event_at") (string b.source_event_at) m

pub record SecretAliasUpdateMetadata : Type 0 where
  pub old_alias_fingerprint : Option Bytes
  pub new_alias_fingerprint : Option Bytes
  pub alias_fingerprint_key_version : Option ℕ
  pub alias_fingerprint_schema_version : Option ℕ
  pub error_code : Option Text
  pub source_event_at : Text

-- `SecretAliasUpdateMetadata::success`
unfoldable pub secret_alias_update_success :
    Bytes → Bytes → ℕ → ℕ → Text → SecretAliasUpdateMetadata
secret_alias_update_success old_alias_fingerprint new_alias_fingerprint
      alias_fingerprint_key_version alias_fingerprint_schema_version source_event_at =
    record {
      old_alias_fingerprint = some old_alias_fingerprint;
      new_alias_fingerprint = some new_alias_fingerprint;
      alias_fingerprint_key_version = some alias_fingerprint_key_version;
      alias_fingerprint_schema_version = some alias_fingerprint_schema_version;
      error_code = none;
      source_event_at = source_event_at;
    }

-- `SecretAliasUpdateMetadata::failure`
unfoldable pub secret_alias_update_failure : Text → SecretAliasUpdateMetadata
secret_alias_update_failure source_event_at = record {
  old_alias_fingerprint = none;
  new_alias_fingerprint = none;
  alias_fingerprint_key_version = none;
  alias_fingerprint_schema_version = none;
  error_code = none;
  source_event_at = source_event_at;
}

-- the object of `build`
unfoldable pub secret_alias_update_object : Crates → SecretAliasUpdateMetadata → Map
unfolding insert
secret_alias_update_object c b =
    let m =
      insert_some (codes "old_alias_fingerprint") (λ x. string (c.hex_encode x))
        b.old_alias_fingerprint end in
    let m =
      insert_some (codes "new_alias_fingerprint") (λ x. string (c.hex_encode x))
        b.new_alias_fingerprint m in
    let m =
      insert_some (codes "alias_fingerprint_key_version") (λ x. number (unsigned x))
        b.alias_fingerprint_key_version m in
    let m =
      insert_some (codes "alias_fingerprint_schema_version") (λ x. number (unsigned x))
        b.alias_fingerprint_schema_version m in
    let m = insert_some (codes "error_code") string b.error_code m in
    insert (codes "source_event_at") (string b.source_event_at) m

pub record SecretAliasDeleteMetadata : Type 0 where
  pub alias_fingerprint : Option Bytes
  pub alias_fingerprint_key_version : Option ℕ
  pub alias_fingerprint_schema_version : Option ℕ
  pub error_code : Option Text
  pub source_event_at : Text

-- `SecretAliasDeleteMetadata::success`
unfoldable pub secret_alias_delete_success : Bytes → ℕ → ℕ → Text → SecretAliasDeleteMetadata
secret_alias_delete_success alias_fingerprint alias_fingerprint_key_version
      alias_fingerprint_schema_version source_event_at =
    record {
      alias_fingerprint = some alias_fingerprint;
      alias_fingerprint_key_version = some alias_fingerprint_key_version;
      alias_fingerprint_schema_version = some alias_fingerprint_schema_version;
      error_code = none;
      source_event_at = source_event_at;
    }

-- `SecretAliasDeleteMetadata::failure`
unfoldable pub secret_alias_delete_failure : Text → SecretAliasDeleteMetadata
secret_alias_delete_failure source_event_at = record {
  alias_fingerprint = none;
  alias_fingerprint_key_version = none;
  alias_fingerprint_schema_version = none;
  error_code = none;
  source_event_at = source_event_at;
}

-- the object of `build`
unfoldable pub secret_alias_delete_object : Crates → SecretAliasDeleteMetadata → Map
unfolding insert
secret_alias_delete_object c b =
    let m =
      insert_some (codes "alias_fingerprint") (λ x. string (c.hex_encode x)) b.alias_fingerprint
        end in
    let m =
      insert_some (codes "alias_fingerprint_key_version") (λ x. number (unsigned x))
        b.alias_fingerprint_key_version m in
    let m =
      insert_some (codes "alias_fingerprint_schema_version") (λ x. number (unsigned x))
        b.alias_fingerprint_schema_version m in
    let m = insert_some (codes "error_code") string b.error_code m in
    insert (codes "source_event_at") (string b.source_event_at) m

pub record SecretAliasListMetadata : Type 0 where
  pub result_count : Option ℕ
  pub error_code : Option Text
  pub source_event_at : Text

-- `SecretAliasListMetadata::success`
unfoldable pub secret_alias_list_success : ℕ → Text → SecretAliasListMetadata
secret_alias_list_success result_count source_event_at = record {
  result_count = some result_count;
  error_code = none;
  source_event_at = source_event_at;
}

-- `SecretAliasListMetadata::failure`
unfoldable pub secret_alias_list_failure : Text → SecretAliasListMetadata
secret_alias_list_failure source_event_at = record {
  result_count = none;
  error_code = none;
  source_event_at = source_event_at;
}

-- the object of `build`
unfoldable pub secret_alias_list_object : Crates → SecretAliasListMetadata → Map
unfolding insert
secret_alias_list_object c b =
    let m = insert_some (codes "result_count") (λ x. number (unsigned x)) b.result_count end in
    let m = insert_some (codes "error_code") string b.error_code m in
    insert (codes "source_event_at") (string b.source_event_at) m
