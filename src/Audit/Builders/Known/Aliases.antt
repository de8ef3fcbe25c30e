-- ===== src/Audit/Builders/Known/Aliases.antt =====
-- The keys that the builders for aliases fill in.
use mipsorcu.Audit.Action.{
  secret_alias_create, secret_alias_update, secret_alias_delete, secret_alias_list, AuditResult,
}
use mipsorcu.Audit.Builders.Aliases.{
  SecretAliasCreateMetadata, SecretAliasUpdateMetadata, SecretAliasDeleteMetadata,
  SecretAliasListMetadata, secret_alias_create_object, secret_alias_update_object,
  secret_alias_delete_object, secret_alias_list_object,
}
use mipsorcu.Audit.Builders.Known.Insert.{IsKnown, insertions}
use mipsorcu.Audit.Metadata.Keys.{allowed_keys}
use mipsorcu.Crates.{Crates}
use mipsorcu.Prelude.{contains, text_eq}

module _ (c : Crates) where
  pub secret_alias_create_object-IsKnown :
      (b : SecretAliasCreateMetadata) (result : AuditResult)
      → IsKnown (allowed_keys secret_alias_create result) (secret_alias_create_object c b)
  unfolding secret_alias_create_object allowed_keys contains text_eq
  secret_alias_create_object-IsKnown b result = search insertions depth 13

  pub secret_alias_update_object-IsKnown :
      (b : SecretAliasUpdateMetadata) (result : AuditResult)
      → IsKnown (allowed_keys secret_alias_update result) (secret_alias_update_object c b)
  unfolding secret_alias_update_object allowed_keys contains text_eq
  secret_alias_update_object-IsKnown b result = search insertions depth 13

  pub secret_alias_delete_object-IsKnown :
      (b : SecretAliasDeleteMetadata) (result : AuditResult)
      → IsKnown (allowed_keys secret_alias_delete result) (secret_alias_delete_object c b)
  unfolding secret_alias_delete_object allowed_keys contains text_eq
  secret_alias_delete_object-IsKnown b result = search insertions depth 13

  pub secret_alias_list_object-IsKnown :
      (b : SecretAliasListMetadata) (result : AuditResult)
      → IsKnown (allowed_keys secret_alias_list result) (secret_alias_list_object c b)
  unfolding secret_alias_list_object allowed_keys contains text_eq
  secret_alias_list_object-IsKnown b result = search insertions depth 13
