-- ===== src/Alias/Aad/RoundTrip.antt =====
-- What `to_stored_context` writes, `from_stored_context` reads back.
use mipsorcu.Alias.Aad.{
  AliasAadV1, from_stored_context, to_stored_context, canonical_fields, canonical_json,
  parse_secret_alias_id,
}
use mipsorcu.Crates.{Crates, UuidLaws, JsonTextLaws}
use mipsorcu.Json.{Value, object, is_flat}
use mipsorcu.Prelude.{◌≤◌, ◌≡◌, refl, true, ok, arith, map_err-eq-ok, >>=-eq-ok}
use mipsorcu.Secrets.{u32_max, parse_secret_id, parse_owner_user_id, new_key_version}

-- What the constructors of the fields ensure.
pub record IsValid (c : Crates) (a : AliasAadV1) : Type 0 where
  pub secret_alias_id_v4 : c.is_v4 a.secret_alias_id ≡ true
  pub secret_id_v4 : c.is_v4 a.secret_id ≡ true
  pub key_version_pos : 1 ≤ a.alias_key_version
  pub key_version_u32 : a.alias_key_version ≤ u32_max

module _ (c : Crates) (uuid : UuidLaws c) (json : JsonTextLaws c) where
  from_stored_context-fields :
      (a : AliasAadV1) → IsValid c a → from_stored_context c (object (canonical_fields c a)) ≡ ok a
  unfolding from_stored_context parse_secret_alias_id parse_secret_id parse_owner_user_id
      new_key_version
  from_stored_context-fields a v = ground (
    arith,
    uuid.parse-hyphenated a.secret_alias_id,
    uuid.parse-hyphenated a.secret_id,
    uuid.parse-hyphenated a.owner_user_id,
    v.secret_alias_id_v4,
    v.secret_id_v4,
    v.key_version_pos,
    v.key_version_u32,
  )

  to_stored_context-fields :
      (a : AliasAadV1) (stored : Value)
      → to_stored_context c a ≡ ok stored
      → stored ≡ object (canonical_fields c a)
  unfolding to_stored_context canonical_json is_flat
  to_stored_context-fields a stored h =
      let (text, p, q) = >>=-eq-ok (canonical_json c a) _ h in
      let written =
        json.from_str-to_string (canonical_fields c a) text refl (map_err-eq-ok _ _ p) in
      ground (arith, q, written)

  -- A valid context that is stored is read back as the same context.
  pub from_stored_context-to_stored_context :
      (a : AliasAadV1) (stored : Value)
      → IsValid c a
      → to_stored_context c a ≡ ok stored
      → from_stored_context c stored ≡ ok a
  from_stored_context-to_stored_context a stored v h =
      rw (to_stored_context-fields a stored h) (from_stored_context-fields a v)
