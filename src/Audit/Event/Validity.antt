-- ===== src/Audit/Event/Validity.antt =====
-- What `AuditEvent::new` accepts.
use mipsorcu.Audit.Action.{
  is_auth_failure, AuditAction, AuditResult, auth_failure, is_write_success_only, is_failure_only,
  is_success,
}
use mipsorcu.Audit.Event.{
  AuditEvent, validate_event_parts, new_event, AuditEventParts, validate_auth_failure_parts,
}
use mipsorcu.Audit.Metadata.{
  AuditMetadata, reject_unknown_keys, require_keys, contains_key, check_summary_keys,
  validate_required_metadata_keys, require_source_event_at, source_event_at,
  validate_allowlist_for_action,
}
use mipsorcu.Audit.Metadata.Keys.{allowed_keys, required_keys}
use mipsorcu.Audit.Metadata.Values.{validate_metadata_values}
use mipsorcu.Crates.{Crates}
use mipsorcu.Json.{Map, object, keys, as_object}
use mipsorcu.Prelude.{
  if◌then◌else◌, ◌≡◌, refl, Text, Option, none, some, ok, true, false, Bool, ◌&&◌, arith, >>=-eq-ok,
  ◌>>=◌, reject, is_some, ok_or, List, [], ◌∷◌, contains,
}

-- every key of the list passes the test
pub AllOf : (Text → Bool) → List Text → Type 0
AllOf test [] = Unit
AllOf test (key ∷ keys) = (test key ≡ true) × AllOf test keys

known-AllOf :
    (allowed keys : List Text)
    → reject_unknown_keys allowed keys ≡ ok tt
    → AllOf (contains allowed) keys
unfolding AllOf reject_unknown_keys
known-AllOf allowed [] h = tt
known-AllOf allowed (key ∷ keys) h = ground (arith, known-AllOf allowed keys)

required-AllOf :
    (keys : List Text) (m : Map)
    → require_keys keys m ≡ ok tt
    → AllOf (λ key. contains_key key m) keys
unfolding AllOf require_keys
required-AllOf [] m h = tt
required-AllOf (key ∷ keys) m h = ground (arith, required-AllOf keys m)

-- An event in which nothing is out of place.
pub record IsValid (c : Crates) (parts : AuditEventParts) : Type 0 where
  pub not_by_write : is_success parts.result && is_write_success_only parts.action ≡ false
  pub not_failure_only : is_success parts.result && is_failure_only parts.action ≡ false
  pub anonymous :
      parts.action ≡ auth_failure
      → (parts.actor_user_id ≡ none)
        × (parts.actor_device_id ≡ none)
        × (parts.target_secret_id ≡ none)
        × (parts.key_version ≡ none)
  pub at : Text
  pub stamped : source_event_at c parts.metadata_json ≡ ok (some at)
  pub object_of : Map
  pub is_object : parts.metadata_json.value ≡ object object_of
  pub known : AllOf (contains (allowed_keys parts.action parts.result)) (keys object_of)
  pub complete : AllOf (λ key. contains_key key object_of) (required_keys parts.action parts.result)
  pub values_pass : validate_metadata_values c parts.action parts.result object_of ≡ ok tt

reject-ok : {E : Type 0} (test : Bool) (e : E) → reject test e ≡ ok tt → test ≡ false
reject-ok true e h = cc
reject-ok false e h = refl

is_some-none : {A : Type 0} (o : Option A) → is_some o ≡ false → o ≡ none
is_some-none Option.none h = refl
is_some-none (Option.some a) h = cc

anonymous_parts :
    (parts : AuditEventParts)
    → validate_auth_failure_parts parts ≡ ok tt
    → (parts.actor_user_id ≡ none)
      × (parts.actor_device_id ≡ none)
      × (parts.target_secret_id ≡ none)
      × (parts.key_version ≡ none)
unfolding validate_auth_failure_parts
anonymous_parts parts h = ground (
  arith,
  is_some-none parts.actor_user_id,
  is_some-none parts.actor_device_id,
  is_some-none parts.target_secret_id,
  is_some-none parts.key_version,
)

module _ (c : Crates) where
  stamped_at :
      (metadata : AuditMetadata) (at : Text)
      → require_source_event_at c metadata ≡ ok at
      → source_event_at c metadata ≡ ok (some at)
  unfolding require_source_event_at
  stamped_at metadata at h = ground arith

  object_parts :
      (action : AuditAction) (result : AuditResult) (metadata : AuditMetadata)
      → validate_allowlist_for_action c action result metadata ≡ ok tt
      → (m : Map) × (metadata.value ≡ object m)
        × (reject_unknown_keys (allowed_keys action result) (keys m) ≡ ok tt)
        × (validate_required_metadata_keys action result m ≡ ok tt)
        × (validate_metadata_values c action result m ≡ ok tt)
  unfolding validate_allowlist_for_action
  object_parts action result metadata h =
      let (m, e, h1) = >>=-eq-ok (ok_or (as_object metadata.value) _) _ h in
      let (_, _, h2) = >>=-eq-ok (check_summary_keys action m) _ h1 in
      let (_, known, h3) =
        >>=-eq-ok (reject_unknown_keys (allowed_keys action result) (keys m)) _ h2 in
      let (_, required, values) =
        >>=-eq-ok (validate_required_metadata_keys action result m) _ h3 in
      (m, ground arith, known, required, values)

  required_present :
      (action : AuditAction) (result : AuditResult) (m : Map)
      → validate_required_metadata_keys action result m ≡ ok tt
      → require_keys (required_keys action result) m ≡ ok tt
  unfolding validate_required_metadata_keys
  required_present action result m h =
      (>>=-eq-ok (require_keys (required_keys action result) m) _ h).1

  auth_failure_checked :
      (parts : AuditEventParts)
      → (if is_auth_failure parts.action then validate_auth_failure_parts parts else ok tt) ≡ ok tt
      → parts.action ≡ auth_failure
      → validate_auth_failure_parts parts ≡ ok tt
  unfolding validate_auth_failure_parts
  auth_failure_checked parts h is = rw is at h

  validated : (parts : AuditEventParts) → validate_event_parts c parts ≡ ok tt → IsValid c parts
  unfolding validate_event_parts
  validated parts h =
      let (_, write, h1) =
        >>=-eq-ok (reject (is_success parts.result && is_write_success_only parts.action) _) _ h in
      let (_, fails, h2) =
        >>=-eq-ok (reject (is_success parts.result && is_failure_only parts.action) _) _ h1 in
      let (_, auth, h3) =
        >>=-eq-ok
          (if is_auth_failure parts.action then validate_auth_failure_parts parts else ok tt) _
          h2 in
      let (_, at, allowed) =
        >>=-eq-ok (require_source_event_at c parts.metadata_json >>= λ at. ok tt) _ h3 in
      let (text, found, _) = >>=-eq-ok (require_source_event_at c parts.metadata_json) _ at in
      let (m, is, known, required, values) =
        object_parts parts.action parts.result parts.metadata_json allowed in
      record {
        not_by_write = reject-ok _ _ write;
        not_failure_only = reject-ok _ _ fails;
        anonymous = λ action. anonymous_parts parts (auth_failure_checked parts auth action);
        at = text;
        stamped = stamped_at parts.metadata_json text found;
        object_of = m;
        is_object = is;
        known = known-AllOf (allowed_keys parts.action parts.result) (keys m) known;
        complete =
            required-AllOf (required_keys parts.action parts.result) m
              (required_present parts.action parts.result m required);
        values_pass = values;
      }

  -- An event that is made has the parts that were given, and these are valid: no success of an action
  -- that the write procedures of the database record or that is recorded for failures only, no
  -- identity in a failed authentication, a `source_event_at`, and a metadata object with allowed keys
  -- only, all required keys, and values that pass their checks.
  pub new_event-IsValid :
      (parts : AuditEventParts) (event : AuditEvent)
      → new_event c parts ≡ ok event
      → (event.parts ≡ parts) × IsValid c parts
  unfolding new_event
  new_event-IsValid parts event h =
      let (_, checked, made) = >>=-eq-ok (validate_event_parts c parts) _ h in
      (ground arith, validated parts checked)
