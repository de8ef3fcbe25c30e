-- ===== src/Audit/Metadata/Safety.antt =====
-- What `AuditMetadata::new` accepts: no forbidden key at any depth, and the same metadata again.

use mipsorcu.Audit.Metadata.{
  AuditMetadata, canonicalize_source_event_at, from_object, new_metadata, validate_trigger, display,
  parse_source_event_at_value,
}
use mipsorcu.Audit.Metadata.Forbidden.{
  is_forbidden_metadata_key, reject_forbidden_metadata_keys,
  reject_forbidden_metadata_keys_in_array, reject_forbidden_metadata_keys_in_object,
  forbidden_audit_metadata_keys,
}
use mipsorcu.Crates.{Crates}
use mipsorcu.Json.{
  Value, Values, Map, null, boolean, number, string, array, object, cons, end, entry, get, insert,
}
use mipsorcu.Json.Insert.{get-insert_self, get-insert_ne, insert-insert}
use mipsorcu.Prelude.{
  ◌≡◌, refl, Text, codes, Option, none, some, ok, false, Bool-cases, inl, inr, ◌⊎◌, ap, sym, subst,
  ◌∙◌, arith, >>=-eq-ok, ◌>>=◌, text_eq, text_lt, trim, to_ascii_lowercase, contains,
}
use mipsorcu.SourceEventAt.{parse_source_event_at}

-- The key occurs in the value, at some depth.
mutual
  pub data HasKey (key : Text) : Value → Type 0 where
    in_array : {values : Values} → ArrayHasKey key values → HasKey key (array values)
    in_object : {m : Map} → ObjectHasKey key m → HasKey key (object m)

  pub data ArrayHasKey (key : Text) : Values → Type 0 where
    first :
        {value : Value} {values : Values} → HasKey key value → ArrayHasKey key (cons value values)
    rest :
        {value : Value} {values : Values}
        → ArrayHasKey key values
        → ArrayHasKey key (cons value values)

  pub data ObjectHasKey (key : Text) : Map → Type 0 where
    here : {value : Value} {m : Map} → ObjectHasKey key (entry key value m)
    inside :
        {other : Text} {value : Value} {m : Map}
        → HasKey key value
        → ObjectHasKey key (entry other value m)
    later :
        {other : Text} {value : Value} {m : Map}
        → ObjectHasKey key m
        → ObjectHasKey key (entry other value m)

object_checks :
    (key : Text) (value : Value) (m : Map)
    → reject_forbidden_metadata_keys_in_object (entry key value m) ≡ ok tt
    → (is_forbidden_metadata_key key ≡ false)
      × (reject_forbidden_metadata_keys value ≡ ok tt)
      × (reject_forbidden_metadata_keys_in_object m ≡ ok tt)
unfolding reject_forbidden_metadata_keys_in_object
object_checks key value m h = ground arith

array_checks :
    (value : Value) (values : Values)
    → reject_forbidden_metadata_keys_in_array (cons value values) ≡ ok tt
    → (reject_forbidden_metadata_keys value ≡ ok tt)
      × (reject_forbidden_metadata_keys_in_array values ≡ ok tt)
unfolding reject_forbidden_metadata_keys_in_array
array_checks value values h = ground arith

mutual
  unfolding reject_forbidden_metadata_keys

  value-clean :
      {key : Text} {value : Value}
      → HasKey key value
      → reject_forbidden_metadata_keys value ≡ ok tt
      → is_forbidden_metadata_key key ≡ false
  value-clean (in_array k) h = array-clean k h
  value-clean (in_object k) h = object-clean k h

  array-clean :
      {key : Text} {values : Values}
      → ArrayHasKey key values
      → reject_forbidden_metadata_keys_in_array values ≡ ok tt
      → is_forbidden_metadata_key key ≡ false
  array-clean (first {value} {values} k) h = value-clean k (array_checks value values h).0
  array-clean (rest {value} {values} k) h = array-clean k (array_checks value values h).1

  object-clean :
      {key : Text} {m : Map}
      → ObjectHasKey key m
      → reject_forbidden_metadata_keys_in_object m ≡ ok tt
      → is_forbidden_metadata_key key ≡ false
  object-clean {key} (here {value} {m}) h = (object_checks key value m h).0
  object-clean (inside {other} {value} {m} k) h = value-clean k (object_checks other value m h).1
  object-clean (later {other} {value} {m} k) h = object-clean k (object_checks other value m h).2

object-has :
    (key : Text) (m : Map)
    → HasKey key (object m)
    → reject_forbidden_metadata_keys_in_object m ≡ ok tt
    → is_forbidden_metadata_key key ≡ false
object-has key m (in_object k) h = object-clean k h

abbrev pub at_key : Text
at_key = codes "source_event_at"

reject-insert :
    (k t : Text) (m : Map)
    → is_forbidden_metadata_key k ≡ false
    → reject_forbidden_metadata_keys_in_object m ≡ ok tt
    → reject_forbidden_metadata_keys_in_object (insert k (string t) m) ≡ ok tt
unfolding insert reject_forbidden_metadata_keys_in_object reject_forbidden_metadata_keys
reject-insert k t end f h = rw f refl
reject-insert k t (entry j w m) f h =
    let (g, checked, others) = object_checks j w m h in
    elim (Bool-cases (text_eq j k)) [
      | inl e ↦ rw (e, f, others) refl
      | inr e ↦ elim (Bool-cases (text_lt k j)) [
        | inl l ↦ rw (e, l, f, g, checked, others) refl
        | inr l ↦ rw (e, l, g, checked, reject-insert k t m f others) refl
      ]
    ]

at_key-allowed : is_forbidden_metadata_key at_key ≡ false
unfolding is_forbidden_metadata_key contains to_ascii_lowercase trim forbidden_audit_metadata_keys
at_key-allowed = refl

at_key-other : text_eq at_key (codes "trigger") ≡ false
unfolding text_eq
at_key-other = refl

module _ (c : Crates) where
  value-parsed :
      (value : Value) (at : Text) → parse_source_event_at_value c value ≡ ok at → value ≡ string at
  unfolding parse_source_event_at_value parse_source_event_at
  value-parsed value at h = ground arith

  canonicalize-some :
      (m : Map) (value : Value)
      → get at_key m ≡ some value
      → canonicalize_source_event_at c m
        ≡ (parse_source_event_at_value c value >>= λ at. ok (insert at_key (string at) m))
  unfolding canonicalize_source_event_at
  canonicalize-some m value e = rw (canonicalize_source_event_at, e) refl

  canonicalize-none : (m : Map) → get at_key m ≡ none → canonicalize_source_event_at c m ≡ ok m
  unfolding canonicalize_source_event_at
  canonicalize-none m e = rw (canonicalize_source_event_at, e) refl

  pub canonicalized :
      (m canonical : Map) (value : Option Value)
      → get at_key m ≡ value
      → canonicalize_source_event_at c m ≡ ok canonical
      → ((value ≡ none) × (canonical ≡ m))
        ⊎ ((at : Text) × (value ≡ some (string at))
            × (parse_source_event_at_value c (string at) ≡ ok at)
            × (canonical ≡ insert at_key (string at) m))
  canonicalized m canonical none e h = inl (refl, ground (arith, h, canonicalize-none m e))
  canonicalized m canonical (some value) e h =
      let (at, parsed, made) =
        >>=-eq-ok (parse_source_event_at_value c value) _ (sym (canonicalize-some m value e) ∙ h) in
      let is = value-parsed value at parsed in
      inr (at, ap some is, subst (λ v. parse_source_event_at_value c v ≡ ok at) is parsed, cc)

  pub metadata-parts :
      (value : Value) (metadata : AuditMetadata)
      → new_metadata c value ≡ ok metadata
      → (m : Map) × (canonical : Map) × (value ≡ object m)
        × (reject_forbidden_metadata_keys_in_object m ≡ ok tt)
        × (validate_trigger (display c) m ≡ ok tt)
        × (canonicalize_source_event_at c m ≡ ok canonical)
        × (metadata ≡ record { value = object canonical })
  unfolding new_metadata from_object
  metadata-parts (object m) metadata h =
      let (_, forbidden, h1) = >>=-eq-ok (reject_forbidden_metadata_keys_in_object m) _ h in
      let (_, trigger, h2) = >>=-eq-ok (validate_trigger (display c) m) _ h1 in
      let (canonical, made, h3) = >>=-eq-ok (canonicalize_source_event_at c m) _ h2 in
      (m, canonical, refl, forbidden, trigger, made, cc)
  metadata-parts null metadata h = absurd (cc)
  metadata-parts (boolean b) metadata h = absurd (cc)
  metadata-parts (number n) metadata h = absurd (cc)
  metadata-parts (string s) metadata h = absurd (cc)
  metadata-parts (array vs) metadata h = absurd (cc)

  trigger-insert :
      (at : Text) (m : Map)
      → validate_trigger (display c) m ≡ ok tt
      → validate_trigger (display c) (insert at_key (string at) m) ≡ ok tt
  unfolding validate_trigger
  trigger-insert at m h =
      rw (validate_trigger, get-insert_ne at_key (codes "trigger") (string at) m at_key-other) h

  canonicalize-insert :
      (at : Text) (m : Map)
      → parse_source_event_at_value c (string at) ≡ ok at
      → canonicalize_source_event_at c (insert at_key (string at) m)
        ≡ ok (insert at_key (string at) m)
  canonicalize-insert at m h =
      rw
        (
          canonicalize-some (insert at_key (string at) m) (string at)
              (get-insert_self at_key (string at) m),
          h,
          insert-insert at_key (string at) m,
        )
        refl

  kept :
      (m : Map)
      → reject_forbidden_metadata_keys_in_object m ≡ ok tt
      → validate_trigger (display c) m ≡ ok tt
      → canonicalize_source_event_at c m ≡ ok m
      → new_metadata c (object m) ≡ ok (record { value = object m })
  unfolding new_metadata from_object
  kept m f t e = rw (f, t, e) refl

  kept_cases :
      (m canonical : Map)
      → reject_forbidden_metadata_keys_in_object m ≡ ok tt
      → validate_trigger (display c) m ≡ ok tt
      → canonicalize_source_event_at c m ≡ ok canonical
      → (reject_forbidden_metadata_keys_in_object canonical ≡ ok tt)
        × (validate_trigger (display c) canonical ≡ ok tt)
        × (canonicalize_source_event_at c canonical ≡ ok canonical)
  kept_cases m canonical f t h = elim (canonicalized m canonical (get at_key m) refl h) [
    | inl (e, same) ↦ rw same (f, t, canonicalize-none m e)
    | inr (at, e, parsed, made) ↦ rw made (
      reject-insert at_key at m at_key-allowed f,
      trigger-insert at m t,
      canonicalize-insert at m parsed,
    )
  ]

  -- Metadata that is accepted is a JSON object without a forbidden key at any depth, and it is
  -- accepted again as it stands, as when it is read back from a fallback record.
  pub new_metadata-IsClean :
      (value : Value) (metadata : AuditMetadata)
      → new_metadata c value ≡ ok metadata
      → ((key : Text) → HasKey key metadata.value → is_forbidden_metadata_key key ≡ false)
        × (new_metadata c metadata.value ≡ ok metadata)
  new_metadata-IsClean value metadata h =
      let (m, canonical, is, f, t, made, same) = metadata-parts value metadata h in
      let (f', t', made') = kept_cases m canonical f t made in
      rw same ((λ key k. object-has key canonical k f'), kept canonical f' t' made')
