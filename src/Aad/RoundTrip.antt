-- ===== src/Aad/RoundTrip.antt =====
-- What `to_stored_context` writes, `from_stored_context` reads back.
use mathlib.Core.List.{reverse, reverse-append}
use mipsorcu.Aad.{
  end, string, unsigned, number, entry, object, ltb, AadV1, from_stored_context, to_stored_context,
  canonical_bytes, parse,
}
use mipsorcu.Crates.{Crates, UuidLaws, TimeLaws, OffsetDateTime}
use mipsorcu.Json.{Value}
use mipsorcu.Prelude.{
  ℕ, ◌≤◌, ◌≡◌, refl, true, false, Text, codes, ok, [], ◌∷◌, ◌++◌, arith, ◌||◌, ◌==◌, is_blank, trim,
  to_ascii_uppercase, ends_with, map_err-eq-ok, >>=-eq-ok,
}
use mipsorcu.Secrets.{
  u32_max, parse_created_at, as_rfc3339_utc, parse_secret_id, parse_owner_user_id,
  new_secret_version, new_classification,
}
use mipsorcu.SourceEventAt.{rewrite_utc_suffix, parse_utc_rfc3339, format_utc_rfc3339}

upper-append :
    (s t : Text) → to_ascii_uppercase (s ++ t) ≡ to_ascii_uppercase s ++ to_ascii_uppercase t
unfolding to_ascii_uppercase
upper-append [] t = refl
upper-append (x ∷ s) t = rw (upper-append s t)

reverse_z :
    (s : Text)
    → reverse (to_ascii_uppercase (s ++ codes "Z")) ≡ b'Z' ∷ reverse (to_ascii_uppercase s)
reverse_z s =
    rw (upper-append s (codes "Z"))
      (unfold to_ascii_uppercase in reverse-append (to_ascii_uppercase s) (b'Z' ∷ []))

rewrite_utc_suffix-z :
    (s : Text)
    → trim (s ++ codes "Z") ≡ s ++ codes "Z"
    → rewrite_utc_suffix (s ++ codes "Z") ≡ s ++ codes "Z"
unfolding rewrite_utc_suffix ends_with
rewrite_utc_suffix-z s h = rw (h, reverse_z s) refl

module _ (c : Crates) where
  -- What the constructors of the fields ensure.
  pub record IsValid (a : AadV1) : Type 0 where
    pub secret_id_v4 : c.is_v4 a.secret_id ≡ true
    pub version_pos : 1 ≤ a.version
    pub version_u32 : a.version ≤ u32_max
    pub classification_not_blank : is_blank a.classification ≡ false

  abbrev pub in_utc : AadV1 → AadV1
  in_utc a = record a { created_at = c.to_offset_utc a.created_at }

module _ (c : Crates) (uuid : UuidLaws c) (time : TimeLaws c) where
  parse_created_at-as_rfc3339_utc :
      (t : OffsetDateTime) (s : Text)
      → as_rfc3339_utc c t ≡ ok s
      → parse_created_at c s ≡ ok (c.to_offset_utc t)
  unfolding parse_created_at parse_utc_rfc3339 as_rfc3339_utc format_utc_rfc3339
  parse_created_at-as_rfc3339_utc t s h =
      let written = map_err-eq-ok _ _ (map_err-eq-ok _ _ h) in
      let (body, e) = time.format_z t s written in
      let trimmed : trim (body ++ codes "Z") ≡ body ++ codes "Z" =
        rw e at (time.format_blank t s written) in
      let same : rewrite_utc_suffix s ≡ s = rw e (rewrite_utc_suffix-z body trimmed) in
      rw (same, time.parse-format t s written, time.utc_is_utc t, time.utc_idem t)

  parse-hyphenated :
      (a : AadV1) (s : Text)
      → IsValid c a
      → as_rfc3339_utc c a.created_at ≡ ok s
      → parse c
          (c.hyphenated a.secret_id)
          a.version
          (c.hyphenated a.owner_user_id)
          a.classification
          s
        ≡ ok (in_utc c a)
  unfolding parse parse_secret_id parse_owner_user_id new_secret_version new_classification
  parse-hyphenated a s v h = ground (
    arith,
    uuid.parse-hyphenated a.secret_id,
    uuid.parse-hyphenated a.owner_user_id,
    parse_created_at-as_rfc3339_utc a.created_at s h,
  )

  -- the stored object, its keys in order
  abbrev object_of : AadV1 → Text → Value
  object_of a s = object (
      entry (codes "aad_version") (number (unsigned 1)) (
        entry (codes "classification") (string a.classification) (
          entry (codes "created_at") (string s) (
            entry (codes "owner_user_id") (string (c.hyphenated a.owner_user_id)) (
              entry (codes "secret_id") (string (c.hyphenated a.secret_id))
                (entry (codes "version") (number (unsigned a.version)) end))))))

  in_u32 : (n : ℕ) → 1 ≤ n → n ≤ u32_max → (ltb u32_max n || n == 0) ≡ false
  in_u32 n h k = ground arith

  read_back :
      (a : AadV1) (s : Text)
      → IsValid c a
      → as_rfc3339_utc c a.created_at ≡ ok s
      → from_stored_context c (object_of a s) ≡ ok (in_utc c a)
  unfolding from_stored_context
  read_back a s v p = rw (in_u32 a.version v.version_pos v.version_u32) (parse-hyphenated a s v p)

  read_written :
      (a : AadV1) (context : Value) (s : Text)
      → IsValid c a
      → as_rfc3339_utc c a.created_at ≡ ok s
      → object_of a s ≡ context
      → from_stored_context c context ≡ ok (in_utc c a)
  read_written a context s v p h = rw (← h) (read_back a s v p)

  -- A stored context is read back as the data that it was written from, with the time in UTC.
  pub from_stored_context-to_stored_context :
      (a : AadV1) (context : Value)
      → IsValid c a
      → to_stored_context c a ≡ ok context
      → from_stored_context c context ≡ ok (in_utc c a)
  unfolding to_stored_context
  from_stored_context-to_stored_context a context v h =
      let (s, p, q) = >>=-eq-ok (as_rfc3339_utc c a.created_at) _ h in
      read_written a context s v p (cc q)

  -- The canonical bytes do not depend on the offset that the time is written with.
  pub canonical_bytes-in_utc : (a : AadV1) → canonical_bytes c (in_utc c a) ≡ canonical_bytes c a
  unfolding canonical_bytes as_rfc3339_utc format_utc_rfc3339
  canonical_bytes-in_utc a = rw (time.utc_idem a.created_at) refl
