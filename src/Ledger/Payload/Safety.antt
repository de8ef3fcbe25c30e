-- ===== src/Ledger/Payload/Safety.antt =====
-- What `LedgerPayload::new` accepts, and what `CanonicalPayloadObject` keeps of it.
use mipsorcu.Ledger.Payload.{
  is_container, false, ok, canonical_payload_object, true, Bytes, validate_payload_object, Text,
  contains, LedgerPayload, ensure_payload_size, new_payload, validate_entries,
}
use mipsorcu.Ledger.Types.{LedgerEntryType}
use mipsorcu.Crates.{Crates}
use mipsorcu.Json.{array, string, number, boolean, Value, Map, end, entry, object, null}
use mipsorcu.Ledger.EntryType.{allowed_payload_keys}
use mipsorcu.Ledger.Payload.Forbidden.{
  is_forbidden_payload_key, reject_forbidden_map, reject_forbidden_payload_keys,
}
use mipsorcu.Prelude.{Result-cases, inl, inr, arith, ◌≡◌, ◌≤◌, length}

-- Every field has a key that the type of the entry allows and that is not forbidden, and a scalar.
pub IsSafe : LedgerEntryType → Map → Type 0
IsSafe t end = Unit
IsSafe t (entry key value m) =
    (contains (allowed_payload_keys t) key ≡ true)
    × (is_forbidden_payload_key key ≡ false)
    × (is_container value ≡ false)
    × IsSafe t m

module _ (c : Crates) (t : LedgerEntryType) where
  entry_checks :
      (key : Text) (value : Value) (m : Map)
      → validate_entries c t (entry key value m) ≡ ok tt
      → (contains (allowed_payload_keys t) key ≡ true)
        × (is_container value ≡ false)
        × (validate_entries c t m ≡ ok tt)
  unfolding validate_entries
  entry_checks key value m h = ground arith

  forbidden_checks :
      (key : Text) (value : Value) (m : Map)
      → reject_forbidden_map (entry key value m) ≡ ok tt
      → (is_forbidden_payload_key key ≡ false) × (reject_forbidden_map m ≡ ok tt)
  unfolding reject_forbidden_map
  forbidden_checks key value m h = ground arith

  entries-IsSafe :
      (m : Map) → validate_entries c t m ≡ ok tt → reject_forbidden_map m ≡ ok tt → IsSafe t m
  unfolding IsSafe
  entries-IsSafe end h f = tt
  entries-IsSafe (entry key value m) h f =
      let (allowed, scalar, rest) = entry_checks key value m h in
      let (not_forbidden, rest') = forbidden_checks key value m f in
      (allowed, not_forbidden, scalar, entries-IsSafe m rest rest')

  pub accepted :
      (value : Value) (p : LedgerPayload)
      → new_payload c t value ≡ ok p
      → (p.entry_type ≡ t)
        × (value ≡ object p.object)
        × (validate_entries c t p.object ≡ ok tt)
        × (reject_forbidden_payload_keys value ≡ ok tt)
        × (ensure_payload_size c t p.object ≡ ok tt)
  unfolding new_payload validate_payload_object
  accepted (object m) p h = ground arith
  accepted null p h = cc
  accepted (boolean b) p h = cc
  accepted (number n) p h = cc
  accepted (string s) p h = cc
  accepted (array vs) p h = cc

  size_checked :
      (m : Map) (b : Bytes)
      → c.to_vec (object (canonical_payload_object (allowed_payload_keys t) m)) ≡ ok b
      → ensure_payload_size c t m ≡ ok tt
      → length b ≤ 8192
  unfolding ensure_payload_size
  size_checked m b e h = ground arith

  size_of :
      (m : Map)
      → ensure_payload_size c t m ≡ ok tt
      → (b : Bytes) × (c.to_vec (object (canonical_payload_object (allowed_payload_keys t) m))
          ≡ ok b)
        × (length b ≤ 8192)
  unfolding ensure_payload_size
  size_of m h =
      elim (Result-cases
        (c.to_vec (object (canonical_payload_object (allowed_payload_keys t) m)))) [
          | inl (b, e) ↦ (b, e, size_checked m b e h)
          | inr (x, e) ↦ ground arith
        ]

  object_checks :
      (value : Value) (m : Map)
      → value ≡ object m
      → reject_forbidden_payload_keys value ≡ ok tt
      → reject_forbidden_map m ≡ ok tt
  unfolding reject_forbidden_payload_keys
  object_checks value m e h = rw e at h

  -- A payload that is accepted holds the given object as it is: every field has a key that the type
  -- of the entry allows and that is not forbidden, trimmed and in any case, no field holds an
  -- object or an array, and the canonical form of the payload has at most 8192 bytes.
  pub new_payload-IsSafe :
      (value : Value) (p : LedgerPayload)
      → new_payload c t value ≡ ok p
      → (value ≡ object p.object)
        × IsSafe p.entry_type p.object
        × (b : Bytes) × (c.to_vec
              (object (canonical_payload_object (allowed_payload_keys p.entry_type) p.object))
            ≡ ok b)
        × (length b ≤ 8192)
  new_payload-IsSafe value p h =
      let (same, is, entries, forbidden, size) = accepted value p h in
      let (b, written, bounded) = size_of p.object size in
      let safe = entries-IsSafe p.object entries (object_checks value p.object is forbidden) in
      rw same (is, safe, b, written, bounded)
