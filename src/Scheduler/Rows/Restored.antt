-- ===== src/Scheduler/Rows/Restored.antt =====
-- Rows that are restored, and what the checks make of one of them.
use mipsorcu.Crates.{Crates}
use mipsorcu.Json.{
  Value, Values, Map, null, boolean, number, string, array, object, nil, cons, end, entry,
}
use mipsorcu.Ledger.Chain.{find_verification_key_with_seq, verify_entry}
use mipsorcu.Ledger.Entry.{SignedLedgerEntry, verify_signature}
use mipsorcu.Ledger.EntryType.{parse_entry_type}
use mipsorcu.Ledger.Payload.{new_payload}
use mipsorcu.Ledger.Payload.Forbidden.{
  reject_forbidden_payload_keys, reject_forbidden_values, reject_forbidden_map,
  is_forbidden_payload_key,
}
use mipsorcu.Ledger.Types.{
  LedgerVerifyingKey, unknown_entry_type, serialization_failed, invalid_uuid,
}
use mipsorcu.LedgerRows.{
  parse_uuid, parse_optional, parse_device_id, parse_ledger_result, LedgerVerificationMaterialRow,
  try_restore_signed_ledger_entry, try_restore_verifying_key,
}
use mipsorcu.Prelude.{
  ◌≡◌, ◌↔◌, refl, ℕ, ◌+◌, false, Bytes, Text, codes, some, ok, map_err, List, [], ◌∷◌, ◌==◌, arith,
  >>=-eq-ok, find,
}
use mipsorcu.Secrets.{parse_secret_id}
use mipsorcu.SourceEventAt.{parse_source_event_at}
use mipsorcu.Ledger.Payload.Safety.{accepted}
use mipsorcu.Scheduler.Rows.{
  ledger_payload_contains_forbidden_key, array_contains_forbidden_key,
  object_contains_forbidden_key, entry_count, invalid, restore_entries, check_link, check_row,
}

entry_clean :
    (key : Text) (v : Value) (m : Map)
    → reject_forbidden_map (entry key v m) ≡ ok tt
    → (is_forbidden_payload_key key ≡ false)
      × (reject_forbidden_payload_keys v ≡ ok tt)
      × (reject_forbidden_map m ≡ ok tt)
unfolding reject_forbidden_map
entry_clean key v m h = ground arith

cons_clean :
    (v : Value) (values : Values)
    → reject_forbidden_values (cons v values) ≡ ok tt
    → (reject_forbidden_payload_keys v ≡ ok tt) × (reject_forbidden_values values ≡ ok tt)
unfolding reject_forbidden_values
cons_clean v values h = ground arith

mutual
  unfolding reject_forbidden_payload_keys ledger_payload_contains_forbidden_key

  pub contains-reject :
      (v : Value)
      → reject_forbidden_payload_keys v ≡ ok tt
      → ledger_payload_contains_forbidden_key v ≡ false
  contains-reject null h = refl
  contains-reject (boolean b) h = refl
  contains-reject (number n) h = refl
  contains-reject (string s) h = refl
  contains-reject (array values) h = array-reject values h
  contains-reject (object m) h = object-reject m h

  array-reject :
      (values : Values)
      → reject_forbidden_values values ≡ ok tt
      → array_contains_forbidden_key values ≡ false
  array-reject nil h = refl
  array-reject (cons v values) h =
      let (a, b) = cons_clean v values h in rw (contains-reject v a, array-reject values b) refl

  object-reject :
      (m : Map) → reject_forbidden_map m ≡ ok tt → object_contains_forbidden_key m ≡ false
  object-reject end h = refl
  object-reject (entry key v m) h =
      let (a, b, d) = entry_clean key v m h in rw (a, contains-reject v b, object-reject m d) refl

module _ (c : Crates) where
  pub restored-clean :
      (row : LedgerVerificationMaterialRow) (e : SignedLedgerEntry)
      → try_restore_signed_ledger_entry c row ≡ ok e
      → ledger_payload_contains_forbidden_key row.payload ≡ false
  unfolding try_restore_signed_ledger_entry
  restored-clean row e h =
      let (entry_type, _, h1) =
        >>=-eq-ok
          (map_err (λ e. unknown_entry_type row.entry_type) (parse_entry_type row.entry_type)) _
          h in
      let (_, _, h2) =
        >>=-eq-ok
          (map_err (λ e. serialization_failed (codes "invalid source_event_at"))
            (parse_source_event_at c row.source_event_at))
          _ h1 in
      let (_, _, h3) = >>=-eq-ok (parse_uuid c (codes "request_id") row.request_id) _ h2 in
      let (_, _, h4) =
        >>=-eq-ok (parse_optional (parse_uuid c (codes "source_event_id")) row.source_event_id) _
          h3 in
      let (_, _, h5) =
        >>=-eq-ok
          (parse_optional
            (λ raw. map_err (λ e. invalid_uuid (codes "target_secret_id")) (parse_secret_id c raw))
            row.target_secret_id)
          _ h4 in
      let (_, _, h6) =
        >>=-eq-ok
          (parse_optional (parse_uuid c (codes "target_secret_version_id"))
            row.target_secret_version_id)
          _ h5 in
      let (_, _, h7) =
        >>=-eq-ok (parse_optional (parse_uuid c (codes "actor_user_id")) row.actor_user_id) _ h6 in
      let (_, _, h8) = >>=-eq-ok (parse_optional parse_device_id row.actor_device_id) _ h7 in
      let (_, _, h9) = >>=-eq-ok (parse_ledger_result row.result) _ h8 in
      let (payload, made, _) = >>=-eq-ok (new_payload c entry_type row.payload) _ h9 in
      contains-reject row.payload (accepted c entry_type row.payload payload made).3

  -- The rows restore to the entries, and each row's own key is the one that a list of keys has for
  -- its version.
  pub data Restored (keys : List LedgerVerifyingKey)
      : List LedgerVerificationMaterialRow → List SignedLedgerEntry → Type 0 where
    no_rows : Restored keys [] []
    restored :
        {row : LedgerVerificationMaterialRow} {e : SignedLedgerEntry} (key : LedgerVerifyingKey)
        {rows : List LedgerVerificationMaterialRow} {es : List SignedLedgerEntry}
        → try_restore_signed_ledger_entry c row ≡ ok e
        → try_restore_verifying_key c row ≡ ok (some key)
        → find (λ k. k.key_version == e.signature_key_version) keys ≡ some key
        → Restored keys rows es
        → Restored keys (row ∷ rows) (e ∷ es)

  module _ (keys : List LedgerVerifyingKey) where
    pub restore_entries-Restored :
        {rows : List LedgerVerificationMaterialRow} {es : List SignedLedgerEntry}
        → Restored keys rows es
        → (n : ℕ) → restore_entries c rows n ≡ ok es
    unfolding restore_entries
    restore_entries-Restored no_rows n = refl
    restore_entries-Restored (restored {row} {e} key entry_of key_of found r) n =
        rw (restored-clean row e entry_of, entry_of, restore_entries-Restored r (n + 1)) refl

    pub check_row-verify :
        (row : LedgerVerificationMaterialRow) (e : SignedLedgerEntry) (key : LedgerVerifyingKey)
        (n total : ℕ)
        → try_restore_signed_ledger_entry c row ≡ ok e
        → try_restore_verifying_key c row ≡ ok (some key)
        → check_row c n total row
          ≡ map_err
              (λ error. invalid (entry_count total) (codes "ledger_signature_invalid"))
              (verify_signature c e key)
    unfolding check_row
    check_row-verify row e key n total entry_of key_of =
        rw (check_row, restored-clean row e entry_of, entry_of, key_of) refl

    pub verify_entry-parts :
        (e : SignedLedgerEntry) (key : LedgerVerifyingKey) (k n : ℕ) (h : Bytes)
        → find (λ k. k.key_version == e.signature_key_version) keys ≡ some key
        → (verify_entry c e n h keys ≡ ok tt)
          ↔ ((check_link c k n h e ≡ ok tt) × (verify_signature c e key ≡ ok tt))
    unfolding verify_entry check_link find_verification_key_with_seq
    verify_entry-parts e key k n h found = (λ v. ground arith, λ p. ground arith)
