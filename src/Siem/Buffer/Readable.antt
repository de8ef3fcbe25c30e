-- ===== src/Siem/Buffer/Readable.antt =====
-- The events that a line of the buffer gives back.

use mipsorcu.Ledger.Entry.{SignedLedgerEntry, optional}
use mipsorcu.Crates.{Crates}
use mipsorcu.Json.Readable.{is_readable_map, is_readable}
use mipsorcu.Prelude.{
  refl, arith, ◌≤◌, ◌≡◌, Text, ℕ, ◌^◌, ◌-◌, Bool, true, ◌&&◌, Option, none, some, leb,
}
use mipsorcu.Siem.Event.{from_signed_ledger_entry, SiemEvent}

abbrev u32_max : ℕ
u32_max = 2 ^ 32 - 1

abbrev is_version : Option ℕ → Bool
is_version none = true
is_version (some version) = leb version u32_max

-- The numbers are those of the fields' types. The record and the event stand around the metadata,
-- and the line is read to a depth of 127.
unfoldable pub is_readable_event : SiemEvent → Bool
unfolding is_readable
is_readable_event e =
    leb e.schema_version u32_max && is_version e.key_version && is_readable 125 e.metadata

module _ (c : Crates) where
  optional_readable :
      (depth : ℕ) {A : Type 0} (f : A → Text) (o : Option A)
      → is_readable depth (optional f o) ≡ true
  unfolding is_readable
  optional_readable depth f none = refl
  optional_readable depth f (some a) = refl

  -- the event of a ledger entry can be read back where its payload can
  from_signed_ledger_entry-is_readable_event :
      (e : SignedLedgerEntry)
      → e.sequence_no ≤ 2 ^ 64 - 1
      → e.signature_key_version ≤ u32_max
      → is_readable_map 123 e.payload.object ≡ true
      → is_readable_event (from_signed_ledger_entry c e) ≡ true
  unfolding is_readable_event is_readable from_signed_ledger_entry
  from_signed_ledger_entry-is_readable_event e a b h = ground (
    arith,
    h,
    optional_readable 124 c.hyphenated e.source_event_id,
    optional_readable 124 c.hyphenated e.target_secret_version_id,
  )
