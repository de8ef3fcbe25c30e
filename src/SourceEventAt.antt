-- ===== src/SourceEventAt.antt =====
-- `SourceEventAt` and the RFC 3339 helpers of src/types/time.rs.
use mipsorcu.Crates.{Crates, OffsetDateTime}
use mipsorcu.Prelude.{
  ◌-◌, Text, codes, length, take, not, Result, ok, err, ◌>>=◌, ok_or, map_err, ◌++◌, if◌then◌else◌,
  trim, to_ascii_uppercase, ends_with,
}

pub data TimeError : Type 0 where
  invalid_timestamp : Text → Text → TimeError
  serialization_failed : Text → TimeError

-- ` UTC` and `UTC` are cut off the end by bytes, which are ASCII there.
unfoldable pub rewrite_utc_suffix : Text → Text
unfolding trim to_ascii_uppercase ends_with
rewrite_utc_suffix value =
    let trimmed = trim value in
    let upper = to_ascii_uppercase trimmed in
    if ends_with upper (codes " UTC")
    then take (length trimmed - 4) trimmed ++ codes "Z"
    else if ends_with upper (codes "UTC")
    then take (length trimmed - 3) trimmed ++ codes "Z"
    else trimmed

module _ (c : Crates) where
  -- `SourceEventAt::parse` keeps the text as it stands.
  unfoldable pub parse_source_event_at : Text → Result TimeError Text
  unfolding ends_with
  parse_source_event_at value =
      let invalid = invalid_timestamp (codes "source_event_at") value in
      if not (ends_with value (codes "Z")) then err invalid else do
        parsed ← ok_or (c.parse_rfc3339 value) invalid
        if not (c.offset_is_utc parsed) then err invalid else ok value

  unfoldable pub parse_utc_rfc3339 : Text → Text → Result TimeError OffsetDateTime
  parse_utc_rfc3339 value field = do
    parsed ← ok_or (c.parse_rfc3339 (rewrite_utc_suffix value)) (invalid_timestamp field value)
    if not (c.offset_is_utc parsed)
        then err (invalid_timestamp field value)
        else ok (c.to_offset_utc parsed)

  unfoldable pub format_utc_rfc3339 : OffsetDateTime → Result TimeError Text
  format_utc_rfc3339 value = map_err serialization_failed (c.format_rfc3339 (c.to_offset_utc value))
