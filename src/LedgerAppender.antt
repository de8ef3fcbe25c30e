-- ===== src/LedgerAppender.antt =====
-- src/server/ledger_appender.rs: signing drafts onto the chain head, and the append with its retries.
-- The database is the argument `Database`: what each call answers, by the number of the attempt.
pub mod Failures
pub mod Signing
pub mod Retries
use mipsorcu.Crates.{Crates, Uuid}
use mipsorcu.Json.{Value, as_object, as_str, get}
use mipsorcu.Ledger.Entry.{
  LedgerAppendDraft, SignedLedgerEntry, LedgerEntryDraft, new_draft, same_entry_type, sign,
}
use mipsorcu.Ledger.Types.{
  LedgerError, unknown_payload_key, LedgerChainHead, LedgerSigningKey, checked_add_one,
  new_sequence_no, next_sequence_no,
}
use mipsorcu.Prelude.{
  ℕ, zero, suc, ◌+◌, Bool, true, false, not, ◌&&◌, ◌||◌, Bytes, Text, codes, Option, none, some,
  Result, ok, err, map_err, reject, ◌>>=◌, ◌>>◌, List, [], ◌∷◌, ltb, leb, ◌==◌, if◌then◌else◌,
  find_sub, min,
}
unfoldable pub use Failures.*

abbrev pub max_conflict_retries_limit : ℕ
max_conflict_retries_limit = 3

-- `LedgerAppenderConfig::new`
unfoldable pub new_config : ℕ → ℕ
new_config max_conflict_retries = min max_conflict_retries max_conflict_retries_limit

abbrev pub default_max_conflict_retries : ℕ
default_max_conflict_retries = 1

-- `LedgerAppendDraft::new`
unfoldable pub new_append_draft : LedgerAppendDraft → Result LedgerError LedgerAppendDraft
unfolding same_entry_type
new_append_draft p = do
  reject (not (same_entry_type p.payload.entry_type p.entry_type))
      (unknown_payload_key (codes "payload.entry_type") p.entry_type)
  ok p

-- `AppendLedgerEntryOutcome` of src/types/supabase.rs
pub record AppendLedgerEntryOutcome : Type 0 where
  pub ledger_entry_id : Uuid
  pub sequence_no : ℕ
  pub entry_hash : Bytes
  pub chain_head : LedgerChainHead
  pub replayed : Bool

-- What the calls `fetch_ledger_chain_head` and `call_append_ledger_entry` answer in each attempt.
pub record Database : Type 0 where
  pub fetch_ledger_chain_head : ℕ → Result SupabaseRpcError LedgerChainHead
  pub call_append_ledger_entry :
      ℕ → SignedLedgerEntry → Result SupabaseRpcError AppendLedgerEntryOutcome

build_failed : LedgerError → LedgerAppendError
build_failed e = invalid_entry (codes "ledger_entry_build_failed")

module _ (c : Crates) where
  -- `LedgerAppendDraft::sign_with_sequence`
  unfoldable pub sign_with_sequence :
      LedgerAppendDraft → ℕ → Bytes → LedgerSigningKey → Result LedgerError SignedLedgerEntry
  sign_with_sequence parts sequence_no previous_entry_hash signing_key = do
    draft ← new_draft (record {
      parts = parts;
      sequence_no = sequence_no;
      previous_entry_hash = previous_entry_hash;
      signature_key_version = signing_key.key_version;
    })
    sign c draft signing_key

  -- `LedgerAppendDraft::sign_with_chain_head`
  unfoldable pub sign_with_chain_head :
      LedgerAppendDraft → LedgerChainHead → LedgerSigningKey → Result LedgerError SignedLedgerEntry
  sign_with_chain_head parts head signing_key = do
    sequence_no ← next_sequence_no head
    sign_with_sequence parts sequence_no head.last_entry_hash signing_key

  -- one round of the loop of `sign_entries_from_head`
  unfoldable pub sign_next :
      LedgerAppendDraft → ℕ → Bytes → LedgerSigningKey → Result LedgerAppendError SignedLedgerEntry
  unfolding build_failed
  sign_next draft previous_sequence_no previous_hash signing_key = do
    next ← checked_add_one previous_sequence_no (invalid_entry (codes "ledger_sequence_overflow"))
    sequence_no ← map_err build_failed (new_sequence_no next)
    map_err build_failed (sign_with_sequence draft sequence_no previous_hash signing_key)

  unfoldable pub sign_from :
      List LedgerAppendDraft
      → ℕ
      → Bytes
      → LedgerSigningKey
      → Result LedgerAppendError (List SignedLedgerEntry)
  sign_from [] previous_sequence_no previous_hash signing_key = ok []
  sign_from (draft ∷ drafts) previous_sequence_no previous_hash signing_key =
      sign_next draft previous_sequence_no previous_hash signing_key >>= λ e.
      sign_from drafts e.sequence_no e.entry_hash signing_key >>= λ es. ok (e ∷ es)

  unfoldable pub sign_entries_from_head :
      List LedgerAppendDraft
      → LedgerChainHead
      → LedgerSigningKey
      → Result LedgerAppendError (List SignedLedgerEntry)
  unfolding sign_from
  sign_entries_from_head drafts chain_head signing_key =
      sign_from drafts chain_head.last_sequence_no chain_head.last_entry_hash signing_key

  -- what a round makes of the answer to `call_append_ledger_entry`
  unfoldable pub answer :
      ℕ
      → ℕ
      → Result SupabaseRpcError AppendLedgerEntryOutcome
      → Result LedgerAppendError (Option AppendLedgerEntryOutcome)
  answer max_conflict_retries retry_index (ok outcome) = ok (some outcome)
  answer max_conflict_retries retry_index (err error) =
      let failure = classify_append_ledger_error c error in
      if is_retryable_conflict failure && ltb retry_index max_conflict_retries
      then ok none
      else err (classify_appender_error failure error (retry_index + 1))

  module _ (db : Database) where
    unfoldable pub fetch_chain_head : ℕ → ℕ → Result LedgerAppendError LedgerChainHead
    unfolding upstream_status
    fetch_chain_head call attempts =
        map_err
          (λ e.
            external_dependency_failed (codes "ledger_chain_head_fetch_failed") (upstream_status e)
              attempts)
          (db.fetch_ledger_chain_head call)

    -- `sign_entries`
    unfoldable pub sign_entries :
        List LedgerAppendDraft
        → LedgerSigningKey
        → Result LedgerAppendError (List SignedLedgerEntry)
    unfolding sign_entries_from_head fetch_chain_head
    sign_entries drafts signing_key = do
      head ← fetch_chain_head 0 1
      sign_entries_from_head drafts head signing_key

    -- One round of the loop of `append`: an answer, or `none` for `continue`.
    unfoldable pub attempt :
        LedgerAppendDraft
        → LedgerSigningKey
        → ℕ
        → ℕ
        → Result LedgerAppendError (Option AppendLedgerEntryOutcome)
    unfolding fetch_chain_head build_failed
    attempt draft signing_key max_conflict_retries retry_index = do
      head ← fetch_chain_head retry_index (retry_index + 1)
      e ← map_err build_failed (sign_with_chain_head draft head signing_key)
      answer max_conflict_retries retry_index (db.call_append_ledger_entry retry_index e)

    -- `for retry_index in 0..=max_conflict_retries`, with the rounds left
    unfoldable pub append_rounds :
        LedgerAppendDraft
        → LedgerSigningKey
        → ℕ
        → ℕ
        → ℕ
        → Result LedgerAppendError AppendLedgerEntryOutcome
    append_rounds draft signing_key max_conflict_retries zero retry_index = err (
        external_dependency_failed (codes "ledger_append_retry_exhausted") none
          (max_conflict_retries + 1))
    append_rounds draft signing_key max_conflict_retries (suc rounds) retry_index =
        attempt draft signing_key max_conflict_retries retry_index >>= elim [
          | some outcome ↦ ok outcome
          | none ↦ append_rounds draft signing_key max_conflict_retries rounds (retry_index + 1)
        ]

    unfoldable pub append :
        LedgerAppendDraft → LedgerSigningKey → ℕ → Result LedgerAppendError AppendLedgerEntryOutcome
    unfolding append_rounds
    append draft signing_key max_conflict_retries =
        append_rounds draft signing_key max_conflict_retries (suc max_conflict_retries) 0
