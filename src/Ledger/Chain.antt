-- ===== src/Ledger/Chain.antt =====
-- src/ledger/verification.rs: the check of a run of entries against a chain head.
pub mod Links
pub mod Tampering
use mipsorcu.Crates.{Crates}
use mipsorcu.Ledger.Entry.{SignedLedgerEntry, recompute_entry_hash, verify_signature}
use mipsorcu.Ledger.Types.{
  LedgerError, sequence_overflow, sequence_gap, previous_hash_mismatch, hash_mismatch,
  unknown_signature_key, signature_invalid, LedgerChainHead, new_chain_head, LedgerVerifyingKey,
  checked_add_one,
}
use mipsorcu.Prelude.{
  ℕ, not, Bytes, bytes_eq, Result, ok, ok_or, map_err, reject, find, ◌>>=◌, ◌>>◌, List, [], ◌∷◌,
  ◌==◌,
}

-- `find_verification_key_with_seq`: the first key of that version
unfoldable pub find_verification_key_with_seq :
    List LedgerVerifyingKey → ℕ → ℕ → Result LedgerError LedgerVerifyingKey
find_verification_key_with_seq keys key_version sequence_no =
    ok_or (find (λ key. key.key_version == key_version) keys)
      (unknown_signature_key key_version sequence_no)

module _ (c : Crates) where
  -- the body of the loop: the checks of one entry after `previous`
  unfoldable pub verify_entry :
      SignedLedgerEntry → ℕ → Bytes → List LedgerVerifyingKey → Result LedgerError (Unit {0})
  verify_entry e previous_sequence_no previous_hash keys = do
    expected ← checked_add_one previous_sequence_no sequence_overflow
    reject (not (e.sequence_no == expected)) (sequence_gap expected e.sequence_no)
    reject (not (bytes_eq e.previous_entry_hash previous_hash))
        (previous_hash_mismatch e.sequence_no)
    reject (not (bytes_eq (recompute_entry_hash c e) e.entry_hash)) (hash_mismatch e.sequence_no)
    key ← find_verification_key_with_seq keys e.signature_key_version e.sequence_no
    map_err (λ _. signature_invalid e.sequence_no) (verify_signature c e key)

  -- the loop
  unfoldable pub verify_entries :
      List SignedLedgerEntry
      → ℕ
      → Bytes
      → List LedgerVerifyingKey
      → Result LedgerError LedgerChainHead
  verify_entries [] previous_sequence_no previous_hash keys =
      new_chain_head previous_sequence_no previous_hash
  verify_entries (e ∷ es) previous_sequence_no previous_hash keys =
      verify_entry e previous_sequence_no previous_hash keys >>= λ _.
      verify_entries es e.sequence_no e.entry_hash keys

  unfoldable pub verify_ledger_chain :
      List SignedLedgerEntry
      → LedgerChainHead
      → List LedgerVerifyingKey
      → Result LedgerError LedgerChainHead
  unfolding verify_entries
  verify_ledger_chain entries head keys =
      verify_entries entries head.last_sequence_no head.last_entry_hash keys
