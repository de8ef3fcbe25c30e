-- ===== src/Tests/Ledger.antt =====
-- The ledger and the appender on two concrete drafts.

use mipsorcu.Json.{end, entry, number, unsigned}
use mipsorcu.Ledger.Chain.Links.{IsChain, verify_ledger_chain_iff}
use mipsorcu.Ledger.Chain.Tampering.{
  AreCanonical, Collision, SameHistory, verify_ledger_chain-append, verify_ledger_chain-SameHistory,
}
use mipsorcu.Ledger.Chain.{verify_ledger_chain}
use mipsorcu.Ledger.Entry.{LedgerAppendDraft, SignedLedgerEntry, validate_parts}
use mipsorcu.Ledger.Payload.{LedgerPayload}
use mipsorcu.Ledger.Types.{
  secret_created, success, LedgerChainHead, LedgerSigningKey, LedgerVerifyingKey, verification_key,
  genesis, ledger_i64_max,
}
use mipsorcu.LedgerAppender.Retries.{Attempts, append-Attempts}
use mipsorcu.LedgerAppender.Signing.{sign_entries_from_head-verify}
use mipsorcu.LedgerAppender.{Database, append, sign_entries_from_head, non_success_status}
use mipsorcu.Prelude.{
  false, ℕ, suc, ◌≤◌, ◌+◌, ◌≡◌, ◌↔◌, ◌⊎◌, refl, codes, none, some, ok, err, List, [], ◌∷◌, ◌++◌,
  map, replicate, arith,
}
use mipsorcu.Tests.Toy.{toy, toy-Ed25519Laws, toy-JsonTotal, toy-JsonLaws, toy-HexLaws}

abbrev signing_key : LedgerSigningKey
signing_key = record { key_version = 1; signing_key = replicate 32 7 }

abbrev keys : List LedgerVerifyingKey
unfolding toy
keys = verification_key toy signing_key ∷ []

abbrev payload : LedgerPayload
payload = record {
  entry_type = secret_created;
  object = entry (codes "version") (number (unsigned 1)) end;
}

abbrev draft : ℕ → LedgerAppendDraft
draft id = record {
  ledger_entry_id = id;
  entry_type = secret_created;
  source_event_at = codes "2026-05-01T00:00:00Z";
  request_id = 5;
  source_event_id = none;
  target_secret_id = some 9;
  target_secret_version_id = none;
  actor_user_id = none;
  actor_device_id = some (codes "device-1");
  result = success;
  error_code = none;
  payload = payload;
}

abbrev drafts : List LedgerAppendDraft
drafts = draft 1 ∷ draft 2 ∷ []

draft_valid : (id : ℕ) → validate_parts (draft id) ≡ ok tt
unfolding validate_parts
draft_valid id = refl

abbrev Signed : Type 0
Signed =
    (es : List SignedLedgerEntry) × (head : LedgerChainHead) × (sign_entries_from_head toy drafts
        genesis signing_key
      ≡ ok es)
    × (verify_ledger_chain toy es genesis keys ≡ ok head)
    × (map (λ e. e.parts) es ≡ drafts)
    × AreCanonical toy es
    × (head.last_sequence_no ≡ 0 + 2)

signed : Signed
unfolding toy
signed =
    sign_entries_from_head-verify toy signing_key toy-Ed25519Laws toy-JsonTotal keys refl drafts
      genesis (draft_valid 1, (draft_valid 2, tt)) (omega arith)

sign_entries_from_head-verify_example :
    (es : List SignedLedgerEntry) × (head : LedgerChainHead) × (sign_entries_from_head toy drafts
        genesis signing_key
      ≡ ok es)
    × (verify_ledger_chain toy es genesis keys ≡ ok head)
    × (map (λ e. e.parts) es ≡ drafts)
    × AreCanonical toy es
    × (head.last_sequence_no ≡ 0 + 2)
unfolding toy
sign_entries_from_head-verify_example =
    sign_entries_from_head-verify toy signing_key toy-Ed25519Laws toy-JsonTotal keys refl drafts
      genesis (draft_valid 1, (draft_valid 2, tt)) (omega arith)

abbrev entries : List SignedLedgerEntry
entries = signed.0

abbrev head : LedgerChainHead
head = signed.1

verify_ledger_chain_iff_example : (verify_ledger_chain toy entries genesis keys ≡ ok head) ↔ (
    IsChain toy keys 0 genesis.last_entry_hash entries head
    × (head.last_sequence_no ≤ ledger_i64_max))
verify_ledger_chain_iff_example = verify_ledger_chain_iff toy keys entries genesis head

verify_ledger_chain-append_example :
    verify_ledger_chain toy (entries ++ entries) genesis keys
    ≡ verify_ledger_chain toy entries head keys
verify_ledger_chain-append_example =
    verify_ledger_chain-append toy keys entries entries genesis head
      ((verify_ledger_chain_iff toy keys entries genesis head).0 signed.3).0
      (omega (arith, signed.6))

verify_ledger_chain-SameHistory_example :
    Collision toy ⊎ SameHistory toy genesis.last_entry_hash genesis.last_entry_hash entries entries
verify_ledger_chain-SameHistory_example =
    verify_ledger_chain-SameHistory toy toy-JsonLaws toy-HexLaws keys keys entries entries genesis
      genesis head signed.5 signed.5 refl signed.3 signed.3

-- the first append loses a race, the second goes through
abbrev racing : Database
racing = record {
  fetch_ledger_chain_head =
      λ i. ok (record { last_sequence_no = i; last_entry_hash = replicate 32 i });
  call_append_ledger_entry = λ i e. elim i [
    | suc j ↦ ok (record {
      ledger_entry_id = e.ledger_entry_id;
      sequence_no = e.sequence_no;
      entry_hash = e.entry_hash;
      chain_head = record { last_sequence_no = e.sequence_no; last_entry_hash = e.entry_hash };
      replayed = false;
    })
    | _ ↦ err (non_success_status 409 (codes "ledger_sequence_mismatch"))
  ];
}

append-Attempts_example :
    Attempts toy racing (draft 1) signing_key 1 0 (append toy racing (draft 1) signing_key 1)
append-Attempts_example = append-Attempts toy racing (draft 1) signing_key 1
