-- ===== src/Scheduler/Rows/Agreement.antt =====
-- The two checks of the scheduler and the verification of src/ledger/verification.rs.
use mipsorcu.Crates.{Crates}
use mipsorcu.Ledger.Chain.{verify_ledger_chain, verify_entry, verify_entries}
use mipsorcu.Ledger.Entry.{SignedLedgerEntry, verify_signature}
use mipsorcu.Ledger.Types.{
  genesis_hash, genesis, ledger_i64_max, LedgerError, LedgerChainHead, LedgerVerifyingKey,
  new_chain_head,
}
use mipsorcu.LedgerRows.{LedgerVerificationMaterialRow}
use mipsorcu.Prelude.{
  ◌>>=◌, Bytes, Result, bytes_eq, bytes_eq_iff, bytes_eq_refl, ==_refl, ◌||◌, ◌>>◌, not, reject,
  true, ◌≡◌, ◌↔◌, ◌≤◌, refl, ℕ, ◌+◌, Text, codes, length, ok, map_err, List, ◌==◌, arith,
  map_err-eq-ok, sym, suc, ap, ◌∙◌, >>=-eq-ok, Result-cases, inl, inr,
}
use mipsorcu.Scheduler.Rows.{
  passed, returned, verify_hash_chain_rows, verify_signature_rows, check_chain,
  LedgerVerificationSummary, entry_count, Returned, invalid, check_link, check_links, check_row,
  check_rows,
}
use mipsorcu.Scheduler.Rows.Restored.{
  Restored, no_rows, restored, check_row-verify, verify_entry-parts, restore_entries-Restored,
}
use mipsorcu.Scheduler.Rows.Refusal.{IsRefusal, links-IsRefusal, rows-IsRefusal}

module _ (c : Crates) where
  module _ (keys : List LedgerVerifyingKey) where
    head_of :
        (n : ℕ) (h : Bytes) (head : LedgerChainHead)
        → new_chain_head n h ≡ ok head
        → (n ≡ head.last_sequence_no) × (h ≡ head.last_entry_hash)
    unfolding new_chain_head
    head_of n h head v = ground arith

    links-checked :
        {rows : List LedgerVerificationMaterialRow} {es : List SignedLedgerEntry}
        → Restored c keys rows es
        → (k m total n : ℕ) (h : Bytes) (head : LedgerChainHead)
        → verify_entries c es n h keys ≡ ok head
        → (check_links c k n h es ≡ ok (head.last_sequence_no, head.last_entry_hash))
          × (check_rows c m total rows ≡ ok (passed (m + length rows)))
    unfolding verify_entries check_links check_rows new_chain_head
    links-checked no_rows k m total n h head v =
        let (last_no, hash) = head_of n h head v in
        let count : m ≡ m + 0 = omega arith in rw (last_no, hash, ← count) (refl, refl)
    links-checked (restored {row} {e} key {rows} {es} entry_of key_of found r) k m total n h head
          v =
        let (_, first, later) = >>=-eq-ok (verify_entry c e n h keys) _ v in
        let (link, signed) = (verify_entry-parts c keys e key k n h found).0 first in
        let (links, rest) = links-checked r k (m + 1) total e.sequence_no e.entry_hash head later in
        let count : (m + 1) + length rows ≡ m + suc (length rows) = omega arith in
        let checked =
          check_row-verify c keys row e key m total entry_of key_of
          ∙ ap (map_err (λ error. invalid (entry_count total) (codes "ledger_signature_invalid")))
              signed in
        (rw link links, rw checked (rw count at rest))

    row-signed :
        (signature : Result LedgerError (Unit {0})) (total : ℕ)
        → map_err
            (λ error. invalid (entry_count total) (codes "ledger_signature_invalid"))
            signature
          ≡ ok tt
        → signature ≡ ok tt
    row-signed signature total h = map_err-eq-ok _ signature h

    entries-verified :
        {rows : List LedgerVerificationMaterialRow} {es : List SignedLedgerEntry}
        → Restored c keys rows es
        → (k m total n : ℕ) (h : Bytes) (last : ℕ × Bytes) (s : LedgerVerificationSummary)
        → check_links c k n h es ≡ ok last
        → check_rows c m total rows ≡ ok s
        → verify_entries c es n h keys ≡ new_chain_head last.0 last.1
    unfolding verify_entries check_links check_rows
    entries-verified no_rows k m total n h last s f g = cc
    entries-verified (restored {row} {e} key {rows} {es} entry_of key_of found r) k m total n h last
          s f g =
        let (_, link, links) = >>=-eq-ok (check_link c k n h e) _ f in
        let (_, checked, rest) = >>=-eq-ok (check_row c m total row) _ g in
        let signed =
          row-signed (verify_signature c e key) total
            (sym (check_row-verify c keys row e key m total entry_of key_of) ∙ checked) in
        rw (verify_entries, (verify_entry-parts c keys e key k n h found).1 (link, signed))
          (entries-verified r k (m + 1) total e.sequence_no e.entry_hash last s links rest)

    -- The check returns a summary that is valid.
    pub Passes : Result Text LedgerVerificationSummary → Type 0
    Passes r = (s : LedgerVerificationSummary) × (r ≡ ok s) × (s.valid ≡ true)

    -- the end of `check_chain`
    compare : ℕ → LedgerChainHead → ℕ × Bytes → Result Returned LedgerVerificationSummary
    compare n head last =
        reject (not (last.0 == head.last_sequence_no) || not (bytes_eq last.1 head.last_entry_hash))
          (invalid n (codes "ledger_chain_head_mismatch"))
        >> ok (passed n)

    compare-passes :
        (n : ℕ) (head : LedgerChainHead) (last : ℕ × Bytes) (s : LedgerVerificationSummary)
        → returned (compare n head last) ≡ ok s
        → s.valid ≡ true
        → (last.0 ≡ head.last_sequence_no) × (last.1 ≡ head.last_entry_hash)
    unfolding compare
    compare-passes n head last s h valid = ground (arith, bytes_eq_iff last.1 head.last_entry_hash)

    compare-same :
        (n : ℕ) (head : LedgerChainHead)
        → compare n head (head.last_sequence_no, head.last_entry_hash) ≡ ok (passed n)
    unfolding compare
    compare-same n head =
        rw (==_refl head.last_sequence_no, bytes_eq_refl head.last_entry_hash) refl

    chain-compare :
        {rows : List LedgerVerificationMaterialRow} {es : List SignedLedgerEntry}
        (head : LedgerChainHead)
        → Restored c keys rows es
        → check_chain c head rows ≡ (
            check_links c (entry_count (length es)) 0 genesis_hash es
            >>= compare (entry_count (length es)) head)
    unfolding check_chain compare
    chain-compare head r = rw (check_chain, restore_entries-Restored c keys r 0) refl

    chain-linked :
        {rows : List LedgerVerificationMaterialRow} {es : List SignedLedgerEntry}
        (head : LedgerChainHead)
        → Restored c keys rows es
        → Passes (verify_hash_chain_rows c head rows)
        → check_links c (entry_count (length es)) 0 genesis_hash es
          ≡ ok (head.last_sequence_no, head.last_entry_hash)
    unfolding Passes verify_hash_chain_rows IsRefusal
    chain-linked {es = es} head r (s, h, valid) =
        let h' = rw (chain-compare head r) at h in
        elim (Result-cases (check_links c (entry_count (length es)) 0 genesis_hash es)) [
          | inl (last, p) ↦
              let (a, b) =
                compare-passes (entry_count (length es)) head last s (rw p at h') valid in
              rw (← a, ← b) p
          | inr (early, p) ↦
              let refused =
                links-IsRefusal c keys es (entry_count (length es)) 0 genesis_hash early p s in
              absurd (ground (arith, refused (rw p at h')))
        ]

    rows-checked :
        {rows : List LedgerVerificationMaterialRow} {es : List SignedLedgerEntry}
        → Restored c keys rows es
        → Passes (verify_signature_rows c rows)
        → (s : LedgerVerificationSummary) × (check_rows c 0 (length rows) rows ≡ ok s)
    unfolding Passes verify_signature_rows IsRefusal
    rows-checked {rows = rows} r (s, h, valid) =
        elim (Result-cases (check_rows c 0 (length rows) rows)) [
          | inl found ↦ found
          | inr (early, p) ↦
              let refused = rows-IsRefusal c keys r 0 (length rows) early p s in
              absurd (ground (arith, refused (rw p at h)))
        ]

    -- For rows that are restored to entries, with the keys that a registry has for their versions, and
    -- a head whose number is at most i64::MAX: the check of the hash chain and the check of the
    -- signatures both return a valid summary exactly when the verification of the ledger accepts the
    -- entries from the first to that head.
    pub verify_rows_iff :
        (rows : List LedgerVerificationMaterialRow) (es : List SignedLedgerEntry)
        (head : LedgerChainHead)
        → head.last_sequence_no ≤ ledger_i64_max
        → Restored c keys rows es
        → (Passes (verify_hash_chain_rows c head rows) × Passes (verify_signature_rows c rows))
          ↔ (verify_ledger_chain c es genesis keys ≡ ok head)
    unfolding verify_ledger_chain Passes verify_hash_chain_rows verify_signature_rows new_chain_head
    verify_rows_iff rows es head bounded r = (
      (λ p.
          let (s, checked) = rows-checked r p.1 in
          entries-verified r (entry_count (length es)) 0 (length rows) 0 genesis_hash
            (head.last_sequence_no, head.last_entry_hash) s (chain-linked head r p.0) checked
          ∙ ground arith),
      (λ v.
          let (links, checked) =
            links-checked r (entry_count (length es)) 0 (length rows) 0 genesis_hash head v in
          (
            (
              passed (entry_count (length es)),
              ap returned (
                  chain-compare head r
                  ∙ ap
                      (λ (a : Result Returned (ℕ × Bytes)).
                        a >>= compare (entry_count (length es)) head)
                      links
                  ∙ compare-same (entry_count (length es)) head),
              refl,
            ),
            (passed (0 + length rows), ap returned checked, refl),
          )),
    )
