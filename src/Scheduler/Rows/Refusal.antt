-- ===== src/Scheduler/Rows/Refusal.antt =====
-- What the checks return early is never a valid summary.
use mipsorcu.Crates.{Crates}
use mipsorcu.Ledger.Entry.{SignedLedgerEntry, verify_signature}
use mipsorcu.Ledger.Types.{LedgerError, LedgerVerifyingKey}
use mipsorcu.LedgerRows.{LedgerVerificationMaterialRow}
use mipsorcu.Prelude.{
  ◌≡◌, ℕ, ◌+◌, false, Bytes, codes, Result, ok, err, map_err, List, [], ◌∷◌, arith, sym, ap, ◌∙◌,
  Result-cases, inl, inr,
}
use mipsorcu.Scheduler.Rows.{
  LedgerVerificationSummary, entry_count, Returned, invalid, check_link, check_links, check_row,
  check_rows,
}
use mipsorcu.Scheduler.Rows.Restored.{Restored, no_rows, restored, check_row-verify}

err-injective : {E A : Type 0} {x y : E} → Path (Result E A) (err x) (err y) → x ≡ y
err-injective h = cc

-- A return before the end, which is an error or a summary that is not valid.
unfoldable pub IsRefusal : Returned → Type 0
IsRefusal early = (s : LedgerVerificationSummary) → early ≡ ok s → s.valid ≡ false

module _ (c : Crates) where
  module _ (keys : List LedgerVerifyingKey) where
    pub link-IsRefusal :
        (k n : ℕ) (h : Bytes) (e : SignedLedgerEntry) (early : Returned)
        → check_link c k n h e ≡ err early
        → IsRefusal early
    unfolding check_link IsRefusal
    link-IsRefusal k n h e early f s g = ground arith

    pub links-IsRefusal :
        (es : List SignedLedgerEntry) (k n : ℕ) (h : Bytes) (early : Returned)
        → check_links c k n h es ≡ err early
        → IsRefusal early
    unfolding check_links
    links-IsRefusal [] k n h early f = cc
    links-IsRefusal (e ∷ es) k n h early f = elim (Result-cases (check_link c k n h e)) [
      | inl (_, p) ↦ links-IsRefusal es k e.sequence_no e.entry_hash early (rw p at f)
      | inr (other, p) ↦ link-IsRefusal k n h e early (p ∙ ap err (err-injective (rw p at f)))
    ]

    pub row-IsRefusal :
        (signature : Result LedgerError (Unit {0})) (total : ℕ) (early : Returned)
        → map_err
            (λ error. invalid (entry_count total) (codes "ledger_signature_invalid"))
            signature
          ≡ err early
        → IsRefusal early
    unfolding IsRefusal
    row-IsRefusal (ok _) total early f s g = cc
    row-IsRefusal (err _) total early f s g = ground arith

    pub rows-IsRefusal :
        {rows : List LedgerVerificationMaterialRow} {es : List SignedLedgerEntry}
        → Restored c keys rows es
        → (m total : ℕ) (early : Returned) → check_rows c m total rows ≡ err early
        → IsRefusal early
    unfolding check_rows
    rows-IsRefusal no_rows m total early f = cc
    rows-IsRefusal (restored {row} {e} key {rows} entry_of key_of found r) m total early f =
        elim (Result-cases (check_row c m total row)) [
          | inl (_, p) ↦ rows-IsRefusal r (m + 1) total early (rw p at f)
          | inr (other, p) ↦ row-IsRefusal (verify_signature c e key) total early (
              sym (check_row-verify c keys row e key m total entry_of key_of)
              ∙ p
              ∙ ap err (err-injective (rw p at f)))
        ]
