-- ===== src/LedgerAppender/Retries.antt =====
-- The retry loop of `append`.
use mipsorcu.Crates.{Crates}
use mipsorcu.Ledger.Entry.{LedgerAppendDraft, SignedLedgerEntry}
use mipsorcu.Ledger.Types.{LedgerChainHead, LedgerSigningKey}
use mipsorcu.LedgerAppender.{
  Database, AppendLedgerEntryOutcome, SupabaseRpcError, LedgerAppendError, sign_with_chain_head,
  classify_append_ledger_error, is_retryable_conflict, fetch_chain_head, build_failed, answer,
  attempt, append_rounds, append,
}
use native.Mathlib.Numerals.{add-one}
use mipsorcu.Prelude.{
  map_err, map_err-eq-ok, ℕ, zero, suc, ◌+◌, ◌≤◌, ◌<◌, ◌≡◌, inl, inr, true, Option, none, some,
  Result, ok, err, Result-cases, >>=-eq-ok, arith,
}

module _ (c : Crates) (db : Database) (draft : LedgerAppendDraft) (key : LedgerSigningKey) where
  -- What the database answered in one attempt: the head, the entry signed on it, the append's answer.
  pub record Appended (i : ℕ) (outcome : AppendLedgerEntryOutcome) : Type 0 where
    pub head : LedgerChainHead
    pub entry : SignedLedgerEntry
    pub fetched : db.fetch_ledger_chain_head i ≡ ok head
    pub signed : sign_with_chain_head c draft head key ≡ ok entry
    pub accepted : db.call_append_ledger_entry i entry ≡ ok outcome

  pub record Conflicted (i : ℕ) : Type 0 where
    pub head : LedgerChainHead
    pub entry : SignedLedgerEntry
    pub error : SupabaseRpcError
    pub fetched : db.fetch_ledger_chain_head i ≡ ok head
    pub signed : sign_with_chain_head c draft head key ≡ ok entry
    pub refused : db.call_append_ledger_entry i entry ≡ err error
    pub retryable : is_retryable_conflict (classify_append_ledger_error c error) ≡ true

  fetched_head :
      (i : ℕ) (head : LedgerChainHead)
      → fetch_chain_head c db i (i + 1) ≡ ok head
      → db.fetch_ledger_chain_head i ≡ ok head
  unfolding fetch_chain_head
  fetched_head i head h = map_err-eq-ok _ (db.fetch_ledger_chain_head i) h

  -- what an attempt that reached the database did
  record Called (limit i : ℕ) (r : Result LedgerAppendError (Option AppendLedgerEntryOutcome))
      : Type 0 where
    head : LedgerChainHead
    entry : SignedLedgerEntry
    fetched : db.fetch_ledger_chain_head i ≡ ok head
    signed : sign_with_chain_head c draft head key ≡ ok entry
    answered : answer c limit i (db.call_append_ledger_entry i entry) ≡ r

  attempt-Called :
      (limit i : ℕ) (o : Option AppendLedgerEntryOutcome)
      → attempt c db draft key limit i ≡ ok o
      → Called limit i (ok o)
  unfolding attempt
  attempt-Called limit i o h =
      let (head, p, h1) = >>=-eq-ok (fetch_chain_head c db i (i + 1)) _ h in
      let (entry, q, h2) =
        >>=-eq-ok (map_err build_failed (sign_with_chain_head c draft head key)) _ h1 in
      record {
        head = head;
        entry = entry;
        fetched = fetched_head i head p;
        signed = map_err-eq-ok _ _ q;
        answered = h2;
      }

  attempt-Appended :
      (limit i : ℕ) (o : AppendLedgerEntryOutcome)
      → attempt c db draft key limit i ≡ ok (some o)
      → Appended i o
  unfolding answer
  attempt-Appended limit i o h =
      let call = attempt-Called limit i (some o) h in
      record {
        head = call.head;
        entry = call.entry;
        fetched = call.fetched;
        signed = call.signed;
        accepted = ground (arith, call.answered);
      }

  attempt-Conflicted :
      (limit i : ℕ) → attempt c db draft key limit i ≡ ok none → Conflicted i × (i < limit)
  unfolding answer
  attempt-Conflicted limit i h =
      let call = attempt-Called limit i none h in
      elim (Result-cases (db.call_append_ledger_entry i call.entry)) [
        | inl (o, p) ↦ absurd (ground (arith, call.answered))
        | inr (e, p) ↦ (
          record {
            head = call.head;
            entry = call.entry;
            error = e;
            fetched = call.fetched;
            signed = call.signed;
            refused = p;
            retryable = ground (arith, call.answered);
          },
          ground (arith, call.answered),
        )
      ]

  -- The attempts from `i` on, up to number `limit`, and the result that they end in.
  pub data Attempts (limit : ℕ)
      : ℕ → Result LedgerAppendError AppendLedgerEntryOutcome → Type 0 where
    answers :
        {i : ℕ} {o : AppendLedgerEntryOutcome} → i ≤ limit → Appended i o → Attempts limit i (ok o)
    fails :
        {i : ℕ} {e : LedgerAppendError}
        → i ≤ limit
        → attempt c db draft key limit i ≡ err e
        → Attempts limit i (err e)
    retries :
        {i : ℕ} {r : Result LedgerAppendError AppendLedgerEntryOutcome}
        → Conflicted i
        → Attempts limit (suc i) r
        → Attempts limit i r

  append_rounds-Attempts :
      (limit rounds i : ℕ)
      → rounds + i ≡ limit + 1
      → i ≤ limit
      → Attempts limit i (append_rounds c db draft key limit rounds i)
  unfolding append_rounds
  append_rounds-Attempts limit zero i n small = absurd (omega arith)
  append_rounds-Attempts limit (suc rounds) i n small =
      elim (Result-cases (attempt c db draft key limit i)) [
        | inr (e, p) ↦ rw p (fails small p)
        | inl (none, p) ↦
            rw (p, add-one i)
              (retries (attempt-Conflicted limit i p).0 (
                append_rounds-Attempts limit rounds (suc i) (omega arith)
                  (omega (arith, (attempt-Conflicted limit i p).1))))
        | inl (some o, p) ↦ rw p (answers small (attempt-Appended limit i o p))
      ]

  -- `append` ends by one of the attempts 0 to `max_conflict_retries`, each before it having met a
  -- retryable conflict: with the database's answer for the entry signed on the head fetched in that
  -- attempt, or with that attempt's error. The error after the loop is never returned.
  pub append-Attempts : (limit : ℕ) → Attempts limit 0 (append c db draft key limit)
  unfolding append
  append-Attempts limit = append_rounds-Attempts limit (suc limit) 0 (omega arith) (omega arith)
