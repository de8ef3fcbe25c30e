-- ===== src/Ledger/Chain/Links.antt =====
-- The chain as a relation, independent of the order of the checks, and its agreement with the code.
use mipsorcu.Crates.{Crates}
use mipsorcu.Ledger.Chain.{
  find_verification_key_with_seq, verify_entry, verify_entries, verify_ledger_chain,
}
use mipsorcu.Ledger.Entry.{SignedLedgerEntry}
use mipsorcu.Ledger.Types.{
  u64_max, LedgerChainHead, LedgerVerifyingKey, new_chain_head, verify_payload, ledger_i64_max,
}
use mipsorcu.Prelude.{
  ◌<◌, ℕ, ◌+◌, ◌≤◌, ◌≡◌, ◌↔◌, true, Bytes, bytes_eq_iff, some, ok, >>=-eq-ok, find, List, [], ◌∷◌,
  ◌==◌, arith, length, inl, inr, Option-cases,
}

module _ (c : Crates) (keys : List LedgerVerifyingKey) where
  -- What one entry owes to the head before it.
  pub record IsLink (previous_sequence_no : ℕ) (previous_hash : Bytes) (e : SignedLedgerEntry)
      : Type 0 where
    pub key : LedgerVerifyingKey
    pub follows : e.sequence_no ≡ previous_sequence_no + 1
    pub linked : e.previous_entry_hash ≡ previous_hash
    pub hashed : c.sha256 e.canonical_payload ≡ e.entry_hash
    pub found : find (λ k. k.key_version == e.signature_key_version) keys ≡ some key
    pub signed : c.ed25519_verify key.verifying_key e.canonical_payload e.signature ≡ true

  pub data IsChain : ℕ → Bytes → List SignedLedgerEntry → LedgerChainHead → Type 0 where
    here :
        {n : ℕ} {h : Bytes} {head : LedgerChainHead}
        → head.last_sequence_no ≡ n
        → head.last_entry_hash ≡ h
        → IsChain n h [] head
    link :
        {n : ℕ} {h : Bytes} {e : SignedLedgerEntry} {es : List SignedLedgerEntry}
        {head : LedgerChainHead}
        → IsLink n h e
        → IsChain e.sequence_no e.entry_hash es head
        → IsChain n h (e ∷ es) head

  pub verify_entry-IsLink :
      (e : SignedLedgerEntry) (n : ℕ) (h : Bytes) → verify_entry c e n h keys ≡ ok tt → IsLink n h e
  unfolding verify_entry find_verification_key_with_seq verify_payload
  verify_entry-IsLink e n h v =
      elim (Option-cases (find (λ k. k.key_version == e.signature_key_version) keys)) [
        | inl missing ↦ absurd (ground arith)
        | inr (key, found) ↦ record {
          key = key;
          follows = ground arith;
          linked = ground (arith, bytes_eq_iff e.previous_entry_hash h);
          hashed = ground (arith, bytes_eq_iff (c.sha256 e.canonical_payload) e.entry_hash);
          found = found;
          signed = ground arith;
        }
      ]

  found_version :
      (ks : List LedgerVerifyingKey) (v : ℕ) (key : LedgerVerifyingKey)
      → find (λ k. k.key_version == v) ks ≡ some key
      → key.key_version ≡ v
  found_version [] v key h = cc
  found_version (k ∷ ks) v key h = ground (arith, found_version ks v key)

  pub IsLink-verify_entry :
      (e : SignedLedgerEntry) (n : ℕ) (h : Bytes)
      → n < u64_max
      → IsLink n h e
      → verify_entry c e n h keys ≡ ok tt
  unfolding verify_entry find_verification_key_with_seq verify_payload
  IsLink-verify_entry e n h small l = ground (
    arith,
    bytes_eq_iff e.previous_entry_hash h,
    bytes_eq_iff (c.sha256 e.canonical_payload) e.entry_hash,
    found_version keys e.signature_key_version l.key l.found,
  )

  pub IsChain-length :
      {n : ℕ} {h : Bytes} {es : List SignedLedgerEntry} {head : LedgerChainHead}
      → IsChain n h es head
      → head.last_sequence_no ≡ n + length es
  IsChain-length (here p q) = omega arith
  IsChain-length (link l r) = omega (arith, IsChain-length r, l.follows)

  verify_entries-IsChain :
      (es : List SignedLedgerEntry) (n : ℕ) (h : Bytes) (head : LedgerChainHead)
      → verify_entries c es n h keys ≡ ok head
      → IsChain n h es head × (head.last_sequence_no ≤ ledger_i64_max)
  unfolding verify_entries new_chain_head
  verify_entries-IsChain [] n h head v = (here (ground arith) (ground arith), ground arith)
  verify_entries-IsChain (e ∷ es) n h head v =
      let (u, first, rest) = >>=-eq-ok (verify_entry c e n h keys) _ v in
      let (chain, bound) = verify_entries-IsChain es e.sequence_no e.entry_hash head rest in
      (link (verify_entry-IsLink e n h first) chain, bound)

  IsChain-verify_entries :
      {n : ℕ} {h : Bytes} {es : List SignedLedgerEntry} {head : LedgerChainHead}
      → IsChain n h es head
      → head.last_sequence_no ≤ ledger_i64_max
      → verify_entries c es n h keys ≡ ok head
  unfolding verify_entries new_chain_head
  IsChain-verify_entries (here p q) b = ground arith
  IsChain-verify_entries (link {n} {h} {e} l r) b =
      rw (IsLink-verify_entry e n h (omega (arith, IsChain-length r, l.follows)) l)
        (IsChain-verify_entries r b)

  -- The code accepts a run of entries with a head exactly when they are a chain from the initial
  -- head to it (each entry numbered one above, holding the hash before it, hashed and signed under the
  -- first key of its version) and the last number is at most `i64::MAX`.
  pub verify_ledger_chain_iff :
      (es : List SignedLedgerEntry) (start head : LedgerChainHead)
      → (verify_ledger_chain c es start keys ≡ ok head) ↔ (
          IsChain start.last_sequence_no start.last_entry_hash es head
          × (head.last_sequence_no ≤ ledger_i64_max))
  unfolding verify_ledger_chain
  verify_ledger_chain_iff es start head = (
    verify_entries-IsChain es start.last_sequence_no start.last_entry_hash head,
    λ p. IsChain-verify_entries p.0 p.1,
  )
