-- ===== src/LedgerAppender/Signing.antt =====
-- What `sign_entries_from_head` signs is what `verify_ledger_chain` accepts.

use mipsorcu.Crates.{Crates, Ed25519Laws, JsonTotal}
use mipsorcu.Ledger.Chain.Links.{IsLink, IsChain, here, link, verify_ledger_chain_iff}
use mipsorcu.Ledger.Chain.Tampering.{AreCanonical, none_left, canonical}
use mipsorcu.Ledger.Chain.{verify_ledger_chain}
use mipsorcu.Ledger.Entry.{
  LedgerAppendDraft, LedgerEntryDraft, SignedLedgerEntry, validate_parts, new_draft, sign,
  build_canonical_payload, canonical_document,
}
use mipsorcu.Ledger.Types.{
  LedgerChainHead, LedgerSigningKey, LedgerVerifyingKey, verification_key, sign_payload,
  new_sequence_no, ledger_i64_max,
}
use mipsorcu.LedgerAppender.{sign_with_sequence, sign_next, sign_from, sign_entries_from_head}
use mipsorcu.Prelude.{
  ℕ, ◌+◌, ◌≤◌, ◌<◌, ◌≡◌, refl, ap, Bytes, some, ok, find, List, [], ◌∷◌, map, length, arith, ◌==◌,
}

abbrev pub AllValid : List LedgerAppendDraft → Type 0
AllValid [] = Unit
AllValid (d ∷ ds) = (validate_parts d ≡ ok tt) × AllValid ds

module _ (c : Crates) (key : LedgerSigningKey) where
  -- The draft, placed at a number after a hash, as signing finishes it.
  abbrev placed : LedgerAppendDraft → ℕ → Bytes → LedgerEntryDraft
  placed d n h = record {
    parts = d;
    sequence_no = n;
    previous_entry_hash = h;
    signature_key_version = key.key_version;
  }

  module _ (ed : Ed25519Laws c) (json : JsonTotal c) where
    abbrev bytes_of : LedgerAppendDraft → ℕ → Bytes → Bytes
    bytes_of d n h = json.written (canonical_document c (placed d n h))

    abbrev signed_entry : LedgerAppendDraft → ℕ → Bytes → SignedLedgerEntry
    signed_entry d n h = record {
      draft = placed d n h;
      canonical_payload = bytes_of d n h;
      entry_hash = c.sha256 (bytes_of d n h);
      signature = c.ed25519_sign key.signing_key (bytes_of d n h);
    }

    build_lem :
        (d : LedgerEntryDraft)
        → build_canonical_payload c d ≡ ok (json.written (canonical_document c d))
    unfolding build_canonical_payload
    build_lem d = rw (json.to_vec-written (canonical_document c d))

    sign_payload_lem :
        (m : Bytes) → sign_payload c key key.key_version m ≡ ok (c.ed25519_sign key.signing_key m)
    unfolding sign_payload
    sign_payload_lem m = ground (arith, ed.length-sign key.signing_key m)

    sign_lem :
        (d : LedgerAppendDraft) (n : ℕ) (h : Bytes)
        → sign c (placed d n h) key ≡ ok (signed_entry d n h)
    unfolding sign
    sign_lem d n h = rw (build_lem (placed d n h)) (rw (sign_payload_lem (bytes_of d n h)))

    sign_with_sequence_lem :
        (d : LedgerAppendDraft) (n : ℕ) (h : Bytes)
        → validate_parts d ≡ ok tt
        → sign_with_sequence c d n h key ≡ ok (signed_entry d n h)
    unfolding sign_with_sequence new_draft
    sign_with_sequence_lem d n h v = rw v (sign_lem d n h)

    sign_next_lem :
        (d : LedgerAppendDraft) (n : ℕ) (h : Bytes)
        → validate_parts d ≡ ok tt
        → n < ledger_i64_max
        → sign_next c d n h key ≡ ok (signed_entry d (n + 1) h)
    unfolding sign_next new_sequence_no
    sign_next_lem d n h v b = ground (arith, sign_with_sequence_lem d (n + 1) h v)

    module _ (keys : List LedgerVerifyingKey)
        (known : find (λ k. k.key_version == key.key_version) keys
          ≡ some (verification_key c key)) where
      signed_entry-IsLink :
          (d : LedgerAppendDraft) (n : ℕ) (h : Bytes) → IsLink c keys n h (signed_entry d (n + 1) h)
      signed_entry-IsLink d n h = record {
        key = verification_key c key;
        follows = refl;
        linked = refl;
        hashed = refl;
        found = known;
        signed = ed.verify-sign key.signing_key (bytes_of d (n + 1) h);
      }

      -- What signing yields: entries, and the head that verification ends in.
      pub record Signs (ds : List LedgerAppendDraft) (n : ℕ) (h : Bytes) : Type 0 where
        pub entries : List SignedLedgerEntry
        pub head : LedgerChainHead
        pub signs : sign_from c ds n h key ≡ ok entries
        pub chain : IsChain c keys n h entries head
        pub in_order : map (λ e. e.parts) entries ≡ ds
        pub canonical_bytes : AreCanonical c entries
        pub last : head.last_sequence_no ≡ n + length ds

      sign_from-Signs :
          (ds : List LedgerAppendDraft) (n : ℕ) (h : Bytes)
          → AllValid ds
          → n + length ds ≤ ledger_i64_max
          → Signs ds n h
      unfolding sign_from
      sign_from-Signs [] n h v b = record {
        entries = [];
        head = record { last_sequence_no = n; last_entry_hash = h };
        signs = refl;
        chain = here refl refl;
        in_order = refl;
        canonical_bytes = none_left;
        last = omega arith;
      }
      sign_from-Signs (d ∷ ds) n h (v, vs) b =
          let e = signed_entry d (n + 1) h in
          let rest = sign_from-Signs ds (n + 1) e.entry_hash vs (omega arith) in
          record {
            entries = e ∷ rest.entries;
            head = rest.head;
            signs = rw (sign_next_lem d n h v (omega arith)) (rw rest.signs);
            chain = link (signed_entry-IsLink d n h) rest.chain;
            in_order = ap (◌∷◌ d) rest.in_order;
            canonical_bytes = canonical (build_lem (placed d (n + 1) h)) rest.canonical_bytes;
            last = omega (arith, rest.last);
          }

      -- Signing succeeds on valid drafts that fit below `i64::MAX`, and what it signs verifies from the
      -- same head, for every set of keys whose first key of the signing version is the signing key's own.
      -- The entries carry the drafts in order, and the final number counts them.
      pub sign_entries_from_head-verify :
          (ds : List LedgerAppendDraft) (start : LedgerChainHead)
          → AllValid ds
          → start.last_sequence_no + length ds ≤ ledger_i64_max
          → (es : List SignedLedgerEntry) × (head : LedgerChainHead) × (sign_entries_from_head c ds
                start key
              ≡ ok es)
            × (verify_ledger_chain c es start keys ≡ ok head)
            × (map (λ e. e.parts) es ≡ ds)
            × AreCanonical c es
            × (head.last_sequence_no ≡ start.last_sequence_no + length ds)
      unfolding sign_entries_from_head
      sign_entries_from_head-verify ds start v b =
          let s = sign_from-Signs ds start.last_sequence_no start.last_entry_hash v b in
          (
            s.entries,
            s.head,
            s.signs,
            (verify_ledger_chain_iff c keys s.entries start s.head).1
                (s.chain, omega (arith, s.last)),
            s.in_order,
            s.canonical_bytes,
            s.last,
          )
