-- ===== src/Ledger/Chain/Tampering.antt =====
-- Verification in pieces, and what it says about two histories that end in the same head.
use mipsorcu.Crates.{Crates, JsonLaws, HexLaws}
use mipsorcu.Ledger.Chain.Links.{
  IsLink, IsChain, here, link, verify_ledger_chain_iff, IsLink-verify_entry, IsChain-length,
}
use mipsorcu.Ledger.Chain.{verify_entries, verify_ledger_chain}
use mipsorcu.Ledger.Entry.{
  LedgerEntryDraft, SignedLedgerEntry, build_canonical_payload, canonical_document,
}
use mipsorcu.Ledger.Types.{LedgerChainHead, LedgerVerifyingKey, u64_max}
use mathlib.Core.Path.{ap₂}
use mipsorcu.Json.{Value, Map, object, end, entry, string}
use mipsorcu.Prelude.{
  zero, suc, Text, ℕ, ◌<◌, ◌≡◌, ◌⊎◌, ◌≢◌, inl, inr, refl, sym, ap, ◌∙◌, Bytes, bytes_eq,
  bytes_eq_iff, Bool-cases, ok, List, [], ◌∷◌, ◌++◌, map, length, arith, map_err-eq-ok,
}

module _ (c : Crates) where
  module _ (keys : List LedgerVerifyingKey) where
    verify_entries-append :
        {n : ℕ} {h : Bytes} {xs : List SignedLedgerEntry} {mid : LedgerChainHead}
        → IsChain c keys n h xs mid
        → mid.last_sequence_no < u64_max
        → (ys : List SignedLedgerEntry)
        → verify_entries c (xs ++ ys) n h keys
          ≡ verify_entries c ys mid.last_sequence_no mid.last_entry_hash keys
    unfolding verify_entries
    verify_entries-append (here p q) b ys = rw (p, q) refl
    verify_entries-append (link {n} {h} {e} l r) b ys =
        rw (IsLink-verify_entry c keys e n h (omega (arith, IsChain-length c keys r, l.follows)) l)
          (verify_entries-append r b ys)

    -- Where the first entries are a chain up to a middle head below `u64::MAX`, the verification of
    -- all entries is that of the others from the middle head, in its result and in its error.
    pub verify_ledger_chain-append :
        (xs ys : List SignedLedgerEntry) (start mid : LedgerChainHead)
        → IsChain c keys start.last_sequence_no start.last_entry_hash xs mid
        → mid.last_sequence_no < u64_max
        → verify_ledger_chain c (xs ++ ys) start keys ≡ verify_ledger_chain c ys mid keys
    unfolding verify_ledger_chain
    verify_ledger_chain-append xs ys start mid chain b = verify_entries-append chain b ys

  -- Two different messages with one SHA-256 hash.
  pub record Collision : Type 0 where
    pub left : Bytes
    pub right : Bytes
    pub differ : left ≢ right
    pub same_hash : c.sha256 left ≡ c.sha256 right

  -- The canonical bytes are those of the entry's own fields, as `sign` and `from_stored_parts` make them.
  pub data AreCanonical : List SignedLedgerEntry → Type 0 where
    none_left : AreCanonical []
    canonical :
        {e : SignedLedgerEntry} {es : List SignedLedgerEntry}
        → build_canonical_payload c e.draft ≡ ok e.canonical_payload
        → AreCanonical es
        → AreCanonical (e ∷ es)

  abbrev pub payloads : List SignedLedgerEntry → List Bytes
  payloads = map (λ e. e.canonical_payload)

  same_document :
      JsonLaws c
      → (d e : LedgerEntryDraft) (b : Bytes) → build_canonical_payload c d ≡ ok b
      → build_canonical_payload c e ≡ ok b
      → canonical_document c d ≡ canonical_document c e
  unfolding build_canonical_payload
  same_document j d e b p q = j.to_vec-injective _ _ b (map_err-eq-ok _ _ p) (map_err-eq-ok _ _ q)

  -- the text at a place of an object
  abbrev text_at : ℕ → Value → Text
  text_at k (object m) = go k m
    where
      go : ℕ → Map → Text
      go n end = []
      go zero (entry key (string t) rest) = t
      go zero (entry key v rest) = []
      go (suc n) (entry key v rest) = go n rest
  text_at k v = []

  same_previous :
      HexLaws c
      → (d e : LedgerEntryDraft) → canonical_document c d ≡ canonical_document c e
      → d.previous_entry_hash ≡ e.previous_entry_hash
  unfolding canonical_document
  same_previous hex d e p =
      let q : c.hex_encode d.previous_entry_hash ≡ c.hex_encode e.previous_entry_hash =
        ap (text_at 14) p in
      cc (q, hex.decode-encode d.previous_entry_hash, hex.decode-encode e.previous_entry_hash)

  pub record SameHistory (start_d start_e : Bytes) (ds es : List SignedLedgerEntry) : Type 0 where
    pub same_start : start_d ≡ start_e
    pub same_payloads : payloads ds ≡ payloads es

  module _ (j : JsonLaws c) (hex : HexLaws c) (keys_d keys_e : List LedgerVerifyingKey) where
    one_step :
        {m n : ℕ} {g h : Bytes} (d e : SignedLedgerEntry) (ds es : List SignedLedgerEntry)
        → IsLink c keys_d m g d
        → IsLink c keys_e n h e
        → build_canonical_payload c d.draft ≡ ok d.canonical_payload
        → build_canonical_payload c e.draft ≡ ok e.canonical_payload
        → SameHistory d.entry_hash e.entry_hash ds es
        → Collision ⊎ SameHistory g h (d ∷ ds) (e ∷ es)
    one_step d e ds es l k p q s =
        elim (Bool-cases (bytes_eq d.canonical_payload e.canonical_payload)) [
          | inl same ↦
              let eq = (bytes_eq_iff d.canonical_payload e.canonical_payload).0 same in
              inr (record {
                same_start =
                    sym l.linked
                    ∙ same_previous hex d.draft e.draft
                        (same_document j d.draft e.draft d.canonical_payload p (q ∙ ap ok (sym eq)))
                    ∙ k.linked;
                same_payloads = ap₂ ◌∷◌ eq s.same_payloads;
              })
          | inr other ↦ inl (record {
            left = d.canonical_payload;
            right = e.canonical_payload;
            differ = λ eq. cc (other, (bytes_eq_iff d.canonical_payload e.canonical_payload).1 eq);
            same_hash = l.hashed ∙ s.same_start ∙ sym k.hashed;
          })
        ]

    histories :
        {m n : ℕ} {g h : Bytes} {ds es : List SignedLedgerEntry} {head : LedgerChainHead}
        → AreCanonical ds
        → AreCanonical es
        → IsChain c keys_d m g ds head
        → IsChain c keys_e n h es head
        → length ds ≡ length es
        → Collision ⊎ SameHistory g h ds es
    histories a b (here p q) (here r s) len =
        inr (record { same_start = sym q ∙ s; same_payloads = refl })
    histories a b (here p q) (link l s) len = absurd (omega arith)
    histories a b (link k r) (here p q) len = absurd (omega arith)
    histories (canonical p ps) (canonical q qs) (link {e = d} {es = ds} k r)
          (link {e = e} {es = es} l s) len =
        elim (histories ps qs r s (omega arith)) [
          | inl x ↦ inl x
          | inr same ↦ one_step d e ds es k l p q same
        ]

    -- Tampering is evident. Two runs of entries that both verify (under any two sets of keys) from heads
    -- with one sequence number, and end in one head, have the same canonical payloads in the same order
    -- and start from the same hash; otherwise two different messages with one SHA-256 hash are at hand.
    pub verify_ledger_chain-SameHistory :
        (ds es : List SignedLedgerEntry) (start_d start_e head : LedgerChainHead)
        → AreCanonical ds
        → AreCanonical es
        → start_d.last_sequence_no ≡ start_e.last_sequence_no
        → verify_ledger_chain c ds start_d keys_d ≡ ok head
        → verify_ledger_chain c es start_e keys_e ≡ ok head
        → Collision ⊎ SameHistory start_d.last_entry_hash start_e.last_entry_hash ds es
    verify_ledger_chain-SameHistory ds es start_d start_e head a b n p q =
        let r = ((verify_ledger_chain_iff c keys_d ds start_d head).0 p).0 in
        let s = ((verify_ledger_chain_iff c keys_e es start_e head).0 q).0 in
        histories a b r s (omega (arith, IsChain-length c keys_d r, IsChain-length c keys_e s))
